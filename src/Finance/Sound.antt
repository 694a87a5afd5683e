-- ===== src/Finance/Sound.antt =====
-- The books stay sound: no more is refunded or disputed than was paid, and no invoice or refund is
-- recorded twice.
use setlyst_api.Prelude.{
  none, some, text_eq, nat_eq, option_eq, ◌≤◌, ◌<◌, Bool, true, false, List, [], ◌∷◌, All, count,
  any, update_where, ◌≡◌, refl, arith, inl, inr, All-update_where, String, count-update_where, some,
  min, Bool-cases, Timestamp, count_first, ==→≡, Option, if-both, ◌==◌,
}
use setlyst_api.Prelude.Int.{pos}
use setlyst_api.Finance.{
  Payment, Books, String, mark_disputed, set_fees, set_refunded, record_invoice, recompute_refunded,
  store_refund, is_invoice, filled_in, ℤ, settled_by, updated_refund, min, GatewayRefund,
  new_payment, derived, some, is_refund, raised, Timestamp, pos_part, refunds_of, PaidInvoice,
  leb_ℤ, store_refunds, import_invoice_of, apply_refund_event, upsert_refund, Option, set_imported,
  recompute_imported, recompute_or_import, new_refund, settle_refund,
}
use setlyst_api.Prelude.Int.{ℤ, pos_part, leb_ℤ}

abbrev pub IsSoundPayment : Payment → Type 0
IsSoundPayment p =
    (p.refunded_cents ≤ p.amount_cents) × (p.disputed_cents ≤ p.amount_cents) × (0 < p.amount_cents)

pub record IsSound (s : Books) : Type 0 where
  pub payments : All IsSoundPayment s.payments
  pub invoice_once : (id : String) → count (is_invoice id) s.payments ≤ 1
  pub refund_once : (id : String) → count (is_refund id) s.refunds ≤ 1

-- An UPDATE of payments that keeps their invoices and their soundness.
update-IsSound :
    (q : Payment → Bool) (f : Payment → Payment) (s : Books)
    → ((p : Payment) → (f p).invoice_id ≡ p.invoice_id)
    → ((p : Payment) → IsSoundPayment p → IsSoundPayment (f p))
    → IsSound s
    → IsSound (record s { payments = update_where q f s.payments })
update-IsSound q f s same keeps v = record {
  payments = All-update_where q f s.payments keeps v.payments;
  invoice_once = λ id.
      rw (count-update_where (is_invoice id) q f s.payments (λ p. rw (same p) refl))
        (v.invoice_once id);
  refund_once = v.refund_once;
}

record_invoice-IsSound :
    (now : Timestamp) (i : PaidInvoice) (s : Books) → IsSound s → IsSound (record_invoice now i s).1
unfolding record_invoice filled_in new_payment
record_invoice-IsSound now i s v = elim (Bool-cases (leb_ℤ i.amount_paid (pos 0))) [
  | inl nothing ↦ rw nothing v
  | inr some_paid ↦ elim (Bool-cases (any (is_invoice i.id) s.payments)) [
    | inl known ↦
        rw (some_paid, known)
          (update-IsSound (is_invoice i.id) (filled_in i) s (λ _. refl) (λ _ h. h) v)
    | inr new ↦
        rw (some_paid, new)
          (record {
            payments = ((omega arith, omega arith, ground (arith, some_paid)), v.payments);
            invoice_once = λ id.
                count_first (is_invoice id) (new_payment now i) s.payments (v.invoice_once id)
                  (λ same. rw (← ==→≡ i.id id same) new);
            refund_once = v.refund_once;
          })
  ]
]

set_fees-IsSound :
    (id : String) (fee net : ℤ) (s : Books) → IsSound s → IsSound (set_fees id fee net s)
unfolding set_fees
set_fees-IsSound id fee net s v =
    update-IsSound (is_invoice id) (λ p. record p { fee_cents = some fee; net_cents = some net }) s
      (λ _. refl) (λ _ h. h) v

set_refunded-IsSound :
    (intent : String) (refunded : ℤ) (s : Books)
    → IsSound s
    → IsSound (set_refunded intent refunded s).1
unfolding set_refunded
set_refunded-IsSound intent refunded s v =
    update-IsSound (settled_by intent) (raised (pos_part refunded) (refunds_of intent s.refunds)) s
      (λ _. refl) (λ p h. (omega arith, h.1, h.2)) v

recompute_refunded-IsSound :
    (intent : String) (s : Books) → IsSound s → IsSound (recompute_refunded intent s).1
unfolding recompute_refunded
recompute_refunded-IsSound intent s v =
    update-IsSound (settled_by intent) (derived (refunds_of intent s.refunds)) s (λ _. refl)
      (λ p h. (omega arith, h.1, h.2)) v

mark_disputed-IsSound :
    (intent : String) (amount : ℤ) (status : String) (s : Books)
    → IsSound s
    → IsSound (mark_disputed intent amount status s)
unfolding mark_disputed
mark_disputed-IsSound intent amount status s v =
    update-IsSound (settled_by intent)
      (λ p. record p {
        disputed_cents = min p.amount_cents (pos_part amount);
        dispute_status = some status;
      })
      s (λ _. refl) (λ p h. (h.0, omega arith, h.2)) v

store_refund-IsSound : (g : GatewayRefund) (s : Books) → IsSound s → IsSound (store_refund g s)
unfolding store_refund updated_refund
store_refund-IsSound g s v = elim (Bool-cases (any (is_refund g.id) s.refunds)) [
  | inl known ↦ rw known (record {
    payments = v.payments;
    invoice_once = v.invoice_once;
    refund_once = λ id.
        rw
          (count-update_where (is_refund id) (is_refund g.id) (updated_refund g) s.refunds
            (λ _. refl))
          (v.refund_once id);
  })
  | inr new ↦ rw new (record {
    payments = v.payments;
    invoice_once = v.invoice_once;
    refund_once = λ id.
        count_first (is_refund id) (new_refund g) s.refunds (v.refund_once id)
          (λ same. rw (← ==→≡ g.id id same) new);
  })
]

import_invoice_of-IsSound :
    (now : Timestamp) (found : Option PaidInvoice) (s : Books)
    → IsSound s
    → IsSound (import_invoice_of now found s).1
unfolding import_invoice_of
import_invoice_of-IsSound now none s v = v
import_invoice_of-IsSound now (some i) s v = record_invoice-IsSound now i s v

recompute_imported-IsSound :
    (intent : String) (r : Bool × Books) → IsSound r.1 → IsSound (recompute_imported intent r)
recompute_imported-IsSound intent (true, s) v = recompute_refunded-IsSound intent s v
recompute_imported-IsSound intent (false, s) v = v

recompute_or_import-IsSound :
    (now : Timestamp) (found : Option PaidInvoice) (intent : String) (s : Books)
    → IsSound s
    → IsSound (recompute_or_import now found intent s)
recompute_or_import-IsSound now found intent s v =
    let done = recompute_refunded intent s in
    let v_done = recompute_refunded-IsSound intent s v in
    if-both IsSound (done.0 == 0) _ done.1
      (λ _.
        recompute_imported-IsSound intent (import_invoice_of now found done.1)
          (import_invoice_of-IsSound now found done.1 v_done))
      (λ _. v_done)

settle_refund-IsSound :
    (now : Timestamp) (found : Option PaidInvoice) (intent : Option String) (s : Books)
    → IsSound s
    → IsSound (settle_refund now found intent s)
settle_refund-IsSound now found none s v = v
settle_refund-IsSound now found (some intent) s v = recompute_or_import-IsSound now found intent s v

upsert_refund-IsSound :
    (now : Timestamp) (found : Option PaidInvoice) (g : GatewayRefund) (s : Books)
    → IsSound s
    → IsSound (upsert_refund now found g s)
unfolding upsert_refund
upsert_refund-IsSound now found g s v =
    settle_refund-IsSound now found g.payment_intent_id (store_refund g s)
      (store_refund-IsSound g s v)

store_refunds-IsSound :
    (gs : List GatewayRefund) (s : Books) → IsSound s → IsSound (store_refunds gs s)
unfolding store_refunds
store_refunds-IsSound [] s v = v
store_refunds-IsSound (g ∷ gs) s v =
    store_refunds-IsSound gs (store_refund g s) (store_refund-IsSound g s v)

set_imported-IsSound :
    (intent : String) (refunded : ℤ) (r : Bool × Books)
    → IsSound r.1
    → IsSound (set_imported intent refunded r).1
set_imported-IsSound intent refunded (true, s) v = set_refunded-IsSound intent refunded s v
set_imported-IsSound intent refunded (false, s) v = v

apply_refund_event-IsSound :
    (now : Timestamp) (found : Option PaidInvoice) (listed : List GatewayRefund) (intent : String)
    (refunded : ℤ) (s : Books)
    → IsSound s
    → IsSound (apply_refund_event now found listed intent refunded s).1
unfolding apply_refund_event
apply_refund_event-IsSound now found listed intent refunded s v =
    let stored = store_refunds listed s in
    let done = set_refunded intent refunded stored in
    let v_done = set_refunded-IsSound intent refunded stored (store_refunds-IsSound listed s v) in
    if-both (λ (r : Bool × Books). IsSound r.1) (done.0 == 0) _ (true, done.1)
      (λ _.
        set_imported-IsSound intent refunded (import_invoice_of now found done.1)
          (import_invoice_of-IsSound now found done.1 v_done))
      (λ _. v_done)

-- What the provider's events do to the books.
pub data BooksStep (s : Books) : Books → Type 0 where
  invoice_paid : (now : Timestamp) (i : PaidInvoice) → BooksStep s (record_invoice now i s).1
  fees_known : (id : String) (fee net : ℤ) → BooksStep s (set_fees id fee net s)
  refund_changed :
      (now : Timestamp) (found : Option PaidInvoice) (g : GatewayRefund)
      → BooksStep s (upsert_refund now found g s)
  charge_refunded :
      (now : Timestamp) (found : Option PaidInvoice) (listed : List GatewayRefund) (intent : String)
      (refunded : ℤ)
      → BooksStep s (apply_refund_event now found listed intent refunded s).1
  disputed :
      (intent : String) (amount : ℤ) (status : String)
      → BooksStep s (mark_disputed intent amount status s)

pub data BooksRun (s : Books) : Books → Type 0 where
  start : BooksRun s s
  step : {mid after : Books} → BooksRun s mid → BooksStep mid after → BooksRun s after

step-IsSound : (s after : Books) → BooksStep s after → IsSound s → IsSound after
step-IsSound s _ (invoice_paid now i) v = record_invoice-IsSound now i s v
step-IsSound s _ (fees_known id fee net) v = set_fees-IsSound id fee net s v
step-IsSound s _ (refund_changed now found g) v = upsert_refund-IsSound now found g s v
step-IsSound s _ (charge_refunded now found listed intent refunded) v =
    apply_refund_event-IsSound now found listed intent refunded s v
step-IsSound s _ (disputed intent amount status) v = mark_disputed-IsSound intent amount status s v

-- From sound books, whatever events of payments, fees, refunds and disputes come in whatever order,
-- the books stay sound: of each payment at most what was paid is refunded or disputed, and each
-- invoice and each refund has at most one row.
pub BooksRun-IsSound : (s after : Books) → IsSound s → BooksRun s after → IsSound after
BooksRun-IsSound s _ v start = v
BooksRun-IsSound s after v (step {mid} run event) =
    step-IsSound mid after event (BooksRun-IsSound s mid v run)
