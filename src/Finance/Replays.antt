-- ===== src/Finance/Replays.antt =====
-- Events that are delivered again or out of order do no harm to the books.
use setlyst_api.Prelude.{
  text_eq, nat_eq, option_eq, none, some, ℕ, min, max, Bool, true, false, List, [], ◌∷◌, All, any,
  update_where, ◌≡◌, refl, arith, inl, inr, ap, sym, ◌∙◌, Bool-cases, String, Timestamp, Option,
  if-both, ◌==◌, ==-refl,
}
use mathlib.Core.Path.{subst}
use setlyst_api.Prelude.Int.{ℤ, pos, pos_part, leb_ℤ}
use setlyst_api.Finance.{
  Payment, Refund, Books, recompute_refunded, upsert_refund, set_refunded, import_invoice_of,
  String, raised, settled_by, refunds_of, Timestamp, Option, derived, PaidInvoice, GatewayRefund,
  recompute_or_import, settle_refund, filled_in, record_invoice, store_refund, coalesce, leb_ℤ,
  new_payment, is_invoice,
}

update_where-merge :
    (q : Payment → Bool) (f g h : Payment → Payment) (ps : List Payment)
    → ((p : Payment) → q (f p) ≡ q p)
    → ((p : Payment) → g (f p) ≡ h p)
    → update_where q g (update_where q f ps) ≡ update_where q h ps
update_where-merge q f g h [] unseen merge = refl
update_where-merge q f g h (p ∷ ps) unseen merge =
    let rest = update_where-merge q f g h ps unseen merge in
    elim (Bool-cases (q p)) [
      | inl here ↦ rw (here, unseen p, here, merge p, rest) refl
      | inr other ↦ rw (other, other, rest) refl
    ]

raised-raised : (x y c : ℕ) (p : Payment) → raised y c (raised x c p) ≡ raised (max x y) c p
raised-raised x y c p =
    ap (λ n. record p { refunded_cents = n }) (meet p.amount_cents p.refunded_cents)
  where
    meet :
        (a r : ℕ)
        → min a (max (max (min a (max (max r x) c)) y) c) ≡ min a (max (max r (max x y)) c)
    meet a r = omega arith

set_refunded-merge :
    (intent : String) (a b : ℤ) (s : Books)
    → (set_refunded intent b (set_refunded intent a s).1).1
      ≡ (set_refunded intent (pos (max (pos_part a) (pos_part b))) s).1
unfolding set_refunded
set_refunded-merge intent a b s =
    let n = refunds_of intent s.refunds in
    ap (λ ps. record s { payments = ps })
      (update_where-merge (settled_by intent) (raised (pos_part a) n) (raised (pos_part b) n)
        (raised (max (pos_part a) (pos_part b)) n) s.payments (λ _. refl)
        (raised-raised (pos_part a) (pos_part b) n))

set_refunded_alone :
    (intent : String) (a : ℤ) (s : Books)
    → (set_refunded intent a s).1 ≡ (set_refunded intent (pos (pos_part a)) s).1
unfolding set_refunded
set_refunded_alone intent a s = refl

-- The refunded amounts that arrive, one after another.
unfoldable pub deliver : String → List ℤ → Books → Books
deliver intent [] s = s
deliver intent (a ∷ more) s = deliver intent more (set_refunded intent a s).1

abbrev pub largest : ℤ → List ℤ → ℕ
largest a [] = pos_part a
largest a (b ∷ bs) = max (pos_part a) (largest b bs)

-- However many refunded amounts of a payment arrive, repeated and in whatever order, the books are
-- those after the largest of them alone.
pub deliver-set_refunded :
    (intent : String) (a : ℤ) (more : List ℤ) (s : Books)
    → deliver intent (a ∷ more) s ≡ (set_refunded intent (pos (largest a more)) s).1
unfolding deliver
deliver-set_refunded intent a [] s = set_refunded_alone intent a s
deliver-set_refunded intent a (b ∷ bs) s =
    deliver-set_refunded intent b bs (set_refunded intent a s).1
    ∙ set_refunded-merge intent a (pos (largest b bs)) s

abbrev IsDerived : String → List Refund → Payment → Type 0
IsDerived intent rs p =
    settled_by intent p ≡ true → p.refunded_cents ≡ min p.amount_cents (refunds_of intent rs)

derived-All :
    (intent : String) (rs : List Refund) (ps : List Payment)
    → All
        (IsDerived intent rs)
        (update_where (settled_by intent) (derived (refunds_of intent rs)) ps)
derived-All intent rs [] = tt
derived-All intent rs (p ∷ ps) = (
  if-both (IsDerived intent rs) (settled_by intent p) (derived (refunds_of intent rs) p) p
      (λ _ _. refl) (λ other settled. absurd (ground (arith, other, settled))),
  derived-All intent rs ps,
)

-- Every payment of the intent has the refunded amount that its refunds give.
abbrev pub IsSettled : String → Books → Type 0
IsSettled intent s =
    All
      (λ (p : Payment).
        settled_by intent p ≡ true
        → p.refunded_cents ≡ min p.amount_cents (refunds_of intent s.refunds))
      s.payments

recompute_refunded-IsSettled :
    (intent : String) (s : Books) → IsSettled intent (recompute_refunded intent s).1
unfolding recompute_refunded
recompute_refunded-IsSettled intent s = derived-All intent s.refunds s.payments

recompute_or_import-IsSettled :
    (now : Timestamp) (found : Option PaidInvoice) (intent : String) (s : Books)
    → IsSettled intent (recompute_or_import now found intent s)
unfolding import_invoice_of
recompute_or_import-IsSettled now none intent s =
    let done = recompute_refunded intent s in
    let settled = recompute_refunded-IsSettled intent s in
    if-both (IsSettled intent) (done.0 == 0) done.1 done.1 (λ _. settled) (λ _. settled)
recompute_or_import-IsSettled now (some i) intent s =
    let done = recompute_refunded intent s in
    let recorded = (record_invoice now i done.1).1 in
    if-both (IsSettled intent) (done.0 == 0) (recompute_refunded intent recorded).1 done.1
      (λ _. recompute_refunded-IsSettled intent recorded)
      (λ _. recompute_refunded-IsSettled intent s)

-- After a refund of a payment is recorded or changed, each row of that payment, one that had to be
-- brought in from the provider included, has as refunded amount the sum of its refunds that
-- succeeded or are pending, and at most what was paid.
pub upsert_refund-IsSettled :
    (now : Timestamp) (found : Option PaidInvoice) (g : GatewayRefund) (intent : String) (s : Books)
    → g.payment_intent_id ≡ some intent
    → IsSettled intent (upsert_refund now found g s)
unfolding upsert_refund
upsert_refund-IsSettled now found g intent s e =
    subst (λ o. IsSettled intent (settle_refund now found o (store_refund g s))) (sym e)
      (recompute_or_import-IsSettled now found intent (store_refund g s))

update_where-none :
    (q : Payment → Bool) (f : Payment → Payment) (ps : List Payment)
    → any q ps ≡ false
    → update_where q f ps ≡ ps
update_where-none q f [] e = refl
update_where-none q f (p ∷ ps) e = elim (Bool-cases (q p)) [
  | inl here ↦ absurd (ground (arith, here, e))
  | inr other ↦ rw (other, update_where-none q f ps (rw other at e)) refl
]

any-update_where :
    (q : Payment → Bool) (f : Payment → Payment) (ps : List Payment)
    → ((p : Payment) → q (f p) ≡ q p)
    → any q (update_where q f ps) ≡ any q ps
any-update_where q f [] unseen = refl
any-update_where q f (p ∷ ps) unseen = elim (Bool-cases (q p)) [
  | inl here ↦ rw (here, unseen p, here) refl
  | inr other ↦ rw (other, other, any-update_where q f ps unseen) refl
]

coalesce-again : {A : Type 0} (x y : Option A) → coalesce (coalesce x y) y ≡ coalesce x y
coalesce-again none none = refl
coalesce-again none (some y) = refl
coalesce-again (some x) y = refl

coalesce-same : {A : Type 0} (x : Option A) → coalesce x x ≡ x
coalesce-same none = refl
coalesce-same (some x) = refl

filled_in-again : (i : PaidInvoice) (p : Payment) → filled_in i (filled_in i p) ≡ filled_in i p
unfolding filled_in
filled_in-again i p =
    rw
      (
        coalesce-again p.payment_intent_id i.payment_intent_id,
        coalesce-again p.subscription_id i.subscription_id,
        coalesce-again p.user_id i.account,
        coalesce-again p.plan_code i.plan_code,
      )
      refl

filled_in-new :
    (now : Timestamp) (i : PaidInvoice) → filled_in i (new_payment now i) ≡ new_payment now i
unfolding filled_in new_payment
filled_in-new now i =
    rw
      (
        coalesce-same i.payment_intent_id,
        coalesce-same i.subscription_id,
        coalesce-same i.account,
        coalesce-same i.plan_code,
      )
      refl

invoice-filled_in :
    (i : PaidInvoice) (p : Payment) → is_invoice i.id (filled_in i p) ≡ is_invoice i.id p
unfolding filled_in
invoice-filled_in i p = refl

invoice-new : (now : Timestamp) (i : PaidInvoice) → is_invoice i.id (new_payment now i) ≡ true
unfolding new_payment
invoice-new now i = ==-refl i.id

record_known :
    (later : Timestamp) (i : PaidInvoice) (s : Books)
    → leb_ℤ i.amount_paid (pos 0) ≡ false
    → any (is_invoice i.id) s.payments ≡ true
    → record_invoice later i s
      ≡ (false, record s { payments = update_where (is_invoice i.id) (filled_in i) s.payments })
unfolding record_invoice
record_known later i s paid known = rw (paid, known) refl

record_new :
    (now : Timestamp) (i : PaidInvoice) (s : Books)
    → leb_ℤ i.amount_paid (pos 0) ≡ false
    → any (is_invoice i.id) s.payments ≡ false
    → record_invoice now i s ≡ (true, record s { payments = new_payment now i ∷ s.payments })
unfolding record_invoice
record_new now i s paid new = rw (paid, new) refl

record_nothing :
    (now : Timestamp) (i : PaidInvoice) (s : Books)
    → leb_ℤ i.amount_paid (pos 0) ≡ true
    → record_invoice now i s ≡ (false, s)
unfolding record_invoice
record_nothing now i s nothing = rw nothing refl

-- Recording an invoice that is in the books, as it is there.
record_same :
    (later : Timestamp) (i : PaidInvoice) (s : Books)
    → leb_ℤ i.amount_paid (pos 0) ≡ false
    → any (is_invoice i.id) s.payments ≡ true
    → update_where (is_invoice i.id) (filled_in i) s.payments ≡ s.payments
    → record_invoice later i s ≡ (false, s)
record_same later i s paid known same =
    record_known later i s paid known ∙ ap (λ ps. (false, record s { payments = ps })) same

-- A paid invoice that is reported again changes nothing, and is not taken for a new one.
pub record_invoice_again :
    (now later : Timestamp) (i : PaidInvoice) (s : Books)
    → record_invoice later i (record_invoice now i s).1 ≡ (false, (record_invoice now i s).1)
record_invoice_again now later i s = elim (Bool-cases (leb_ℤ i.amount_paid (pos 0))) [
  | inl nothing ↦ rw (record_nothing now i s nothing) (record_nothing later i s nothing)
  | inr paid ↦ elim (Bool-cases (any (is_invoice i.id) s.payments)) [
    | inl known ↦ rw (record_known now i s paid known) (
        record_same later i _ paid
          (any-update_where (is_invoice i.id) (filled_in i) s.payments (invoice-filled_in i)
            ∙ known)
          (update_where-merge (is_invoice i.id) (filled_in i) (filled_in i) (filled_in i) s.payments
            (invoice-filled_in i) (filled_in-again i)))
    | inr new ↦ rw (record_new now i s paid new) (
        record_same later i _ paid (rw (invoice-new now i) refl) (
          rw
            (
              invoice-new now i,
              filled_in-new now i,
              update_where-none (is_invoice i.id) (filled_in i) s.payments new,
            )
            refl))
  ]
]
