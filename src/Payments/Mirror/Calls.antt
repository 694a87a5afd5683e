-- ===== src/Payments/Mirror/Calls.antt =====
-- A duplicate is canceled at the provider, and its latest payment given back.
use setlyst_api.Payments.Mirror.{
  ◌>>◌, subscription_canceled, Call, Session, ℤ, after_refund, refund_latest, refund_invoice,
  refund_payment, answer, cancel_duplicate, change, refuse_duplicate, is_counted, called, book,
  payment_refunded, already_refunded, on_account, done, note_duplicate, map_option, bind_option,
  true,
}
use Prim.Native.String.{◌++◌}
use setlyst_api.Payments.Mirror.Runs.{answer-ok}
use setlyst_api.Prelude.Int.{pos}
use mathlib.Core.Path.{subst}
use setlyst_api.Payments.Mirror.Runs.{>>=-ok, on_account-ok, done-ok}
use setlyst_api.Payments.{
  answered, failed, Gateway, Timestamp, String, PaidInvoice, Option, GatewaySubscription, Answer,
  ok, List,
}
use setlyst_api.Prelude.{
  refl, ◌≡◌, ◌∙◌, sym, inl, inr, text_eq, option_eq, nat_eq, none, some, Timestamp, String, Option,
  In, arith, if◌then◌else◌, Bool-cases, List, map_option, bind_option, ◌⊎◌, true,
}
use setlyst_api.Billing.Payment.{PaymentSnapshot, PaymentChange}
use setlyst_api.Finance.{PaidInvoice, GatewayRefund}
use setlyst_api.Prelude.Int.{ℤ}
use setlyst_api.ApiError.{ok}

abbrev found_invoice : Answer (Option PaidInvoice) → Option PaidInvoice
found_invoice (answered o) = o
found_invoice (failed e) = none

-- The payment of the latest paid invoice, with the invoice's id.
abbrev pub latest_payment : Gateway → GatewaySubscription → Option (String × String)
latest_payment g d = bind_option d.latest_invoice_id (λ id.
    bind_option (found_invoice (g.get_paid_invoice id))
      (λ i. map_option (λ intent. (intent, i.id)) i.payment_intent_id))

-- The provider says that the payment was refunded before.
abbrev pub IsRefundedBefore : Answer GatewayRefund → Type 0
IsRefundedBefore (answered r) = ⊥
IsRefundedBefore (failed e) = already_refunded e ≡ true

-- The payment, if there is one, was given back, now or before.
abbrev pub IsGivenBack : Gateway → Option (String × String) → List Call → Type 0
IsGivenBack g none calls = Unit
IsGivenBack g (some (intent, invoice)) calls =
    In (payment_refunded intent) calls
    ⊎ IsRefundedBefore (g.refund intent ("setlyst-duplicate-" ++ invoice))

-- The subscription was canceled, and its latest payment given back.
abbrev pub IsUndone : Gateway → GatewaySubscription → List Call → Type 0
IsUndone g d calls =
    In (subscription_canceled d.id) calls × IsGivenBack g (latest_payment g d) calls

module _ (g : Gateway) (now : Timestamp) where
  after_refund-calls :
      (i : PaidInvoice) (intent : String) (a : Answer GatewayRefund) (c : Call) (s t : Session)
      (x : ℤ)
      → In c s.calls
      → after_refund g now i intent a s ≡ (ok x, t)
      → In c t.calls
  after_refund-calls i intent (answered r) c s t x found h =
      let (_, same) =
        done-ok (if is_counted r then r.amount else pos 0) x
          (book g now i r (called (payment_refunded intent) s)) t h in
      subst (λ u. In c u.calls) same (inr found)
  after_refund-calls i intent (failed e) c s t x found h = elim (Bool-cases (already_refunded e)) [
    | inl before ↦
        let same : s ≡ t = ground (arith, before, h) in subst (λ u. In c u.calls) same found
    | inr other ↦ absurd (ground (arith, other, h))
  ]

  refund_payment-calls :
      (i : PaidInvoice) (intent : Option String) (c : Call) (s t : Session) (x : ℤ)
      → In c s.calls
      → refund_payment g now i intent s ≡ (ok x, t)
      → In c t.calls
  refund_payment-calls i none c s t x found h =
      subst (λ u. In c u.calls) (done-ok (pos 0) x s t h).1 found
  refund_payment-calls i (some intent) c s t x found h =
      after_refund-calls i intent (g.refund intent ("setlyst-duplicate-" ++ i.id)) c s t x found h

  refund_invoice-calls :
      (i : Option PaidInvoice) (c : Call) (s t : Session) (x : ℤ)
      → In c s.calls
      → refund_invoice g now i s ≡ (ok x, t)
      → In c t.calls
  refund_invoice-calls none c s t x found h =
      subst (λ u. In c u.calls) (done-ok (pos 0) x s t h).1 found
  refund_invoice-calls (some i) c s t x found h =
      refund_payment-calls i i.payment_intent_id c s t x found h

  refund_latest-calls :
      (id : Option String) (c : Call) (s t : Session) (x : ℤ)
      → In c s.calls
      → refund_latest g now id s ≡ (ok x, t)
      → In c t.calls
  refund_latest-calls none c s t x found h =
      subst (λ u. In c u.calls) (done-ok (pos 0) x s t h).1 found
  refund_latest-calls (some id) c s t x found h =
      let (i, u, e, rest) = >>=-ok (answer (g.get_paid_invoice id)) (refund_invoice g now) s t h in
      let same = answer-ok (g.get_paid_invoice id) i s u e in
      refund_invoice-calls i c u t x (subst (λ v. In c v.calls) same found) rest

  after_refund-IsGivenBack :
      (i : PaidInvoice) (intent : String) (a : Answer GatewayRefund) (s t : Session) (x : ℤ)
      → after_refund g now i intent a s ≡ (ok x, t)
      → In (payment_refunded intent) t.calls ⊎ IsRefundedBefore a
  after_refund-IsGivenBack i intent (answered r) s t x h =
      let (_, same) =
        done-ok (if is_counted r then r.amount else pos 0) x
          (book g now i r (called (payment_refunded intent) s)) t h in
      inl (subst (λ u. In (payment_refunded intent) u.calls) same (inl refl))
  after_refund-IsGivenBack i intent (failed e) s t x h = elim (Bool-cases (already_refunded e)) [
    | inl before ↦ inr before
    | inr other ↦ absurd (ground (arith, other, h))
  ]

  refund_payment-IsGivenBack :
      (i : PaidInvoice) (intent : Option String) (s t : Session) (x : ℤ)
      → refund_payment g now i intent s ≡ (ok x, t)
      → IsGivenBack g (map_option (λ p. (p, i.id)) intent) t.calls
  refund_payment-IsGivenBack i none s t x h = tt
  refund_payment-IsGivenBack i (some intent) s t x h =
      after_refund-IsGivenBack i intent (g.refund intent ("setlyst-duplicate-" ++ i.id)) s t x h

  refund_invoice-IsGivenBack :
      (i : Option PaidInvoice) (s t : Session) (x : ℤ)
      → refund_invoice g now i s ≡ (ok x, t)
      → IsGivenBack g (bind_option i (λ j. map_option (λ p. (p, j.id)) j.payment_intent_id)) t.calls
  refund_invoice-IsGivenBack none s t x h = tt
  refund_invoice-IsGivenBack (some i) s t x h =
      refund_payment-IsGivenBack i i.payment_intent_id s t x h

  answered_invoice :
      (a : Answer (Option PaidInvoice)) (i : Option PaidInvoice) (s u : Session)
      → answer a s ≡ (ok i, u)
      → found_invoice a ≡ i
  answered_invoice (answered o) i s u h = (done-ok o i s u h).0
  answered_invoice (failed e) i s u h = absurd (ground (arith, h))

  refund_latest-IsGivenBack :
      (id : Option String) (s t : Session) (x : ℤ)
      → refund_latest g now id s ≡ (ok x, t)
      → IsGivenBack g
          (bind_option id (λ n.
            bind_option
              (found_invoice (g.get_paid_invoice n))
              (λ j. map_option (λ p. (p, j.id)) j.payment_intent_id)))
          t.calls
  refund_latest-IsGivenBack none s t x h = tt
  refund_latest-IsGivenBack (some id) s t x h =
      let (i, u, e, rest) = >>=-ok (answer (g.get_paid_invoice id)) (refund_invoice g now) s t h in
      let same = answered_invoice (g.get_paid_invoice id) i s u e in
      rw same (refund_invoice-IsGivenBack i u t x rest)

  cancel_duplicate-IsUndone :
      (d : GatewaySubscription) (s t : Session) (x : ℤ)
      → cancel_duplicate g now d s ≡ (ok x, t)
      → IsUndone g d t.calls
  unfolding cancel_duplicate
  cancel_duplicate-IsUndone d s t x h =
      let after = change (called (subscription_canceled d.id)) in
      let (_, u, e, rest) =
        >>=-ok (answer (g.cancel_now d.id)) (λ _. after >> refund_latest g now d.latest_invoice_id)
          s t h in
      (
        refund_latest-calls d.latest_invoice_id (subscription_canceled d.id)
            (called (subscription_canceled d.id) u) t x (inl refl) rest,
        refund_latest-IsGivenBack d.latest_invoice_id (called (subscription_canceled d.id) u) t x
            rest,
      )

  pub refuse_duplicate-IsUndone :
      (d current : GatewaySubscription) (p : PaymentSnapshot) (s t : Session)
      (outcome : Option PaymentChange)
      → refuse_duplicate g now d p current s ≡ (ok outcome, t)
      → IsUndone g d t.calls
  refuse_duplicate-IsUndone d current p s t outcome h =
      let (refunded, u, e, rest) =
        >>=-ok (cancel_duplicate g now d)
          (λ refunded. on_account (note_duplicate d p current refunded) >> done none) s t h in
      let (_, v, f, last) =
        >>=-ok (on_account (note_duplicate d p current refunded)) (λ _. done none) u t rest in
      let (b, run, left) = on_account-ok (note_duplicate d p current refunded) u v f in
      subst (λ w. IsUndone g d w.calls) (sym left ∙ (done-ok none outcome v t last).1)
        (cancel_duplicate-IsUndone d s u refunded e)
