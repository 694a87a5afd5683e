-- ===== src/Payments/Mirror/Keeps.antt =====
-- What a mirror leaves of the events that were applied: it forgets none.
use setlyst_api.Payments.Mirror.{
  ◌>>=◌, ◌>>◌, Handler, Session, cancel_duplicate, Account, answer, resolve_duplicate,
  refund_payment, change, stored, decide, refuse_duplicate, take_over, refund_invoice, on_account,
  refund_latest, current_of, end_by_mirror, called, end_if_left, note_duplicate, after_refund,
  bind_option, after_apply, already_refunded, snapshot_of, done, is_running, subscription_canceled,
  change_of,
}
use setlyst_api.Prelude.{
  refl, ◌≡◌, ◌∙◌, inl, inr, text_eq, option_eq, nat_eq, none, some, Timestamp, String, Option,
  Bool-cases, bind_option,
}
use setlyst_api.Billing.Payment.{
  unchanged, changed, duplicate, PaymentSnapshot, Applied, PaymentChange,
  apply_payment_subscription, end_paid_subscription,
}
use setlyst_api.Payments.{
  answered, failed, Answer, Gateway, Timestamp, Option, PaidInvoice, GatewaySubscription,
  is_missing,
}
use setlyst_api.ApiError.{ok, err, Tx, Result}
use Prim.Native.String.{◌++◌, String}
use setlyst_api.Billing.Account.{Account, EventKind}
use setlyst_api.Finance.{PaidInvoice, GatewayRefund}

-- The handler leaves the events as they are, an error too.
abbrev pub IsKeeping : {A : Type 0} → Handler A → Type 0
IsKeeping m = (s : Session) → (m s).1.received ≡ s.received

bound-IsKeeping :
    {A B : Type 0} (r : Result A) (s : Session) (f : A → Handler B)
    → ((x : A) → IsKeeping (f x))
    → (elim r as (λ _. Result B × Session) [ ok a ↦ f a s | err e ↦ (err e, s) ]).1.received
      ≡ s.received
bound-IsKeeping (ok a) s f keeps = keeps a s
bound-IsKeeping (err e) s f keeps = refl

pub >>=-IsKeeping :
    {A B : Type 0} (m : Handler A) (f : A → Handler B)
    → IsKeeping m
    → ((x : A) → IsKeeping (f x))
    → IsKeeping (m >>= f)
>>=-IsKeeping m f first rest s = bound-IsKeeping (m s).0 (m s).1 f rest ∙ first s

stored-IsKeeping :
    {A : Type 0} (r : Result (A × Account)) (s : Session) → (stored s r).1.received ≡ s.received
stored-IsKeeping (ok (a, b)) s = refl
stored-IsKeeping (err e) s = refl

pub on_account-IsKeeping : {A : Type 0} (t : Tx Account A) → IsKeeping (on_account t)
on_account-IsKeeping t s = stored-IsKeeping (t s.account) s

answer-IsKeeping : {A : Type 0} (a : Answer A) → IsKeeping (answer a)
answer-IsKeeping (answered a) s = refl
answer-IsKeeping (failed e) s = refl

current_of-IsKeeping : (a : Answer GatewaySubscription) → IsKeeping (current_of a)
current_of-IsKeeping (answered a) s = refl
current_of-IsKeeping (failed e) s = elim (Bool-cases (is_missing e)) [
  | inl missing ↦ rw missing refl
  | inr other ↦ rw other refl
]

module _ (now : Timestamp) where
  end_by_mirror-IsKeeping : (o : Option PaymentSnapshot) → IsKeeping (end_by_mirror now o)
  end_by_mirror-IsKeeping none = λ s. refl
  end_by_mirror-IsKeeping (some p) =
      >>=-IsKeeping (on_account (apply_payment_subscription now p)) (λ x. done (change_of x))
        (on_account-IsKeeping (apply_payment_subscription now p)) (λ x s. refl)

  end_if_left-IsKeeping :
      (reference : String) (o : Option PaymentChange) → IsKeeping (end_if_left now reference o)
  end_if_left-IsKeeping reference (some c) = λ s. refl
  end_if_left-IsKeeping reference none =
      >>=-IsKeeping (on_account (end_paid_subscription now reference EventKind.canceled none))
        (λ _. done tt)
        (on_account-IsKeeping (end_paid_subscription now reference EventKind.canceled none))
        (λ x s. refl)

  take_over-IsKeeping :
      (p : PaymentSnapshot) (reference : String) (current : Option GatewaySubscription)
      → IsKeeping (take_over now p reference current)
  take_over-IsKeeping p reference current =
      >>=-IsKeeping (end_by_mirror now (bind_option current snapshot_of))
        (λ ended. end_if_left now reference ended >> end_by_mirror now (some p))
        (end_by_mirror-IsKeeping (bind_option current snapshot_of))
        (λ ended.
          >>=-IsKeeping (end_if_left now reference ended) (λ _. end_by_mirror now (some p))
            (end_if_left-IsKeeping reference ended) (λ _. end_by_mirror-IsKeeping (some p)))

module _ (g : Gateway) (now : Timestamp) where
  after_refund-IsKeeping :
      (i : PaidInvoice) (intent : String) (a : Answer GatewayRefund)
      → IsKeeping (after_refund g now i intent a)
  after_refund-IsKeeping i intent (answered r) = λ s. refl
  after_refund-IsKeeping i intent (failed e) = λ s. elim (Bool-cases (already_refunded e)) [
    | inl before ↦ rw before refl
    | inr other ↦ rw other refl
  ]

  refund_payment-IsKeeping :
      (i : PaidInvoice) (intent : Option String) → IsKeeping (refund_payment g now i intent)
  refund_payment-IsKeeping i none = λ s. refl
  refund_payment-IsKeeping i (some intent) =
      after_refund-IsKeeping i intent (g.refund intent ("setlyst-duplicate-" ++ i.id))

  refund_invoice-IsKeeping : (i : Option PaidInvoice) → IsKeeping (refund_invoice g now i)
  refund_invoice-IsKeeping none = λ s. refl
  refund_invoice-IsKeeping (some i) = refund_payment-IsKeeping i i.payment_intent_id

  refund_latest-IsKeeping : (id : Option String) → IsKeeping (refund_latest g now id)
  refund_latest-IsKeeping none = λ s. refl
  refund_latest-IsKeeping (some id) =
      >>=-IsKeeping (answer (g.get_paid_invoice id)) (refund_invoice g now)
        (answer-IsKeeping (g.get_paid_invoice id)) refund_invoice-IsKeeping

  cancel_duplicate-IsKeeping : (d : GatewaySubscription) → IsKeeping (cancel_duplicate g now d)
  unfolding cancel_duplicate
  cancel_duplicate-IsKeeping d =
      >>=-IsKeeping (answer (g.cancel_now d.id))
        (λ _.
          change (called (subscription_canceled d.id)) >> refund_latest g now d.latest_invoice_id)
        (answer-IsKeeping (g.cancel_now d.id))
        (λ _ s. refund_latest-IsKeeping d.latest_invoice_id (called (subscription_canceled d.id) s))

  refuse_duplicate-IsKeeping :
      (d current : GatewaySubscription) (p : PaymentSnapshot)
      → IsKeeping (refuse_duplicate g now d p current)
  refuse_duplicate-IsKeeping d current p =
      >>=-IsKeeping (cancel_duplicate g now d)
        (λ refunded. on_account (note_duplicate d p current refunded) >> done none)
        (cancel_duplicate-IsKeeping d)
        (λ refunded.
          >>=-IsKeeping (on_account (note_duplicate d p current refunded)) (λ _. done none)
            (on_account-IsKeeping (note_duplicate d p current refunded)) (λ x s. refl))

  decide-IsKeeping :
      (d : GatewaySubscription) (p : PaymentSnapshot) (reference : String)
      (current : Option GatewaySubscription)
      → IsKeeping (decide g now d p reference current)
  decide-IsKeeping d p reference none = take_over-IsKeeping now p reference none
  decide-IsKeeping d p reference (some c) = λ s. elim (Bool-cases (is_running c)) [
    | inl runs ↦ rw runs (refuse_duplicate-IsKeeping d c p s)
    | inr over ↦ rw over (take_over-IsKeeping now p reference (some c) s)
  ]

  -- Whatever a snapshot leads to, the events stay.
  pub after_apply-IsKeeping :
      (d : GatewaySubscription) (p : PaymentSnapshot) (x : Applied)
      → IsKeeping (after_apply g now d p x)
  unfolding resolve_duplicate
  after_apply-IsKeeping d p (changed c) = λ s. refl
  after_apply-IsKeeping d p unchanged = λ s. refl
  after_apply-IsKeeping d p (duplicate r) =
      >>=-IsKeeping (current_of (g.get_subscription r)) (decide g now d p r)
        (current_of-IsKeeping (g.get_subscription r)) (decide-IsKeeping d p r)
