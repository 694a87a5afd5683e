-- ===== src/Billing/Payment/PastDue.antt =====
-- The grace period of a payment that fails, over a run of failing snapshots.
use mathlib.Core.Path.{subst}
use setlyst_api.Prelude.{
  refl, ◌≡◌, ◌∙◌, ap, sym, text_eq, option_eq, nat_eq, none, some, Option, String, Timestamp,
  is_some_and, true, ◌&&◌, false, bind_option, arith,
}
use setlyst_api.Billing.Payment.{
  unchanged, changed, duplicate, is_live, PaymentSnapshot, Option, String, Account, Subscription,
  Timestamp, is_some_and, PaymentChange, mirrors, Applied, true, apply_payment_subscription,
  past_due_since_of, is_past_due, ok, false, mirrored_row, bind_option,
}
use setlyst_api.Billing.Subscription.{is_live, past_due, Subscription, is_past_due}
use setlyst_api.Billing.Account.{Account}
use setlyst_api.ApiError.{ok}
use setlyst_api.Billing.Payment.Mirror.{past_due_since_of_failing, apply_payment_subscription_live}
use setlyst_api.Billing.Payment.Kept.{apply_payment_subscription_kept}
use setlyst_api.Billing.Payment.Laws.{mirrors-mirrored_row}

-- Snapshots of `reference` whose payment fails, applied one after another at any times.
pub data FailingRun (reference : String) (a : Account) : Account → Type 0 where
  here : FailingRun reference a a
  next :
      {b c : Account} (p : PaymentSnapshot) (now : Timestamp) (x : Applied)
      → FailingRun reference a b
      → p.external_ref ≡ reference
      → p.status ≡ some past_due
      → apply_payment_subscription now p b ≡ ok (x, c)
      → FailingRun reference a c

-- The account's payment of `reference` has been failing since then.
abbrev IsFailingSince : String → Timestamp → Account → Type 0
IsFailingSince reference since a =
    (c : Subscription) × (a.subscription ≡ some c)
    × (mirrors reference c ≡ true)
    × (c.status ≡ past_due)
    × (c.past_due_since ≡ some since)

changed-IsFailingSince :
    (p : PaymentSnapshot) (now since : Timestamp) (a b : Account) {change : PaymentChange}
    → p.status ≡ some past_due
    → past_due_since_of a.subscription p past_due now ≡ some since
    → apply_payment_subscription now p a ≡ ok (changed change, b)
    → IsFailingSince p.external_ref since b
unfolding is_live
changed-IsFailingSince p now since a b e first h = (
  mirrored_row a.subscription p past_due now,
  apply_payment_subscription_live p past_due now a b e refl h,
  mirrors-mirrored_row a.subscription p past_due now,
  refl,
  first,
)

step-IsFailingSince :
    (p : PaymentSnapshot) (now since : Timestamp) (a b : Account) (x : Applied)
    → p.status ≡ some past_due
    → IsFailingSince p.external_ref since a
    → apply_payment_subscription now p a ≡ ok (x, b)
    → IsFailingSince p.external_ref since b
step-IsFailingSince p now since a b (changed outcome) e (c, at, found, failing, first) h =
    changed-IsFailingSince p now since a b e
      (ap (λ o. past_due_since_of o p past_due now) at
        ∙ past_due_since_of_failing c p now since found failing first)
      h
step-IsFailingSince p now since a b unchanged e fails h =
    subst (IsFailingSince p.external_ref since)
      (apply_payment_subscription_kept p now a b unchanged (λ outcome other. ground arith) h) fails
step-IsFailingSince p now since a b (duplicate r) e fails h =
    subst (IsFailingSince p.external_ref since)
      (apply_payment_subscription_kept p now a b (duplicate r) (λ outcome other. ground arith) h)
      fails

run-IsFailingSince :
    (reference : String) (since : Timestamp) (a b : Account)
    → IsFailingSince reference since a
    → FailingRun reference a b
    → IsFailingSince reference since b
run-IsFailingSince reference since a b fails here = fails
run-IsFailingSince reference since a b fails (next {b = m} p now x run same e h) =
    let before = run-IsFailingSince reference since a m fails run in
    rw (← same) (
      step-IsFailingSince p now since m b x e
        (subst (λ r. IsFailingSince r since m) (sym same) before) h)

first_failure :
    (o : Option Subscription) (p : PaymentSnapshot) (now : Timestamp)
    → is_some_and (λ c. mirrors p.external_ref c && is_past_due c.status) o ≡ false
    → past_due_since_of o p past_due now ≡ some now
first_failure none p now fresh = refl
first_failure (some c) p now fresh = rw fresh refl

-- The time of the first failure of a payment is recorded, and however many failing snapshots of the
-- same subscription follow, changing it or not, the grace period is still counted from then.
pub past_due_since_first :
    (p : PaymentSnapshot) (now : Timestamp) (a b c : Account) {change : PaymentChange}
    → p.status ≡ some past_due
    → is_some_and (λ s. mirrors p.external_ref s && is_past_due s.status) a.subscription ≡ false
    → apply_payment_subscription now p a ≡ ok (changed change, b)
    → FailingRun p.external_ref b c
    → bind_option c.subscription (λ t. t.past_due_since) ≡ some now
past_due_since_first p now a b c e fresh h run =
    let start =
      changed-IsFailingSince p now now a b e (first_failure a.subscription p now fresh) h in
    let (t, at, found, failing, first) = run-IsFailingSince p.external_ref now b c start run in
    rw at first
