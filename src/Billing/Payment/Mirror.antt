-- ===== src/Billing/Payment/Mirror.antt =====
-- What the mirror of the provider guarantees: it is idempotent, it protects a paid subscription in
-- effect, and it does not prolong the grace of a failed payment.
use mathlib.Core.Path.{subst}
use setlyst_api.Prelude.{
  ap, sym, ◌∙◌, ◌≡◌, true, false, some, arith, Timestamp, option_eq, text_eq, nat_eq, ap, Option,
  none, map_option, is_some_and,
}
use setlyst_api.ApiError.{ok}
use setlyst_api.Billing.Subscription.{
  key, Subscription, SubscriptionStatus, past_due, is_live, payment, is_payment,
}
use setlyst_api.Billing.Account.{Account, plan_exists}
use setlyst_api.Billing.Payment.{
  PaymentSnapshot, PaymentChange, changed, unchanged, mirrors, mirrored_row, apply_other,
  apply_current, apply_payment_subscription, past_due_since_of, Option, payment, none, map_option,
  is_some_and, is_payment,
}
use setlyst_api.Billing.Payment.Settled.{
  changed_needs_status, apply_payment_subscription_run, apply_payment_subscription-IsTaken,
  apply_current_settled,
}

-- Applying a snapshot again, after an application that changed the account and at any reading of
-- the clock, changes nothing.
pub apply_payment_subscription_twice :
    (p : PaymentSnapshot) (now later : Timestamp) (a b : Account) {change : PaymentChange}
    → apply_payment_subscription now p a ≡ ok (changed change, b)
    → apply_payment_subscription later p b ≡ ok (unchanged, b)
apply_payment_subscription_twice p now later a b h =
    let (status, e) = changed_needs_status p now a b h in
    let (exists, taken) = apply_payment_subscription-IsTaken p status now a b e h in
    apply_payment_subscription_run p status later b e (rw taken.plans exists)
    ∙ subst (λ c. apply_current c p status later b ≡ ok (unchanged, b)) (sym taken.at)
        (apply_current_settled taken.row p status later b taken.settled)

-- After a change from a live snapshot the row is the one that the code writes.
pub apply_payment_subscription_live :
    (p : PaymentSnapshot) (status : SubscriptionStatus) (now : Timestamp) (a b : Account)
    {change : PaymentChange}
    → p.status ≡ some status
    → is_live status ≡ true
    → apply_payment_subscription now p a ≡ ok (changed change, b)
    → b.subscription ≡ some (mirrored_row a.subscription p status now)
apply_payment_subscription_live p status now a b e live h =
    let (exists, taken) = apply_payment_subscription-IsTaken p status now a b e h in
    taken.at ∙ ap some (taken.mirror live)

-- A snapshot of a subscription that is over, and that is not the current one, leaves the account
-- as it is.
pub apply_payment_subscription_over :
    (p : PaymentSnapshot) (status : SubscriptionStatus) (now : Timestamp) (a : Account)
    (c : Subscription)
    → p.status ≡ some status
    → is_live status ≡ false
    → plan_exists p.plan_code a.plans ≡ true
    → a.subscription ≡ some c
    → mirrors p.external_ref c ≡ false
    → apply_payment_subscription now p a ≡ ok (unchanged, a)
unfolding apply_payment_subscription apply_current apply_other
apply_payment_subscription_over p status now a c e over exists at other = ground arith

pub past_due_since_of_failing :
    (c : Subscription) (p : PaymentSnapshot) (now since : Timestamp)
    → mirrors p.external_ref c ≡ true
    → c.status ≡ past_due
    → c.past_due_since ≡ some since
    → past_due_since_of (some c) p past_due now ≡ some since
past_due_since_of_failing c p now since same failing first = ground arith

-- The row agrees with the snapshot of a subscription that runs. What is kept of the contract (its
-- start, the terms that were accepted, the reminders sent) is that of the row which stood for the
-- same subscription, and starts anew on any other.
pub record IsMirror (old : Option Subscription) (p : PaymentSnapshot) (status : SubscriptionStatus)
    (now : Timestamp) (t : Subscription) : Type 0 where
  pub identity :
      (t.plan_code ≡ p.plan_code)
      × (t.status ≡ status)
      × (t.source ≡ payment)
      × (t.external_ref ≡ some p.external_ref)
  pub period :
      (t.current_period_end ≡ p.current_period_end)
      × (t.cancel_at_period_end ≡ p.cancel_at_period_end)
      × (t.canceled_at ≡ none)
  pub price :
      (t.billing_interval ≡ map_option key p.interval)
      × (t.unit_amount_cents ≡ p.unit_amount)
      × (t.currency ≡ p.currency)
      × (t.provider_status ≡ some p.provider_status)
  pub anew :
      is_some_and (mirrors p.external_ref) old ≡ false
      → (t.started_at ≡ now)
        × (t.terms_version ≡ none)
        × (t.terms_accepted_at ≡ none)
        × (t.paid_trial_reminder_sent_at ≡ none)
        × (t.renewal_reminder_period_end ≡ none)
  pub going_on :
      (c : Subscription)
      → old ≡ some c
      → mirrors p.external_ref c ≡ true
      → (t.started_at ≡ c.started_at)
        × (t.terms_version ≡ c.terms_version)
        × (t.terms_accepted_at ≡ c.terms_accepted_at)
        × (t.paid_trial_reminder_sent_at ≡ c.paid_trial_reminder_sent_at)
        × (t.renewal_reminder_period_end ≡ c.renewal_reminder_period_end)
