-- ===== src/Billing/Subscription.antt =====
-- src/models/billing.rs: subscriptions, and when one grants its plan; the row of the table
-- `subscriptions` (migration 0012) with the columns that the services read or write.
use setlyst_api.Prelude.{
  ℕ, ◌+◌, String, Bool, true, false, not, ◌&&◌, ◌||◌, Option, ltb, is_none_or, Timestamp, days,
}

pub data SubscriptionStatus : Type 0 where
  trialing active past_due canceled expired : SubscriptionStatus

unfoldable pub is_live : SubscriptionStatus → Bool
is_live trialing = true
is_live active = true
is_live past_due = true
is_live canceled = false
is_live expired = false

abbrev pub is_trialing : SubscriptionStatus → Bool
is_trialing trialing = true
is_trialing _ = false

abbrev pub is_active : SubscriptionStatus → Bool
is_active active = true
is_active _ = false

abbrev pub is_past_due : SubscriptionStatus → Bool
is_past_due past_due = true
is_past_due _ = false

pub data SubscriptionSource : Type 0 where
  trial admin promo_code credits referral payment : SubscriptionSource

abbrev pub is_payment : SubscriptionSource → Bool
is_payment payment = true
is_payment _ = false

abbrev pub is_admin : SubscriptionSource → Bool
is_admin admin = true
is_admin _ = false

abbrev pub renewal_grace_days : ℕ
renewal_grace_days = 2

abbrev pub payment_grace_days : ℕ
payment_grace_days = 14

abbrev pub withdrawal_days : ℕ
withdrawal_days = 7

unfoldable pub grace : SubscriptionSource → ℕ
grace payment = days renewal_grace_days
grace _ = 0

unfoldable pub subscription_in_effect :
    SubscriptionStatus → SubscriptionSource → Option Timestamp → Option Timestamp → Timestamp → Bool
unfolding is_live grace
subscription_in_effect status source current_period_end past_due_since now =
    let retrying =
      not (is_past_due status)
      || is_none_or (λ since. ltb now (since + days payment_grace_days)) past_due_since in
    is_live status
    && (retrying && is_none_or (λ end. ltb now (end + grace source)) current_period_end)

pub data BillingInterval : Type 0 where
  monthly yearly : BillingInterval

abbrev pub key : BillingInterval → String
key monthly = "monthly"
key yearly = "yearly"

pub record Subscription : Type 0 where
  pub plan_code : String
  pub status : SubscriptionStatus
  pub source : SubscriptionSource
  pub started_at : Timestamp
  pub current_period_end : Option Timestamp
  pub trial_ends_at : Option Timestamp
  pub cancel_at_period_end : Bool
  pub canceled_at : Option Timestamp
  pub external_ref : Option String
  pub provider_status : Option String
  pub billing_interval : Option String
  pub unit_amount_cents : Option ℕ
  pub currency : Option String
  pub past_due_since : Option Timestamp
  pub terms_version : Option String
  pub terms_accepted_at : Option Timestamp
  pub note : Option String
  pub trial_reminder_sent_at : Option Timestamp
  pub paid_trial_reminder_sent_at : Option Timestamp
  pub renewal_reminder_period_end : Option Timestamp
  pub created_at : Timestamp
  pub updated_at : Timestamp
  pub updated_by : Option ℕ

unfoldable pub is_effective : Subscription → Timestamp → Bool
unfolding subscription_in_effect
is_effective s at =
    subscription_in_effect s.status s.source s.current_period_end s.past_due_since at

-- A paid subscription that the payment provider is still charging for.
unfoldable pub is_paid_and_effective : Subscription → Timestamp → Bool
unfolding is_effective
is_paid_and_effective s at = is_payment s.source && is_effective s at
