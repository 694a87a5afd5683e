-- ===== src/Billing/Account.antt =====
-- src/services/billing.rs: what one transaction over an account's billing sees. The advisory and
-- row locks make the transactions of one account run one after another, so a transaction is a
-- function of the state (`Tx`). A plan exists if `plans` lists its code. `events` is the table
-- `subscription_events`, newest first; of an event's free-form JSON it keeps what is read back.
use setlyst_api.Prelude.{
  ℕ, String, Bool, Option, some, List, ◌∷◌, any, ◌==◌, text_eq, map_option, not, Timestamp,
}
use setlyst_api.Prelude.Int.{ℤ}
use setlyst_api.ApiError.{Tx, gets, modify, fail_if, staff_cannot_subscribe, plan_not_found}
use setlyst_api.Access.Role.{Role, is_staff}
use setlyst_api.Billing.Subscription.{Subscription, SubscriptionStatus, SubscriptionSource}

pub data EventKind : Type 0 where
  plan_granted extended trial_started trial_extended : EventKind
  subscribed plan_changed payment_failed payment_recovered cancel_scheduled resumed renewed
        updated :
      EventKind
  canceled withdrawn refunded disputed : EventKind
  grant_restored revoked duplicate_canceled : EventKind

-- A complimentary plan that a purchase replaced (its source is `admin`).
pub record Replaced : Type 0 where
  pub plan_code : String
  pub current_period_end : Option Timestamp

pub data EventData : Type 0 where
  granted : (days : Option ℕ) → (source : SubscriptionSource) → (note : Option String) → EventData
  of_days : (days : ℕ) → EventData
  paid :
      (external_ref : String)
      → (interval : Option String) → (provider_status : String) → (replaced : Option Replaced)
      → EventData
  ended : (external_ref : String) → EventData
  restored : (after : String) → EventData
  kept : (external_ref kept : String) → (refunded_cents : ℤ) → EventData
  no_data : EventData

pub record Event : Type 0 where
  pub kind : EventKind
  pub from_plan : Option String
  pub to_plan : Option String
  pub from_status : Option SubscriptionStatus
  pub to_status : Option SubscriptionStatus
  pub details : EventData
  pub actor_id : Option ℕ

-- An entry of `credit_ledger`.
pub record CreditEntry : Type 0 where
  pub amount : ℤ
  pub reason : String

pub record Account : Type 0 where
  pub role : Role
  pub plans : List String
  pub subscription : Option Subscription
  pub events : List Event
  pub ledger : List CreditEntry

unfoldable pub ensure_not_staff : Tx Account (Unit {0})
unfolding is_staff
ensure_not_staff a = fail_if (is_staff a.role) staff_cannot_subscribe a

abbrev pub plan_exists : String → List String → Bool
plan_exists code = any (λ c. c == code)

unfoldable pub ensure_plan_exists : String → Tx Account (Unit {0})
ensure_plan_exists code a = fail_if (not (plan_exists code a.plans)) plan_not_found a

abbrev pub lock_subscription : Tx Account (Option Subscription)
lock_subscription = gets (λ a. a.subscription)

abbrev pub save : Subscription → Tx Account (Unit {0})
save s = modify (λ a. record a { subscription = some s })

unfoldable pub record_event :
    EventKind
    → Option Subscription
    → Option String
    → Option SubscriptionStatus
    → EventData
    → Option ℕ
    → Tx Account (Unit {0})
record_event kind from to_plan to_status details actor_id =
    modify (λ a. record a { events = event ∷ a.events })
  where
    event : Event
    event = record {
      kind = kind;
      from_plan = map_option (λ s. s.plan_code) from;
      to_plan = to_plan;
      from_status = map_option (λ s. s.status) from;
      to_status = to_status;
      details = details;
      actor_id = actor_id;
    }
