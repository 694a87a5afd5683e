-- ===== src/Billing/Grants.antt =====
-- src/services/billing.rs: plan time that is granted (by staff, a promo code, credits) and trials.
-- `now` is the clock's reading; grants of a negative number of days are refused by the payloads'
-- validation, so `days` is a natural number.
pub mod Laws
use setlyst_api.Prelude.{
  ℕ, ◌+◌, max, String, Bool, true, false, ◌&&◌, not, Option, none, some, ◌==◌, text_eq,
  if◌then◌else◌, is_some_and, map_option, unwrap_or, Timestamp, days,
}
use setlyst_api.ApiError.{
  Tx, ◌>>=◌, ◌>>◌, pure, fail, fail_if, Result, ok, err, paid_subscription_active,
  promo_code_not_eligible,
}
use setlyst_api.Billing.Subscription.{
  Subscription, SubscriptionStatus, trialing, active, is_trialing, SubscriptionSource, trial,
  is_effective, is_paid_and_effective,
}
use setlyst_api.Billing.Account.{
  Account, EventKind, plan_granted, extended, trial_started, trial_extended, granted, of_days,
  ensure_not_staff, ensure_plan_exists, lock_subscription, save, record_event,
}

pub record GrantOutcome : Type 0 where
  pub kind : EventKind
  pub plan_code : String
  pub status : SubscriptionStatus
  pub current_period_end : Option Timestamp

-- The plan is the one already in effect.
unfoldable pub is_same_plan : Option Subscription → String → Timestamp → Bool
unfolding is_effective
is_same_plan current plan now = is_some_and (λ s. is_effective s now && s.plan_code == plan) current

-- The end of the period after `days` (`none` is open-ended).
abbrev pub extended_end : Option ℕ → Option Timestamp → Timestamp → Option Timestamp
extended_end none end now = none
extended_end (some n) none now = none
extended_end (some n) (some end) now = some (max end now + days n)

abbrev pub or_else {ℓ} : {A : Type ℓ} → Option A → Option A → Option A
or_else (some a) b = some a
or_else none b = b

-- The UPDATE of a subscription whose plan is already in effect.
abbrev pub extended_row :
    Subscription
    → Option Timestamp
    → SubscriptionSource
    → Option String
    → Timestamp
    → Option ℕ
    → Subscription
extended_row s end source note now actor_id = record s {
  current_period_end = end;
  status = active;
  source = source;
  trial_ends_at = if is_trialing s.status then none else s.trial_ends_at;
  note = or_else note s.note;
  updated_at = now;
  updated_by = actor_id;
}

-- The columns that an INSERT leaves out (on conflict, the stored ones are kept).
abbrev pub blank : String → SubscriptionStatus → SubscriptionSource → Timestamp → Subscription
blank plan status source now = record {
  plan_code = plan;
  status = status;
  source = source;
  started_at = now;
  current_period_end = none;
  trial_ends_at = none;
  cancel_at_period_end = false;
  canceled_at = none;
  external_ref = none;
  provider_status = none;
  billing_interval = none;
  unit_amount_cents = none;
  currency = none;
  past_due_since = none;
  terms_version = none;
  terms_accepted_at = none;
  note = none;
  trial_reminder_sent_at = none;
  paid_trial_reminder_sent_at = none;
  renewal_reminder_period_end = none;
  created_at = now;
  updated_at = now;
  updated_by = none;
}

-- The INSERT ... ON CONFLICT of a plan that starts now.
abbrev pub granted_row :
    Subscription
    → String
    → Option Timestamp
    → SubscriptionSource
    → Option String
    → Timestamp
    → Option ℕ
    → Subscription
granted_row s plan end source note now actor_id = record s {
  plan_code = plan;
  status = active;
  source = source;
  started_at = now;
  current_period_end = end;
  trial_ends_at = none;
  cancel_at_period_end = false;
  canceled_at = none;
  provider_status = none;
  unit_amount_cents = none;
  currency = none;
  past_due_since = none;
  terms_version = none;
  terms_accepted_at = none;
  note = note;
  trial_reminder_sent_at = none;
  paid_trial_reminder_sent_at = none;
  renewal_reminder_period_end = none;
  updated_at = now;
  updated_by = actor_id;
}

-- The rest of `grant_plan_time`, once nothing stands against the grant.
unfoldable pub apply_grant :
    Option Subscription
    → Timestamp
    → String
    → Option ℕ
    → SubscriptionSource
    → Option ℕ
    → Option String
    → Tx Account GrantOutcome
unfolding record_event
apply_grant none now plan n source actor_id note =
    let end = map_option (λ d. now + days d) n in
    do
      save (granted_row (blank plan active source now) plan end source note now actor_id)
      record_event plan_granted none (some plan) (some active) (granted n source note) actor_id
      pure (record {
        kind = plan_granted;
        plan_code = plan;
        status = active;
        current_period_end = end;
      })
apply_grant (some s) now plan n source actor_id note =
    let same_plan = is_same_plan (some s) plan now in
    let kind = if same_plan then extended else plan_granted in
    let end =
      if same_plan
      then extended_end n s.current_period_end now
      else map_option (λ d. now + days d) n in
    let row =
      if same_plan
      then extended_row s end source note now actor_id
      else granted_row s plan end source note now actor_id in
    do
      save row
      record_event kind (some s) (some plan) (some active) (granted n source note) actor_id
      pure (record { kind = kind; plan_code = plan; status = active; current_period_end = end })

unfoldable pub grant_plan_time :
    Timestamp
    → String
    → Option ℕ
    → SubscriptionSource
    → Option ℕ
    → Option String
    → Tx Account GrantOutcome
unfolding ensure_not_staff ensure_plan_exists
grant_plan_time now plan n source actor_id note = do
  ensure_not_staff
  ensure_plan_exists plan
  current ← lock_subscription
  fail_if (is_some_and (λ s. is_paid_and_effective s now) current) paid_subscription_active
  apply_grant current now plan n source actor_id note

abbrev pub trial_row : Subscription → String → Timestamp → Timestamp → Option ℕ → Subscription
trial_row s plan ends_at now actor_id = record s {
  plan_code = plan;
  status = trialing;
  source = trial;
  started_at = now;
  current_period_end = some ends_at;
  trial_ends_at = some ends_at;
  cancel_at_period_end = false;
  canceled_at = none;
  provider_status = none;
  unit_amount_cents = none;
  currency = none;
  past_due_since = none;
  terms_version = none;
  terms_accepted_at = none;
  trial_reminder_sent_at = none;
  paid_trial_reminder_sent_at = none;
  renewal_reminder_period_end = none;
  updated_at = now;
  updated_by = actor_id;
}

-- The INSERT ... ON CONFLICT of `start_trial`, its event and its outcome.
unfoldable pub open_trial :
    Option Subscription → Timestamp → String → ℕ → Option ℕ → Tx Account (Option GrantOutcome)
unfolding record_event
open_trial current now plan n actor_id =
    let ends_at = now + days n in
    do
      save (trial_row (unwrap_or current (blank plan trialing trial now)) plan ends_at now actor_id)
      record_event trial_started current (some plan) (some trialing) (of_days n) actor_id
      pure (
          some (record {
            kind = trial_started;
            plan_code = plan;
            status = trialing;
            current_period_end = some ends_at;
          }))

abbrev if_staff : {A : Type 0} → Tx Account A → Tx Account A → Tx Account A
if_staff staff other a = elim (ensure_not_staff a) [ err _ ↦ staff a | ok _ ↦ other a ]

unfoldable pub start_trial : Timestamp → String → ℕ → Option ℕ → Tx Account (Option GrantOutcome)
unfolding ensure_not_staff ensure_plan_exists
start_trial now plan n actor_id = if_staff (pure none) do
  ensure_plan_exists plan
  current ← lock_subscription
  if is_some_and (λ s. is_effective s now) current
      then pure none
      else open_trial current now plan n actor_id

unfoldable pub extend_running : Subscription → Timestamp → ℕ → Tx Account GrantOutcome
unfolding record_event
extend_running s now n =
    let base = max (unwrap_or (or_else s.trial_ends_at s.current_period_end) now) now in
    let ends_at = base + days n in
    do
      save (record s {
        trial_ends_at = some ends_at;
        current_period_end = some ends_at;
        updated_at = now;
        trial_reminder_sent_at = none;
      })
      record_event trial_extended (some s) (some s.plan_code) (some trialing) (of_days n) none
      pure (record {
        kind = trial_extended;
        plan_code = s.plan_code;
        status = trialing;
        current_period_end = some ends_at;
      })

abbrev pub or_not_eligible : Option GrantOutcome → Tx Account GrantOutcome
or_not_eligible none = fail promo_code_not_eligible
or_not_eligible (some g) = pure g

-- `settings.trial_plan` is the argument `trial_plan`.
abbrev pub start_or_refuse : Timestamp → ℕ → String → Tx Account GrantOutcome
start_or_refuse now n trial_plan = do or_not_eligible (← start_trial now trial_plan n none)

-- The `match` of `extend_trial` on the locked row.
unfoldable pub extend_current :
    Timestamp → ℕ → String → Option Subscription → Tx Account GrantOutcome
extend_current now n trial_plan none = start_or_refuse now n trial_plan
extend_current now n trial_plan (some s) =
    if is_paid_and_effective s now
    then fail paid_subscription_active
    else if is_effective s now && is_trialing s.status
    then extend_running s now n
    else if is_effective s now
    then fail promo_code_not_eligible
    else start_or_refuse now n trial_plan

-- `settings.trial_plan` is the argument `trial_plan`.
unfoldable pub extend_trial : Timestamp → ℕ → String → Tx Account GrantOutcome
extend_trial now n trial_plan = do extend_current now n trial_plan (← lock_subscription)
