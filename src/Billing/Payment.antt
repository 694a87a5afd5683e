-- ===== src/Billing/Payment.antt =====
-- src/services/billing.rs: mirroring a paid subscription of the payment provider, ending it, and
-- bringing back the complimentary plan that a purchase replaced.
pub mod Laws
pub mod Settled
pub mod Mirror
pub mod Ending
pub mod Outcomes
pub mod Kept
pub mod PastDue
pub mod Journal
pub mod Returns
use setlyst_api.Prelude.{
  ℕ, ◌+◌, String, Bool, true, false, ◌&&◌, ◌||◌, not, Option, none, some, List, [], ◌∷◌, ◌==◌,
  text_eq, nat_eq, option_eq, if◌then◌else◌, is_some_and, is_none_or, map_option, bind_option,
  keep_if, unwrap_or, ltb, leb, find, Timestamp,
}
use setlyst_api.ApiError.{Tx, ◌>>=◌, ◌>>◌, pure, Result, ok, err}
use setlyst_api.Billing.Subscription.{
  Subscription, SubscriptionStatus, trialing, active, past_due, canceled, expired, is_live,
  is_active, is_past_due, SubscriptionSource, admin, payment, is_payment, is_admin, BillingInterval,
  key, is_effective, is_paid_and_effective,
}
use setlyst_api.Billing.Account.{
  Account, Event, EventKind, subscribed, plan_changed, payment_failed, payment_recovered,
  cancel_scheduled, resumed, renewed, updated, grant_restored, revoked, EventData, paid, ended,
  restored, no_data, Replaced, ensure_plan_exists, lock_subscription, save, record_event,
}
use setlyst_api.Billing.Grants.{blank}

unfoldable pub map_provider_status : String → Option SubscriptionStatus
map_provider_status status =
    if status == "active" || status == "trialing"
    then some active
    else if status == "past_due"
    then some past_due
    else if status == "canceled"
    then some canceled
    else if status == "unpaid" || status == "paused"
    then some expired
    else none

pub record PaymentSnapshot : Type 0 where
  pub external_ref : String
  pub plan_code : String
  pub interval : Option BillingInterval
  pub status : Option SubscriptionStatus
  pub provider_status : String
  pub current_period_end : Option Timestamp
  pub cancel_at_period_end : Bool
  pub ended_at : Option Timestamp
  pub trial_end : Option Timestamp
  pub unit_amount : Option ℕ
  pub currency : Option String

pub record PaymentChange : Type 0 where
  pub kind : EventKind
  pub plan_code : String
  pub status : SubscriptionStatus
  pub current_period_end : Option Timestamp

pub data Applied : Type 0 where
  changed : PaymentChange → Applied
  unchanged : Applied
  duplicate : (current_ref : String) → Applied

-- `PaymentChange::ended`.
unfoldable pub is_ended : PaymentChange → Bool
is_ended c = elim c.kind [
  | EventKind.canceled ↦ true
  | EventKind.withdrawn ↦ true
  | EventKind.refunded ↦ true
  | EventKind.disputed ↦ true
  | _ ↦ false
]

-- The row is the mirror of the provider's subscription `reference`.
unfoldable pub mirrors : String → Subscription → Bool
mirrors reference c = is_payment c.source && c.external_ref == some reference

-- Rust's order on `Option`: `None` is least.
abbrev pub is_later : Option Timestamp → Option Timestamp → Bool
is_later none b = false
is_later (some a) none = true
is_later (some a) (some b) = ltb b a

-- The values that `apply_payment_subscription` computes before it compares.
abbrev pub period_end_of : PaymentSnapshot → SubscriptionStatus → Timestamp → Option Timestamp
period_end_of p status now =
    if is_live status then p.current_period_end else some (unwrap_or p.ended_at now)

abbrev pub trial_end_of : PaymentSnapshot → Option Timestamp
trial_end_of p = keep_if (λ _. p.provider_status == "trialing") p.trial_end

abbrev pub interval_of : PaymentSnapshot → Option String
interval_of p = map_option key p.interval

abbrev pub past_due_since_of :
    Option Subscription → PaymentSnapshot → SubscriptionStatus → Timestamp → Option Timestamp
past_due_since_of current p status now =
    if is_past_due status
    then some (
        unwrap_or
          (bind_option (keep_if (λ c. mirrors p.external_ref c && is_past_due c.status) current)
            (λ c. c.past_due_since))
          now)
    else none

-- The snapshot has another plan or interval than the row.
unfoldable pub is_other_plan : Subscription → PaymentSnapshot → Bool
is_other_plan c p = not (c.plan_code == p.plan_code) || not (c.billing_interval == interval_of p)

-- A trial that started charging, a new price.
unfoldable pub is_updated : Subscription → PaymentSnapshot → Bool
is_updated c p =
    not (c.provider_status == some p.provider_status)
    || (not (c.unit_amount_cents == p.unit_amount) || not (c.trial_ends_at == trial_end_of p))

-- What a live snapshot changes in the live row that mirrors it already.
unfoldable pub live_change :
    Subscription → PaymentSnapshot → SubscriptionStatus → Timestamp → Option EventKind
live_change c p status now =
    if is_other_plan c p
    then some plan_changed
    else if is_active c.status && is_past_due status
    then some payment_failed
    else if is_past_due c.status && is_active status
    then some payment_recovered
    else if not c.cancel_at_period_end && p.cancel_at_period_end
    then some cancel_scheduled
    else if c.cancel_at_period_end && not p.cancel_at_period_end
    then some resumed
    else if is_later (period_end_of p status now) c.current_period_end
    then some renewed
    else if is_updated c p
    then some updated
    else none

unfoldable pub change_kind :
    Subscription → PaymentSnapshot → SubscriptionStatus → Timestamp → Option EventKind
change_kind c p status now =
    let was_live = is_live c.status in
    let live = is_live status in
    if not was_live && not live
    then none
    else if was_live && not live
    then some EventKind.canceled
    else if not was_live && live
    then some subscribed
    else live_change c p status now

-- The INSERT ... ON CONFLICT of the mirror.
abbrev pub mirrored_row :
    Option Subscription → PaymentSnapshot → SubscriptionStatus → Timestamp → Subscription
mirrored_row current p status now =
    let s = unwrap_or current (blank p.plan_code status payment now) in
    let other = not (s.external_ref == some p.external_ref) || not (is_payment s.source) in
    record s {
      plan_code = p.plan_code;
      status = status;
      source = payment;
      started_at = if other then now else s.started_at;
      paid_trial_reminder_sent_at = if other then none else s.paid_trial_reminder_sent_at;
      renewal_reminder_period_end = if other then none else s.renewal_reminder_period_end;
      terms_version = if other then none else s.terms_version;
      terms_accepted_at = if other then none else s.terms_accepted_at;
      current_period_end = period_end_of p status now;
      trial_ends_at = trial_end_of p;
      cancel_at_period_end = p.cancel_at_period_end;
      canceled_at = if is_live status then none else some now;
      external_ref = some p.external_ref;
      billing_interval = interval_of p;
      note = none;
      updated_at = now;
      updated_by = none;
      trial_reminder_sent_at = none;
      past_due_since = past_due_since_of current p status now;
      provider_status = some p.provider_status;
      unit_amount_cents = p.unit_amount;
      currency = p.currency;
    }

abbrev pub is_subscribed : EventKind → Bool
is_subscribed subscribed = true
is_subscribed _ = false

abbrev pub is_canceled : EventKind → Bool
is_canceled EventKind.canceled = true
is_canceled _ = false

-- The complimentary plan in effect that a purchase replaces.
unfoldable pub replaced_of :
    Option Subscription → PaymentSnapshot → EventKind → Timestamp → Option Replaced
replaced_of none p kind now = none
replaced_of (some c) p kind now =
    if is_subscribed kind
      && (not (mirrors p.external_ref c) && (is_admin c.source && is_effective c now))
    then some (record { plan_code = c.plan_code; current_period_end = c.current_period_end })
    else none

-- The newest purchase of `reference` that says what it replaced.
abbrev replaced_by : String → Event → Option Replaced
replaced_by reference e = elim e.details [
  | paid r interval provider_status replaced ↦
      if is_subscribed e.kind && r == reference then replaced else none
  | _ ↦ none
]

unfoldable pub find_replaced : String → List Event → Option Replaced
find_replaced reference [] = none
find_replaced reference (e ∷ es) =
    let rest = find_replaced reference es in
    elim (replaced_by reference e) [ none ↦ rest | some r ↦ some r ]

abbrev pub restored_row : Subscription → Replaced → Timestamp → Subscription
restored_row s r now = record s {
  plan_code = r.plan_code;
  status = active;
  source = admin;
  current_period_end = r.current_period_end;
  started_at = now;
  canceled_at = none;
  cancel_at_period_end = false;
  external_ref = none;
  billing_interval = none;
  past_due_since = none;
  provider_status = none;
  unit_amount_cents = none;
  currency = none;
  trial_ends_at = none;
  updated_at = now;
}

abbrev pub put_back : String → Timestamp → Subscription → Replaced → Tx Account Bool
put_back reference now s r =
    if is_some_and (λ end. leb end now) r.current_period_end then pure false else do
      save (restored_row s r now)
      record_event grant_restored none (some r.plan_code) (some active) (restored reference) none
      pure true

-- The UPDATE touches no row where the account has no subscription, but its callers have just
-- written one.
unfoldable pub restore_complimentary_grant : Timestamp → String → Tx Account Bool
unfolding record_event
restore_complimentary_grant now reference a = elim (find_replaced reference a.events) [
  | none ↦ pure false a
  | some r ↦ elim a.subscription [ none ↦ pure false a | some s ↦ put_back reference now s r a ]
]

abbrev pub restore_if : Bool → Timestamp → String → Tx Account (Unit {0})
restore_if true now reference = restore_complimentary_grant now reference >> pure tt
restore_if false now reference = pure tt

-- The rest of `apply_payment_subscription`, once the kind of the change is known.
unfoldable pub apply_change :
    Option Subscription
    → PaymentSnapshot
    → SubscriptionStatus
    → Timestamp
    → EventKind
    → Tx Account Applied
unfolding record_event
apply_change current p status now kind =
    let details =
      paid p.external_ref (interval_of p) p.provider_status (replaced_of current p kind now) in
    do
      save (mirrored_row current p status now)
      record_event kind current (some p.plan_code) (some status) details none
      restore_if (is_canceled kind) now p.external_ref
      pure (
          changed (record {
            kind = kind;
            plan_code = p.plan_code;
            status = status;
            current_period_end = period_end_of p status now;
          }))

-- The paid subscription in effect that stands in the way of another one.
unfoldable pub standing_ref : Option Subscription → Timestamp → Option String
standing_ref current now =
    bind_option (keep_if (λ c. is_paid_and_effective c now) current) (λ c. c.external_ref)

abbrev pub apply_kind :
    Option Subscription
    → PaymentSnapshot
    → SubscriptionStatus
    → Timestamp
    → Option EventKind
    → Tx Account Applied
apply_kind current p status now none = pure unchanged
apply_kind current p status now (some kind) = apply_change current p status now kind

-- A snapshot of another subscription than the account's current one.
unfoldable pub apply_other :
    Option Subscription → PaymentSnapshot → SubscriptionStatus → Timestamp → Tx Account Applied
apply_other current p status now =
    if not (is_live status) then pure unchanged else elim (standing_ref current now) [
      | some current_ref ↦ pure (duplicate current_ref)
      | none ↦ apply_change current p status now subscribed
    ]

unfoldable pub apply_current :
    Option Subscription → PaymentSnapshot → SubscriptionStatus → Timestamp → Tx Account Applied
apply_current none p status now = apply_other none p status now
apply_current (some c) p status now =
    if mirrors p.external_ref c
    then apply_kind (some c) p status now (change_kind c p status now)
    else apply_other (some c) p status now

abbrev pub apply_status :
    PaymentSnapshot → Timestamp → Option SubscriptionStatus → Tx Account Applied
apply_status p now none = pure unchanged
apply_status p now (some status) = do
  ensure_plan_exists p.plan_code
  apply_current (← lock_subscription) p status now

unfoldable pub apply_payment_subscription : Timestamp → PaymentSnapshot → Tx Account Applied
unfolding ensure_plan_exists
apply_payment_subscription now p = apply_status p now p.status

abbrev pub ended_row : Subscription → Timestamp → Option ℕ → Subscription
ended_row s now actor_id = record s {
  status = canceled;
  current_period_end = some now;
  canceled_at = some now;
  cancel_at_period_end = false;
  past_due_since = none;
  provider_status = some "canceled";
  updated_at = now;
  updated_by = actor_id;
}

abbrev pub end_row :
    Timestamp → String → EventKind → Option ℕ → Subscription → Tx Account (Option PaymentChange)
end_row now reference kind actor_id c = do
  save (ended_row c now actor_id)
  record_event kind (some c) (some c.plan_code) (some canceled) (ended reference) actor_id
  restore_complimentary_grant now reference
  pure (
      some (record {
        kind = kind;
        plan_code = c.plan_code;
        status = canceled;
        current_period_end = some now;
      }))

abbrev pub end_current :
    Timestamp
    → String
    → EventKind
    → Option ℕ
    → Option Subscription
    → Tx Account (Option PaymentChange)
end_current now reference kind actor_id none = pure none
end_current now reference kind actor_id (some c) =
    if mirrors reference c && is_live c.status
    then end_row now reference kind actor_id c
    else pure none

unfoldable pub end_paid_subscription :
    Timestamp → String → EventKind → Option ℕ → Tx Account (Option PaymentChange)
unfolding record_event
end_paid_subscription now reference kind actor_id = do
  end_current now reference kind actor_id (← lock_subscription)
