-- ===== src/Billing/Payment/Settled.antt =====
-- A snapshot that was applied is settled: it has nothing more to change.
use setlyst_api.Prelude.{
  ap, sym, ◌∙◌, ◌≡◌, refl, ◌⊎◌, inl, inr, String, true, false, Option, none, some, arith, Timestamp,
  option_eq, text_eq, nat_eq, Bool-cases, Option-cases, is_some_and, ap, Bool, not, ◌&&◌,
}
use setlyst_api.ApiError.{ok, ok-state}
use setlyst_api.Billing.Subscription.{Subscription, SubscriptionStatus, is_live, is_payment}
use setlyst_api.Billing.Account.{Account, EventKind, Replaced, subscribed, plan_exists}
use setlyst_api.Billing.Payment.{
  PaymentSnapshot, PaymentChange, Applied, changed, unchanged, mirrors, change_kind, mirrored_row,
  apply_change, apply_kind, apply_other, apply_current, apply_payment_subscription, is_canceled,
  standing_ref, restored_row, live_change, Bool, not, is_payment,
}
use setlyst_api.Billing.Payment.Laws.{
  apply_change_cases, change_kind-mirrored_row, change_kind_dead, mirrors-mirrored_row,
}

-- The snapshot has been taken in: what is left mirrors it and agrees with it, or mirrors nothing
-- and the subscription is over.
abbrev pub IsSettled : PaymentSnapshot → SubscriptionStatus → Subscription → Type 0
IsSettled p status t =
    ((mirrors p.external_ref t ≡ true) × ((now : Timestamp) → change_kind t p status now ≡ none))
    ⊎ ((mirrors p.external_ref t ≡ false) × (is_live status ≡ false))

mirrored_row-IsSettled :
    (current : Option Subscription) (p : PaymentSnapshot) (status : SubscriptionStatus)
    (now : Timestamp)
    → IsSettled p status (mirrored_row current p status now)
mirrored_row-IsSettled current p status now = elim (Bool-cases (is_live status)) [
  | inl live ↦ inl (
    mirrors-mirrored_row current p status now,
    λ later. change_kind-mirrored_row current p status now later live,
  )
  | inr over ↦ inl (
    mirrors-mirrored_row current p status now,
    λ later. change_kind_dead (mirrored_row current p status now) p status later over over,
  )
]

restored-mirrors :
    (s : Subscription) (r : Replaced) (now : Timestamp) (reference : String)
    → mirrors reference (restored_row s r now) ≡ false
unfolding mirrors
restored-mirrors s r now reference = refl

-- A settled snapshot changes nothing.
pub apply_current_settled :
    (t : Subscription) (p : PaymentSnapshot) (status : SubscriptionStatus) (now : Timestamp)
    (b : Account)
    → IsSettled p status t
    → apply_current (some t) p status now b ≡ ok (unchanged, b)
unfolding apply_current apply_other
apply_current_settled t p status now b (inl (same, settled)) = rw (same, settled now) refl
apply_current_settled t p status now b (inr (other, over)) = rw (other, over) refl

-- The row is no paid subscription that runs.
abbrev pub is_vacant : Subscription → Bool
is_vacant c = not (is_payment c.source && is_live c.status)

-- What a change leaves: a settled row, the mirror itself while the subscription is live.
pub record IsTaken (current : Option Subscription) (p : PaymentSnapshot)
    (status : SubscriptionStatus) (now : Timestamp) (a b : Account) : Type 0 where
  pub row : Subscription
  pub at : b.subscription ≡ some row
  pub plans : b.plans ≡ a.plans
  pub settled : IsSettled p status row
  pub mirror : is_live status ≡ true → row ≡ mirrored_row current p status now
  pub vacant : is_live status ≡ false → is_vacant row ≡ true

apply_change-IsTaken :
    (current : Option Subscription) (p : PaymentSnapshot) (status : SubscriptionStatus)
    (now : Timestamp) (kind : EventKind) (a b : Account) (x : Applied)
    → ((is_canceled kind ≡ true) → is_live status ≡ false)
    → apply_change current p status now kind a ≡ ok (x, b)
    → IsTaken current p status now a b
apply_change-IsTaken current p status now kind a b x ends h =
    elim (apply_change_cases current p status now kind a) [
      | inl e ↦ record {
        row = mirrored_row current p status now;
        at = ap (λ c. c.subscription) (ok-state h e);
        plans = ap (λ c. c.plans) (ok-state h e);
        settled = mirrored_row-IsSettled current p status now;
        mirror = λ live. refl;
        vacant = λ over. rw over refl;
      }
      | inr (r, over, found, e) ↦ record {
        row = restored_row (mirrored_row current p status now) r now;
        at = ap (λ c. c.subscription) (ok-state h e);
        plans = ap (λ c. c.plans) (ok-state h e);
        settled =
            inr (
              restored-mirrors (mirrored_row current p status now) r now p.external_ref,
              ends over,
            );
        mirror = λ live. absurd (ground (arith, ends over));
        vacant = λ over. refl;
      }
    ]

live_change-ne-canceled :
    (c : Subscription) (p : PaymentSnapshot) (status : SubscriptionStatus) (now : Timestamp)
    → is_some_and is_canceled (live_change c p status now) ≡ false
unfolding live_change
live_change-ne-canceled c p status now = ground arith

pub change_kind-canceled :
    (c : Subscription) (p : PaymentSnapshot) (status : SubscriptionStatus) (now : Timestamp)
    {kind : EventKind}
    → change_kind c p status now ≡ some kind
    → is_canceled kind ≡ true
    → is_live status ≡ false
unfolding change_kind
change_kind-canceled c p status now e over = ground (arith, live_change-ne-canceled c p status now)

apply_kind-IsTaken :
    (c : Subscription) (p : PaymentSnapshot) (status : SubscriptionStatus) (now : Timestamp)
    (a b : Account) {change : PaymentChange}
    → apply_kind (some c) p status now (change_kind c p status now) a ≡ ok (changed change, b)
    → IsTaken (some c) p status now a b
apply_kind-IsTaken c p status now a b {change} h =
    elim (Option-cases (change_kind c p status now)) [
      | inl same ↦ absurd (ground (arith, same))
      | inr (kind, e) ↦
          apply_change-IsTaken (some c) p status now kind a b (changed change)
            (change_kind-canceled c p status now e) (rw (e, apply_kind) at h)
    ]

apply_other-IsTaken :
    (current : Option Subscription) (p : PaymentSnapshot) (status : SubscriptionStatus)
    (now : Timestamp) (a b : Account) {change : PaymentChange}
    → apply_other current p status now a ≡ ok (changed change, b)
    → IsTaken current p status now a b
unfolding apply_other
apply_other-IsTaken current p status now a b {change} h = elim (Bool-cases (is_live status)) [
  | inr over ↦ absurd (ground arith)
  | inl live ↦ elim (Option-cases (standing_ref current now)) [
    | inr (r, e) ↦ absurd (ground arith)
    | inl free ↦
        apply_change-IsTaken current p status now subscribed a b (changed change) (λ e. cc)
          (ground (arith, h, live, free))
  ]
]

apply_current-IsTaken :
    (current : Option Subscription) (p : PaymentSnapshot) (status : SubscriptionStatus)
    (now : Timestamp) (a b : Account) {change : PaymentChange}
    → apply_current current p status now a ≡ ok (changed change, b)
    → IsTaken current p status now a b
unfolding apply_current
apply_current-IsTaken none p status now a b h = apply_other-IsTaken none p status now a b h
apply_current-IsTaken (some c) p status now a b h = elim (Bool-cases (mirrors p.external_ref c)) [
  | inl same ↦ apply_kind-IsTaken c p status now a b (rw same at h)
  | inr other ↦ apply_other-IsTaken (some c) p status now a b (rw other at h)
]

-- What stands before the decision on the row.
pub apply_payment_subscription_run :
    (p : PaymentSnapshot) (status : SubscriptionStatus) (now : Timestamp) (a : Account)
    → p.status ≡ some status
    → plan_exists p.plan_code a.plans ≡ true
    → apply_payment_subscription now p a ≡ apply_current a.subscription p status now a
unfolding apply_payment_subscription
apply_payment_subscription_run p status now a e exists = ground arith

changed_needs_plan :
    (p : PaymentSnapshot) (now : Timestamp) (a b : Account) {change : PaymentChange}
    → apply_payment_subscription now p a ≡ ok (changed change, b)
    → plan_exists p.plan_code a.plans ≡ true
unfolding apply_payment_subscription
changed_needs_plan p now a b h = elim (Bool-cases (plan_exists p.plan_code a.plans)) [
  | inl exists ↦ exists
  | inr missing ↦ absurd (ground (arith, missing))
]

pub apply_payment_subscription-IsTaken :
    (p : PaymentSnapshot) (status : SubscriptionStatus) (now : Timestamp) (a b : Account)
    {change : PaymentChange}
    → p.status ≡ some status
    → apply_payment_subscription now p a ≡ ok (changed change, b)
    → (plan_exists p.plan_code a.plans ≡ true) × IsTaken a.subscription p status now a b
apply_payment_subscription-IsTaken p status now a b e h =
    let exists = changed_needs_plan p now a b h in
    (
      exists,
      apply_current-IsTaken a.subscription p status now a b
          (sym (apply_payment_subscription_run p status now a e exists) ∙ h),
    )

-- A snapshot with no status in local terms changes nothing.
pub changed_needs_status :
    (p : PaymentSnapshot) (now : Timestamp) (a b : Account) {change : PaymentChange}
    → apply_payment_subscription now p a ≡ ok (changed change, b)
    → (status : SubscriptionStatus) × (p.status ≡ some status)
unfolding apply_payment_subscription
changed_needs_status p now a b h = elim (Option-cases p.status) [
  | inl nothing ↦ absurd (ground (arith, nothing))
  | inr found ↦ found
]
