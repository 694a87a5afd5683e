-- ===== src/Billing/Payment/Kept.antt =====
-- A snapshot whose application is not a change leaves the account as it is; a live one is then the
-- account's already, or a duplicate.
use setlyst_api.Billing.Payment.{
  unchanged, changed, duplicate, Applied, PaymentSnapshot, apply_current,
  apply_payment_subscription, apply_other, ensure_plan_exists, Option, PaymentChange, Timestamp,
  SubscriptionStatus, Subscription, ok, some, true, mirrors, change_kind, standing_ref,
}
use setlyst_api.Prelude.{
  none, refl, ap, inl, inr, text_eq, option_eq, nat_eq, sym, ◌∙◌, Timestamp, Option, ◌≢◌, ◌≡◌, some,
  true, Bool-cases, Option-cases, arith,
}
use setlyst_api.Billing.Subscription.{is_live, SubscriptionStatus, Subscription}
use setlyst_api.Billing.Account.{ensure_plan_exists, Account, plan_exists, subscribed}
use setlyst_api.ApiError.{ok}
use setlyst_api.Billing.Payment.Outcomes.{
  IsSeen, apply_other_changes, current-IsSeen, apply_other_duplicate, apply_change-changed,
  current-duplicate, standing_ref-mirrors,
}
use setlyst_api.Billing.Payment.Settled.{
  apply_payment_subscription-IsTaken, apply_payment_subscription_run,
}
use setlyst_api.Billing.Payment.Laws.{mirrors-mirrored_row}

-- The application is not a change.
abbrev pub IsKept : Applied → Type 0
IsKept x = (outcome : PaymentChange) → x ≢ changed outcome

apply_other_kept :
    (current : Option Subscription) (p : PaymentSnapshot) (status : SubscriptionStatus)
    (now : Timestamp) (a b : Account) (x : Applied)
    → IsKept x
    → apply_other current p status now a ≡ ok (x, b)
    → a ≡ b
unfolding apply_other
apply_other_kept current p status now a b x kept h = elim (Bool-cases (is_live status)) [
  | inr over ↦ ground (arith, over, h)
  | inl live ↦ elim (Option-cases (standing_ref current now)) [
    | inr (reference, busy) ↦ ground (arith, live, busy, h)
    | inl free ↦
        let (outcome, e) =
          apply_change-changed current p status now subscribed a b x
            (ground (arith, live, free, h)) in
        absurd (kept outcome e)
  ]
]

apply_current_kept :
    (current : Option Subscription) (p : PaymentSnapshot) (status : SubscriptionStatus)
    (now : Timestamp) (a b : Account) (x : Applied)
    → IsKept x
    → apply_current current p status now a ≡ ok (x, b)
    → a ≡ b
unfolding apply_current
apply_current_kept none p status now a b x kept h = apply_other_kept none p status now a b x kept h
apply_current_kept (some c) p status now a b x kept h =
    elim (Bool-cases (mirrors p.external_ref c)) [
      | inr other ↦ apply_other_kept (some c) p status now a b x kept (rw other at h)
      | inl same ↦ elim (Option-cases (change_kind c p status now)) [
        | inl nothing ↦ ground (arith, same, nothing, h)
        | inr (kind, e) ↦
            let (outcome, f) =
              apply_change-changed (some c) p status now kind a b x (ground (arith, same, e, h)) in
            absurd (kept outcome f)
      ]
    ]

pub apply_needs_plan :
    (p : PaymentSnapshot) (status : SubscriptionStatus) (now : Timestamp) (a b : Account)
    (x : Applied)
    → p.status ≡ some status
    → apply_payment_subscription now p a ≡ ok (x, b)
    → plan_exists p.plan_code a.plans ≡ true
unfolding apply_payment_subscription ensure_plan_exists
apply_needs_plan p status now a b x e h = elim (Bool-cases (plan_exists p.plan_code a.plans)) [
  | inl exists ↦ exists
  | inr missing ↦ absurd (ground (arith, e, missing, h))
]

pub apply_payment_subscription_kept :
    (p : PaymentSnapshot) (now : Timestamp) (a b : Account) (x : Applied)
    → IsKept x
    → apply_payment_subscription now p a ≡ ok (x, b)
    → a ≡ b
unfolding apply_payment_subscription
apply_payment_subscription_kept p now a b x kept h = elim (Option-cases p.status) [
  | inl nothing ↦ ground (arith, nothing, h)
  | inr (status, e) ↦
      let exists = apply_needs_plan p status now a b x e h in
      apply_current_kept a.subscription p status now a b x kept
        (sym (apply_payment_subscription_run p status now a e exists) ∙ h)
]

-- The row that a row found is, if one is.
seen :
    (p : PaymentSnapshot) (status : SubscriptionStatus) (now : Timestamp) (a b : Account)
    (x : Applied) (current : Option Subscription)
    → is_live status ≡ true
    → a.subscription ≡ current
    → IsKept x
    → apply_current current p status now a ≡ ok (x, b)
    → IsSeen p.external_ref x b
unfolding apply_current standing_ref
seen p status now a b (changed outcome) current live at kept h = absurd (kept outcome refl)
seen p status now a b unchanged none live at kept h =
    absurd (apply_other_changes none p status now a b live h)
seen p status now a b unchanged (some c) live at kept h =
    let (same, found, runs) = current-IsSeen c p status now a b live h in
    rw (← same, at, found, runs) refl
seen p status now a b (duplicate reference) none live at kept h =
    let (_, busy) = apply_other_duplicate none p status now a b reference live h in
    absurd (ground (arith, busy))
seen p status now a b (duplicate reference) (some c) live at kept h =
    let (same, busy) = current-duplicate c p status now a b reference live h in
    let (found, runs) = standing_ref-mirrors c now reference busy in
    (c, ap (λ s. s.subscription) (sym same) ∙ at, found, runs)

kept-IsSeen :
    (p : PaymentSnapshot) (status : SubscriptionStatus) (now : Timestamp) (a b : Account)
    (x : Applied)
    → p.status ≡ some status
    → is_live status ≡ true
    → IsKept x
    → apply_payment_subscription now p a ≡ ok (x, b)
    → IsSeen p.external_ref x b × (plan_exists p.plan_code b.plans ≡ true)
kept-IsSeen p status now a b x e live kept h =
    let exists = apply_needs_plan p status now a b x e h in
    let same = apply_payment_subscription_kept p now a b x kept h in
    (
      seen p status now a b x a.subscription live refl kept
          (sym (apply_payment_subscription_run p status now a e exists) ∙ h),
      ap (λ c. plan_exists p.plan_code c.plans) (sym same) ∙ exists,
    )

-- A live snapshot that goes through is the account's afterwards, or a duplicate of what is.
pub apply_payment_subscription-IsSeen :
    (p : PaymentSnapshot) (status : SubscriptionStatus) (now : Timestamp) (a b : Account)
    (x : Applied)
    → p.status ≡ some status
    → is_live status ≡ true
    → apply_payment_subscription now p a ≡ ok (x, b)
    → IsSeen p.external_ref x b × (plan_exists p.plan_code b.plans ≡ true)
apply_payment_subscription-IsSeen p status now a b (changed outcome) e live h =
    let (exists, taken) = apply_payment_subscription-IsTaken p status now a b e h in
    let row = taken.at ∙ ap some (taken.mirror live) in
    (rw (row, mirrors-mirrored_row a.subscription p status now, live) refl, rw taken.plans exists)
apply_payment_subscription-IsSeen p status now a b unchanged e live h =
    kept-IsSeen p status now a b unchanged e live (λ outcome other. ground arith) h
apply_payment_subscription-IsSeen p status now a b (duplicate reference) e live h =
    kept-IsSeen p status now a b (duplicate reference) e live (λ outcome other. ground arith) h
