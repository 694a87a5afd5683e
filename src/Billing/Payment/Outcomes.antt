-- ===== src/Billing/Payment/Outcomes.antt =====
-- Where a second paid subscription finds room: once the account's row is no paid subscription that
-- runs, the next live snapshot is taken in.
use setlyst_api.Billing.Payment.Laws.{apply_change_cases}
use setlyst_api.Billing.Payment.Settled.{is_vacant}
use setlyst_api.Billing.Payment.{unchanged, changed, duplicate}
use setlyst_api.Prelude.{
  refl, ap, inl, inr, text_eq, option_eq, nat_eq, ◌≡◌, Timestamp, some, String, true, Option, ℕ,
  Bool-cases, inl, ◌∙◌, false, arith, ◌==◌, ◌≢◌, Option-cases, ==-refl,
}
use setlyst_api.Billing.Payment.{
  PaymentSnapshot, apply_current, apply_other, change_kind, standing_ref, mirrors, PaymentChange,
  end_paid_subscription, apply_payment_subscription, apply_change, changed, ended_row, restored_row,
  Applied, duplicate,
}
use setlyst_api.Billing.Subscription.{is_live}
use setlyst_api.Billing.Subscription.{
  SubscriptionStatus, Subscription, is_paid_and_effective, is_effective, subscription_in_effect,
  is_payment,
}
use setlyst_api.Billing.Account.{Account, EventKind, plan_exists, subscribed}
use setlyst_api.Billing.Payment.Settled.{is_vacant, apply_payment_subscription_run}
use setlyst_api.ApiError.{ok, ok-value}
use setlyst_api.Billing.Payment.Ending.{end_cases, is_charging}

apply_current_vacant :
    (c : Subscription) (p : PaymentSnapshot) (status : SubscriptionStatus) (now : Timestamp)
    (a : Account)
    → is_live status ≡ true
    → is_vacant c ≡ true
    → apply_current (some c) p status now a ≡ apply_change (some c) p status now subscribed a
unfolding apply_current apply_other change_kind standing_ref mirrors is_paid_and_effective
    is_effective subscription_in_effect
apply_current_vacant c p status now a live free = elim (Bool-cases (is_payment c.source)) [
  | inr other ↦ rw (other, live) refl
  | inl paid ↦
      let over : is_live c.status ≡ false = ground (arith, paid, free) in
      elim (Bool-cases (c.external_ref == some p.external_ref)) [
        | inl same ↦ rw (paid, same, over, live) refl
        | inr other ↦ rw (paid, other, over, live) refl
      ]
]

-- A live snapshot is taken in by an account whose row is not a paid subscription that runs.
pub apply_vacant :
    (p : PaymentSnapshot) (status : SubscriptionStatus) (now : Timestamp) (a : Account)
    (c : Subscription)
    → p.status ≡ some status
    → is_live status ≡ true
    → plan_exists p.plan_code a.plans ≡ true
    → a.subscription ≡ some c
    → is_vacant c ≡ true
    → (outcome : PaymentChange) × (b : Account) × (apply_payment_subscription now p a
        ≡ ok (changed outcome, b))
apply_vacant p status now a c e live exists at free =
    let runs = apply_payment_subscription_run p status now a e exists in
    elim (apply_change_cases (some c) p status now subscribed a) [
      | inl done ↦ (
        _,
        _,
        runs
            ∙ ap (λ o. apply_current o p status now a) at
            ∙ apply_current_vacant c p status now a live free
            ∙ done,
      )
      | inr (r, over, found, e) ↦ absurd (ground arith)
    ]

-- Ending the paid subscription in effect leaves a row that is none.
pub end_paid_subscription_vacates :
    (a : Account) (c : Subscription) (now : Timestamp) (reference : String) (kind : EventKind)
    (actor_id : Option ℕ)
    → a.subscription ≡ some c
    → mirrors reference c ≡ true
    → is_live c.status ≡ true
    → (b : Account) × (outcome : Option PaymentChange) × (t : Subscription) × (end_paid_subscription
          now reference kind actor_id a
        ≡ ok (outcome, b))
      × (b.subscription ≡ some t)
      × (is_vacant t ≡ true)
      × (b.plans ≡ a.plans)
unfolding is_live
end_paid_subscription_vacates a c now reference kind actor_id at same live =
    elim (end_cases a c now reference kind actor_id at same live) [
      | inl e ↦ (_, _, ended_row c now actor_id, e, refl, ground arith, refl)
      | inr (r, found, e) ↦
          (_, _, restored_row (ended_row c now actor_id) r now, e, refl, refl, refl)
    ]

pub apply_change-changed :
    (current : Option Subscription) (p : PaymentSnapshot) (status : SubscriptionStatus)
    (now : Timestamp) (kind : EventKind) (a b : Account) (x : Applied)
    → apply_change current p status now kind a ≡ ok (x, b)
    → (outcome : PaymentChange) × (x ≡ changed outcome)
apply_change-changed current p status now kind a b x h =
    elim (apply_change_cases current p status now kind a) [
      | inl e ↦ (_, ok-value h e)
      | inr (r, over, found, e) ↦ (_, ok-value h e)
    ]

-- What a live snapshot of `reference` leaves: a row that is charged for it, or another one that is.
abbrev pub IsSeen : String → Applied → Account → Type 0
IsSeen reference (changed _) b = is_charging reference b.subscription ≡ true
IsSeen reference unchanged b = is_charging reference b.subscription ≡ true
IsSeen reference (duplicate current) b =
    (c : Subscription) × (b.subscription ≡ some c)
    × (mirrors current c ≡ true)
    × (is_live c.status ≡ true)

pub standing_ref-mirrors :
    (c : Subscription) (now : Timestamp) (reference : String)
    → standing_ref (some c) now ≡ some reference
    → (mirrors reference c ≡ true) × (is_live c.status ≡ true)
unfolding standing_ref is_paid_and_effective is_effective subscription_in_effect mirrors
standing_ref-mirrors c now reference h = elim (Bool-cases (is_payment c.source)) [
  | inr other ↦ absurd (ground (arith, other, h))
  | inl paid ↦ elim (Bool-cases (is_live c.status)) [
    | inr over ↦ absurd (ground (arith, paid, over, h))
    | inl live ↦ elim (Bool-cases (is_effective c now)) [
      | inr lapsed ↦ absurd (ground (arith, paid, lapsed, h))
      | inl effective ↦
          let same : c.external_ref ≡ some reference = ground (arith, paid, effective, h) in
          (rw (paid, same) (==-refl (some reference)), live)
    ]
  ]
]

pub apply_other_changes :
    (current : Option Subscription) (p : PaymentSnapshot) (status : SubscriptionStatus)
    (now : Timestamp) (a b : Account)
    → is_live status ≡ true
    → apply_other current p status now a ≢ ok (unchanged, b)
unfolding apply_other
apply_other_changes current p status now a b live h =
    elim (Option-cases (standing_ref current now)) [
      | inl free ↦
          let (outcome, e) =
            apply_change-changed current p status now subscribed a b unchanged
              (ground (arith, h, live, free)) in
          ground arith
      | inr (reference, busy) ↦ ground (arith, busy, live)
    ]

pub apply_other_duplicate :
    (current : Option Subscription) (p : PaymentSnapshot) (status : SubscriptionStatus)
    (now : Timestamp) (a b : Account) (reference : String)
    → is_live status ≡ true
    → apply_other current p status now a ≡ ok (duplicate reference, b)
    → (a ≡ b) × (standing_ref current now ≡ some reference)
unfolding apply_other
apply_other_duplicate current p status now a b reference live h =
    elim (Option-cases (standing_ref current now)) [
      | inl free ↦
          let (outcome, e) =
            apply_change-changed current p status now subscribed a b (duplicate reference)
              (ground (arith, h, live, free)) in
          absurd (ground arith)
      | inr (other, busy) ↦ (ground (arith, busy, live), ground (arith, busy, live))
    ]

-- A live snapshot that changes nothing is already the account's, and one that is a duplicate stands
-- against a row that is paid and runs.
pub current-IsSeen :
    (c : Subscription) (p : PaymentSnapshot) (status : SubscriptionStatus) (now : Timestamp)
    (a b : Account)
    → is_live status ≡ true
    → apply_current (some c) p status now a ≡ ok (unchanged, b)
    → (a ≡ b) × (mirrors p.external_ref c ≡ true) × (is_live c.status ≡ true)
unfolding apply_current change_kind
current-IsSeen c p status now a b live h = elim (Bool-cases (mirrors p.external_ref c)) [
  | inr other ↦ absurd (apply_other_changes (some c) p status now a b live (rw other at h))
  | inl same ↦ elim (Option-cases (change_kind c p status now)) [
    | inl nothing ↦ elim (Bool-cases (is_live c.status)) [
      | inl runs ↦ (ground (arith, same, nothing, h), same, runs)
      | inr over ↦ absurd (ground (arith, over, live, nothing))
    ]
    | inr (kind, e) ↦
        let (outcome, f) =
          apply_change-changed (some c) p status now kind a b unchanged
            (ground (arith, same, e, h)) in
        absurd (ground (arith, f))
  ]
]

pub current-duplicate :
    (c : Subscription) (p : PaymentSnapshot) (status : SubscriptionStatus) (now : Timestamp)
    (a b : Account) (reference : String)
    → is_live status ≡ true
    → apply_current (some c) p status now a ≡ ok (duplicate reference, b)
    → (a ≡ b) × (standing_ref (some c) now ≡ some reference)
unfolding apply_current
current-duplicate c p status now a b reference live h =
    elim (Bool-cases (mirrors p.external_ref c)) [
      | inr other ↦ apply_other_duplicate (some c) p status now a b reference live (rw other at h)
      | inl same ↦ elim (Option-cases (change_kind c p status now)) [
        | inl nothing ↦ absurd (ground (arith, same, nothing, h))
        | inr (kind, e) ↦
            let (outcome, f) =
              apply_change-changed (some c) p status now kind a b (duplicate reference)
                (ground (arith, same, e, h)) in
            absurd (ground (arith, f))
      ]
    ]
