-- ===== src/Billing/Payment/Journal.antt =====
-- The purchase of a paid subscription that replaced a complimentary plan, through the changes of the
-- subscription until it ends.
use mathlib.Core.Path.{subst, ap, sym}
use setlyst_api.Prelude.{
  text_eq, nat_eq, option_eq, ◌∙◌, ℕ, ◌≡◌, refl, inl, inr, String, true, Option, some, Timestamp,
  arith, ap, false, sym, Bool-cases, Option-cases,
}
use setlyst_api.ApiError.{ok-state, ok}
use setlyst_api.Billing.Subscription.{Subscription, is_live, SubscriptionStatus}
use setlyst_api.Billing.Account.{Account, EventKind, Replaced, plan_exists}
use setlyst_api.Billing.Payment.{
  apply_change, PaymentChange, mirrors, end_paid_subscription, find_replaced, replaced_of,
  PaymentSnapshot, SubscriptionStatus, apply_payment_subscription, apply_current, mirrored_row,
  false, Applied, apply_kind, change_kind, is_subscribed,
}
use setlyst_api.Billing.Payment.Laws.{mirrored, mirrors-mirrored_row, apply_change_cases}
use setlyst_api.Billing.Payment.Settled.{apply_payment_subscription_run, change_kind-canceled}
use setlyst_api.Billing.Payment.Kept.{apply_needs_plan}

-- The account is charged for `reference`, and its purchase says that it replaced `r`.
abbrev pub IsReplacing : String → Replaced → Account → Type 0
IsReplacing reference r a =
    (c : Subscription) × (a.subscription ≡ some c)
    × (mirrors reference c ≡ true)
    × (is_live c.status ≡ true)
    × (find_replaced reference a.events ≡ some r)

-- Snapshots of the subscription while it runs, applied one after another at any times.
pub data Renewals (reference : String) (a : Account) : Account → Type 0 where
  here : Renewals reference a a
  next :
      {b c : Account} (p : PaymentSnapshot) (status : SubscriptionStatus) (now : Timestamp)
      (x : Applied)
      → Renewals reference a b
      → p.external_ref ≡ reference
      → p.status ≡ some status
      → is_live status ≡ true
      → apply_payment_subscription now p b ≡ ok (x, c)
      → Renewals reference a c

-- How the subscription ends: here, or by a snapshot that says so.
pub data Ending (reference : String) (later : Timestamp) (a : Account) : Account → Type 0 where
  by_request :
      {b : Account} (kind : EventKind) (actor_id : Option ℕ) (outcome : Option PaymentChange)
      → end_paid_subscription later reference kind actor_id a ≡ ok (outcome, b)
      → Ending reference later a b
  by_snapshot :
      {b : Account} (p : PaymentSnapshot) (status : SubscriptionStatus) (x : Applied)
      → p.external_ref ≡ reference
      → p.status ≡ some status
      → is_live status ≡ false
      → apply_payment_subscription later p a ≡ ok (x, b)
      → Ending reference later a b

-- A change of the row that mirrors the subscription writes an event that hides nothing.
pub find_replaced-mirrored :
    (a : Account) (c : Subscription) (p : PaymentSnapshot) (status : SubscriptionStatus)
    (now : Timestamp) (kind : EventKind) (r : Replaced)
    → mirrors p.external_ref c ≡ true
    → find_replaced p.external_ref a.events ≡ some r
    → find_replaced p.external_ref (mirrored (some c) p status now kind a).events ≡ some r
unfolding find_replaced replaced_of
find_replaced-mirrored a c p status now kind r same found = elim (Bool-cases (is_subscribed kind)) [
  | inr other ↦ ground (arith, other, found)
  | inl new ↦ rw (new, same) (ground (arith, found))
]

pub current_run :
    (a : Account) (c : Subscription) (p : PaymentSnapshot) (status : SubscriptionStatus)
    (now : Timestamp)
    → p.status ≡ some status
    → plan_exists p.plan_code a.plans ≡ true
    → a.subscription ≡ some c
    → mirrors p.external_ref c ≡ true
    → apply_payment_subscription now p a
      ≡ apply_kind (some c) p status now (change_kind c p status now) a
unfolding apply_current
current_run a c p status now e exists at same =
    apply_payment_subscription_run p status now a e exists
    ∙ ap (λ o. apply_current o p status now a) at
    ∙ rw same refl

change-IsReplacing :
    (a b : Account) (c : Subscription) (p : PaymentSnapshot) (status : SubscriptionStatus)
    (now : Timestamp) (r : Replaced) (x : Applied) (kind : EventKind)
    → change_kind c p status now ≡ some kind
    → is_live status ≡ true
    → mirrors p.external_ref c ≡ true
    → find_replaced p.external_ref a.events ≡ some r
    → apply_change (some c) p status now kind a ≡ ok (x, b)
    → IsReplacing p.external_ref r b
change-IsReplacing a b c p status now r x kind e live same found h =
    elim (apply_change_cases (some c) p status now kind a) [
      | inr (old, over, listed, run) ↦
          let dead = change_kind-canceled c p status now e over in
          absurd (ground (arith, dead, live))
      | inl run ↦ subst (IsReplacing p.external_ref r) (sym (ok-state h run)) (
        mirrored_row (some c) p status now,
        refl,
        mirrors-mirrored_row (some c) p status now,
        live,
        find_replaced-mirrored a c p status now kind r same found,
      )
    ]

renewal-IsReplacing :
    (p : PaymentSnapshot) (status : SubscriptionStatus) (now : Timestamp) (a b : Account)
    (r : Replaced) (x : Applied)
    → p.status ≡ some status
    → is_live status ≡ true
    → IsReplacing p.external_ref r a
    → apply_payment_subscription now p a ≡ ok (x, b)
    → IsReplacing p.external_ref r b
renewal-IsReplacing p status now a b r x e live (c, at, same, runs, found) h =
    let exists = apply_needs_plan p status now a b x e h in
    let step = sym (current_run a c p status now e exists at same) ∙ h in
    elim (Option-cases (change_kind c p status now)) [
      | inl nothing ↦
          let run = ap (λ k. apply_kind (some c) p status now k a) (sym nothing) ∙ step in
          subst (IsReplacing p.external_ref r) (ok-state refl run) (c, at, same, runs, found)
      | inr (kind, known) ↦
          change-IsReplacing a b c p status now r x kind known live same found
            (ap (λ k. apply_kind (some c) p status now k a) (sym known) ∙ step)
    ]

pub Renewals-IsReplacing :
    (reference : String) (r : Replaced) (a b : Account)
    → IsReplacing reference r a
    → Renewals reference a b
    → IsReplacing reference r b
Renewals-IsReplacing reference r a b start here = start
Renewals-IsReplacing reference r a b start (next {b = m} p status now x run named e live h) =
    let before = Renewals-IsReplacing reference r a m start run in
    subst (λ n. IsReplacing n r b) named
      (renewal-IsReplacing p status now m b r x e live
        (subst (λ n. IsReplacing n r m) (sym named) before) h)
