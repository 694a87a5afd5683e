-- ===== src/Billing/Payment/Returns.antt =====
-- A complimentary plan that a purchase replaces (`replaced_of`), and the end of that purchase
-- (`end_paid_subscription`, `restore_complimentary_grant`).
use mathlib.Core.Path.{subst, ap, sym}
use setlyst_api.Billing.Payment.Journal.{
  by_request, by_snapshot, IsReplacing, Renewals, find_replaced-mirrored, Ending,
  Renewals-IsReplacing, current_run,
}
use setlyst_api.Prelude.{
  ==-refl, text_eq, nat_eq, option_eq, ◌∙◌, ℕ, ◌≡◌, refl, inl, inr, String, true, Option, some,
  Timestamp, arith, is_none_or, ltb, ==-refl, ap, none, false, sym,
}
use setlyst_api.ApiError.{ok-state, ok}
use setlyst_api.Billing.Subscription.{
  Subscription, is_live, SubscriptionStatus, active, is_paid_and_effective,
}
use setlyst_api.Billing.Account.{Account, EventKind, Replaced, subscribed, plan_exists}
use setlyst_api.Billing.Payment.{
  apply_change, restore_complimentary_grant, PaymentChange, mirrors, ended_row,
  end_paid_subscription, find_replaced, replaced_of, PaymentSnapshot, admin, is_effective,
  SubscriptionStatus, is_none_or, ltb, apply_payment_subscription, changed, apply_current, active,
  mirrored_row, apply_other, standing_ref, is_paid_and_effective, false, none, change_kind,
  apply_kind,
}
use setlyst_api.Billing.Payment.Laws.{
  given_back, mirrored, change_of, mirrors-mirrored_row, apply_change_cases,
}
use setlyst_api.Billing.Payment.Ending.{closed, end_of}
use setlyst_api.Billing.Payment.Settled.{apply_payment_subscription_run}
use setlyst_api.Billing.Payment.Kept.{apply_needs_plan}

-- What the purchase `p` says that it replaced.
replaced_of_grant :
    (c : Subscription) (p : PaymentSnapshot) (now : Timestamp)
    → c.source ≡ admin
    → is_effective c now ≡ true
    → replaced_of (some c) p subscribed now
      ≡ some (record { plan_code = c.plan_code; current_period_end = c.current_period_end })
unfolding replaced_of mirrors
replaced_of_grant c p now grant runs = ground arith

grant_not_mirroring :
    (c : Subscription) (reference : String) → c.source ≡ admin → mirrors reference c ≡ false
unfolding mirrors
grant_not_mirroring c reference grant = ground arith

grant_not_standing :
    (c : Subscription) (now : Timestamp) → c.source ≡ admin → standing_ref (some c) now ≡ none
unfolding standing_ref is_paid_and_effective
grant_not_standing c now grant = rw grant refl

apply_other_run :
    (a : Account) (c : Subscription) (p : PaymentSnapshot) (status : SubscriptionStatus)
    (now : Timestamp)
    → is_live status ≡ true
    → mirrors p.external_ref c ≡ false
    → standing_ref (some c) now ≡ none
    → apply_current (some c) p status now a ≡ apply_change (some c) p status now subscribed a
unfolding apply_current apply_other
apply_other_run a c p status now live other free = rw (other, live, free) refl

buy_over_grant :
    (a : Account) (c : Subscription) (p : PaymentSnapshot) (status : SubscriptionStatus)
    (now : Timestamp)
    → p.status ≡ some status
    → is_live status ≡ true
    → plan_exists p.plan_code a.plans ≡ true
    → a.subscription ≡ some c
    → c.source ≡ admin
    → apply_payment_subscription now p a
      ≡ ok
          (changed (change_of p status now subscribed), mirrored (some c) p status now subscribed a)
buy_over_grant a c p status now e live exists at grant =
    apply_payment_subscription_run p status now a e exists
    ∙ ap (λ r. apply_current r p status now a) at
    ∙ apply_other_run a c p status now live (grant_not_mirroring c p.external_ref grant)
        (grant_not_standing c now grant)
    ∙ elim (apply_change_cases (some c) p status now subscribed a) [
      | inl run ↦ run
      | inr (r, over, found, run) ↦ absurd (ground arith)
    ]

-- The purchase says what it replaced.
bought-IsReplacing :
    (a : Account) (c : Subscription) (p : PaymentSnapshot) (status : SubscriptionStatus)
    (now : Timestamp) (r : Replaced)
    → is_live status ≡ true
    → replaced_of (some c) p subscribed now ≡ some r
    → IsReplacing p.external_ref r (mirrored (some c) p status now subscribed a)
unfolding find_replaced
bought-IsReplacing a c p status now r live e = (
  mirrored_row (some c) p status now,
  refl,
  mirrors-mirrored_row (some c) p status now,
  live,
  ground (arith, e, ==-refl p.external_ref),
)

end_run :
    (a : Account) (c : Subscription) (now : Timestamp) (reference : String) (kind : EventKind)
    (actor_id : Option ℕ) (r : Replaced)
    → a.subscription ≡ some c
    → mirrors reference c ≡ true
    → is_live c.status ≡ true
    → find_replaced reference (closed a c now reference kind actor_id).events ≡ some r
    → is_none_or (λ end. ltb now end) r.current_period_end ≡ true
    → end_paid_subscription now reference kind actor_id a
      ≡ ok (
        some (end_of c now kind),
        given_back
            (closed a c now reference kind actor_id)
            (ended_row c now actor_id)
            r
            now
            reference,
      )
unfolding end_paid_subscription restore_complimentary_grant find_replaced
end_run a c now reference kind actor_id r at same live found lasts =
    rw (at, same, live, found) (ground arith)

find_replaced-closed :
    (a : Account) (c : Subscription) (later : Timestamp) (reference : String) (kind : EventKind)
    (actor_id : Option ℕ) (r : Replaced)
    → find_replaced reference a.events ≡ some r
    → find_replaced reference (closed a c later reference kind actor_id).events ≡ some r
unfolding find_replaced
find_replaced-closed a c later reference kind actor_id r found = found

change_kind_ended :
    (c : Subscription) (p : PaymentSnapshot) (status : SubscriptionStatus) (now : Timestamp)
    → is_live c.status ≡ true
    → is_live status ≡ false
    → change_kind c p status now ≡ some EventKind.canceled
unfolding change_kind
change_kind_ended c p status now runs over = ground (arith, runs, over)

canceled_run :
    (a : Account) (c : Subscription) (p : PaymentSnapshot) (status : SubscriptionStatus)
    (now : Timestamp) (r : Replaced)
    → mirrors p.external_ref c ≡ true
    → find_replaced p.external_ref a.events ≡ some r
    → is_none_or (λ end. ltb now end) r.current_period_end ≡ true
    → apply_change (some c) p status now EventKind.canceled a
      ≡ ok (
        changed (change_of p status now EventKind.canceled),
        given_back
            (mirrored (some c) p status now EventKind.canceled a)
            (mirrored_row (some c) p status now)
            r
            now
            p.external_ref,
      )
unfolding apply_change restore_complimentary_grant find_replaced is_live replaced_of
canceled_run a c p status now r same found lasts =
    let listed = find_replaced-mirrored a c p status now EventKind.canceled r same found in
    rw listed (ground arith)

-- What the account has once the purchase that replaced `r` ended.
abbrev HasBack : Replaced → Account → Type 0
HasBack r a =
    (t : Subscription) × (a.subscription ≡ some t)
    × (t.plan_code ≡ r.plan_code)
    × (t.source ≡ admin)
    × (t.status ≡ active)
    × (t.current_period_end ≡ r.current_period_end)

Ending-HasBack :
    (reference : String) (later : Timestamp) (a b : Account) (r : Replaced)
    → IsReplacing reference r a
    → is_none_or (λ end. ltb later end) r.current_period_end ≡ true
    → Ending reference later a b
    → HasBack r b
Ending-HasBack reference later a b r (c, at, same, runs, found) lasts
      (by_request kind actor_id outcome h) =
    let run =
      end_run a c later reference kind actor_id r at same runs
        (find_replaced-closed a c later reference kind actor_id r found) lasts in
    (_, ap (λ d. d.subscription) (ok-state h run), refl, refl, refl, refl)
Ending-HasBack reference later a b r (c, at, same, runs, found) lasts
      (by_snapshot p status x named e over h) =
    let mine = subst (λ n. mirrors n c ≡ true) (sym named) same in
    let listed = subst (λ n. find_replaced n a.events ≡ some r) (sym named) found in
    let exists = apply_needs_plan p status later a b x e h in
    let run =
      current_run a c p status later e exists at mine
      ∙ ap (λ k. apply_kind (some c) p status later k a)
          (change_kind_ended c p status later runs over)
      ∙ canceled_run a c p status later r mine listed lasts in
    (_, ap (λ d. d.subscription) (ok-state h run), refl, refl, refl, refl)

-- A complimentary plan that a purchase replaces while it is in effect comes back, with its end,
-- when that purchase ends before the grant would have: whatever snapshots of the running
-- subscription are mirrored in between (renewals, plan changes, failed payments), with nothing else
-- between, and whether it is ended here or by a snapshot that says that it is over.
pub complimentary_plan_returns :
    (a : Account) (c : Subscription) (p : PaymentSnapshot) (status : SubscriptionStatus)
    (now later : Timestamp)
    → p.status ≡ some status
    → is_live status ≡ true
    → plan_exists p.plan_code a.plans ≡ true
    → a.subscription ≡ some c
    → c.source ≡ admin
    → is_effective c now ≡ true
    → is_none_or (λ end. ltb later end) c.current_period_end ≡ true
    → (bought last over : Account) (change : PaymentChange)
    → apply_payment_subscription now p a ≡ ok (changed change, bought)
    → Renewals p.external_ref bought last
    → Ending p.external_ref later last over
    → (t : Subscription) × (over.subscription ≡ some t)
      × (t.plan_code ≡ c.plan_code)
      × (t.source ≡ admin)
      × (t.status ≡ active)
      × (t.current_period_end ≡ c.current_period_end)
complimentary_plan_returns a c p status now later e live exists at grant runs lasts bought last over
      change h renewed ends =
    let r : Replaced = record {
      plan_code = c.plan_code;
      current_period_end = c.current_period_end;
    } in
    let same = ok-state h (buy_over_grant a c p status now e live exists at grant) in
    let start =
      subst (IsReplacing p.external_ref r) (sym same)
        (bought-IsReplacing a c p status now r live (replaced_of_grant c p now grant runs)) in
    Ending-HasBack p.external_ref later last over r
      (Renewals-IsReplacing p.external_ref r bought last start renewed) lasts ends
