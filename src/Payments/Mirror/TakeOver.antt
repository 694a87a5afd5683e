-- ===== src/Payments/Mirror/TakeOver.antt =====
-- The second paid subscription of an account takes the place of one that is over at the provider.
use setlyst_api.Payments.Mirror.{◌>>=◌, ◌>>◌}
use mathlib.Core.Path.{subst}
use setlyst_api.Payments.Mirror.Runs.{>>=-ok, on_account-ok, done-ok}
use setlyst_api.Prelude.{
  refl, ◌≡◌, ◌∙◌, ap, sym, inl, inr, text_eq, option_eq, nat_eq, Timestamp, String, Option, ◌==◌,
  some, ◌||◌, false, Option-cases, none, true, arith, bind_option,
}
use setlyst_api.Billing.Payment.{
  unchanged, changed, duplicate, PaymentSnapshot, map_provider_status, PaymentChange,
  apply_payment_subscription, mirrors, Applied, end_paid_subscription,
}
use setlyst_api.Billing.Subscription.{is_live, Subscription, SubscriptionStatus}
use setlyst_api.Payments.Mirror.{
  Timestamp, Account, snapshot_of, String, GatewaySubscription, is_running, Session, false, true,
  end_if_left, end_by_mirror, change_of, bind_option, on_account, take_over, done, Handler,
}
use setlyst_api.Billing.Account.{Account, plan_exists, EventKind}
use setlyst_api.Payments.{GatewaySubscription, Option, some, ok, none}
use setlyst_api.Billing.Payment.Settled.{
  is_vacant, changed_needs_status, apply_payment_subscription-IsTaken,
}
use setlyst_api.ApiError.{ok, ok-state}
use setlyst_api.Billing.Payment.Kept.{
  apply_payment_subscription_kept, apply_payment_subscription-IsSeen,
}
use setlyst_api.Billing.Payment.Ending.{is_charging}
use setlyst_api.Payments.Mirror.Runs.{on_account-ok}
use setlyst_api.Billing.Payment.Outcomes.{apply_vacant, end_paid_subscription_vacates}

-- The snapshot is of a subscription that does not run.
abbrev pub IsOver : PaymentSnapshot → Type 0
IsOver p = (status : SubscriptionStatus) → p.status ≡ some status → is_live status ≡ false

map_provider_status_over :
    (s : String) (status : SubscriptionStatus)
    → (s == "active" || s == "trialing" || s == "past_due") ≡ false
    → map_provider_status s ≡ some status
    → is_live status ≡ false
unfolding map_provider_status is_live
map_provider_status_over s status over h = ground (arith, over, h)

pub snapshot_of-IsOver :
    (g : GatewaySubscription) (p : PaymentSnapshot)
    → is_running g ≡ false
    → snapshot_of g ≡ some p
    → IsOver p
unfolding snapshot_of
snapshot_of-IsOver g p over h status e = elim (Option-cases g.plan_code) [
  | inl nothing ↦ absurd (ground (arith, nothing, h))
  | inr (plan, found) ↦
      let same : map_provider_status g.status ≡ p.status = ground (arith, found, h) in
      map_provider_status_over g.status status over (same ∙ e)
]

-- The account's row is no paid subscription that runs, and its plans are those of before.
abbrev IsFreed : Account → Account → Type 0
IsFreed a b =
    (r : Subscription) × (b.subscription ≡ some r) × (is_vacant r ≡ true) × (b.plans ≡ a.plans)

apply_over-IsFreed :
    (p : PaymentSnapshot) (now : Timestamp) (a b : Account) {outcome : PaymentChange}
    → IsOver p
    → apply_payment_subscription now p a ≡ ok (changed outcome, b)
    → IsFreed a b
apply_over-IsFreed p now a b over h =
    let (status, e) = changed_needs_status p now a b h in
    let (exists, taken) = apply_payment_subscription-IsTaken p status now a b e h in
    (taken.row, taken.at, taken.vacant (over status e), taken.plans)

module _ (now : Timestamp) (reference : String) where
  -- The current row is a paid subscription that runs.
  abbrev pub IsStanding : Account → Type 0
  IsStanding a =
      (c : Subscription) × (a.subscription ≡ some c)
      × (mirrors reference c ≡ true)
      × (is_live c.status ≡ true)

  -- How far the current subscription is ended: not at all, or the row is free.
  abbrev IsEnded : Account → Option PaymentChange → Account → Type 0
  IsEnded a none b = a ≡ b
  IsEnded a (some _) b = IsFreed a b

  applied-IsEnded :
      (p : PaymentSnapshot) (a b : Account) (x : Applied)
      → IsOver p
      → apply_payment_subscription now p a ≡ ok (x, b)
      → IsEnded a (change_of x) b
  applied-IsEnded p a b (changed outcome) over h = apply_over-IsFreed p now a b over h
  applied-IsEnded p a b unchanged over h =
      apply_payment_subscription_kept p now a b unchanged (λ outcome other. ground arith) h
  applied-IsEnded p a b (duplicate other) over h =
      apply_payment_subscription_kept p now a b (duplicate other) (λ outcome other. ground arith) h

  end_by_mirror-IsEnded :
      (current : Option PaymentSnapshot) (s t : Session) (outcome : Option PaymentChange)
      → ((p : PaymentSnapshot) → current ≡ some p → IsOver p)
      → end_by_mirror now current s ≡ (ok outcome, t)
      → IsEnded s.account outcome t.account
  end_by_mirror-IsEnded none s t outcome over h =
      let (e, same) = done-ok none outcome s t h in
      subst (λ o. IsEnded s.account o t.account) e (ap (λ u. u.account) same)
  end_by_mirror-IsEnded (some p) s t outcome over h =
      let (x, u, applies, rest) =
        >>=-ok (on_account (apply_payment_subscription now p)) (λ x. done (change_of x)) s t h in
      let (b, run, left) = on_account-ok (apply_payment_subscription now p) s u applies in
      let ended = applied-IsEnded p s.account b x (over p refl) run in
      let (e, same) = done-ok (change_of x) outcome u t rest in
      subst (λ o. IsEnded s.account o t.account) e
        (subst (λ d. IsEnded s.account (change_of x) d)
          (sym (ap (λ v. v.account) left) ∙ ap (λ v. v.account) same) ended)

  end_if_left-IsFreed :
      (outcome : Option PaymentChange) (a : Account) (s t : Session)
      → IsStanding a
      → IsEnded a outcome s.account
      → end_if_left now reference outcome s ≡ (ok tt, t)
      → IsFreed a t.account
  end_if_left-IsFreed (some outcome) a s t standing freed h =
      let same : s ≡ t = ground (arith, h) in subst (λ u. IsFreed a u.account) same freed
  end_if_left-IsFreed none a s t (c, at, found, runs) same h =
      let (x, u, ends, rest) =
        >>=-ok (on_account (end_paid_subscription now reference EventKind.canceled none))
          (λ _. done tt) s t h in
      let (b, run, left) =
        on_account-ok (end_paid_subscription now reference EventKind.canceled none) s u ends in
      let (b', outcome, r, e, row, free, plans) =
        end_paid_subscription_vacates s.account c now reference EventKind.canceled none
          (ap (λ d. d.subscription) (sym same) ∙ at) found runs in
      let after : b' ≡ t.account =
        sym (ok-state run e)
        ∙ sym (ap (λ v. v.account) left)
        ∙ ap (λ v. v.account) (done-ok tt tt u t rest).1 in
      subst (λ d. IsFreed a d) after (r, row, free, plans ∙ ap (λ d. d.plans) (sym same))

  abbrev take_in : PaymentSnapshot → Handler (Option PaymentChange)
  take_in p = do done (change_of (← on_account (apply_payment_subscription now p)))

  pub take_over-charging :
      (p : PaymentSnapshot) (status : SubscriptionStatus) (current : Option GatewaySubscription)
      (s t : Session) (outcome : Option PaymentChange)
      → p.status ≡ some status
      → is_live status ≡ true
      → plan_exists p.plan_code s.account.plans ≡ true
      → IsStanding s.account
      → ((q : PaymentSnapshot) → bind_option current snapshot_of ≡ some q → IsOver q)
      → take_over now p reference current s ≡ (ok outcome, t)
      → is_charging p.external_ref t.account.subscription ≡ true
  take_over-charging p status current s t outcome e live exists standing over h =
      let (ended, u, ends, rest) =
        >>=-ok (end_by_mirror now (bind_option current snapshot_of))
          (λ ended. end_if_left now reference ended >> take_in p) s t h in
      let (_, v, frees, last) =
        >>=-ok (end_if_left now reference ended) (λ _. take_in p) u t rest in
      let (x, w, applies, finally) =
        >>=-ok (on_account (apply_payment_subscription now p)) (λ x. done (change_of x)) v t last in
      let (b, run, left) = on_account-ok (apply_payment_subscription now p) v w applies in
      let ending = end_by_mirror-IsEnded (bind_option current snapshot_of) s u ended over ends in
      let (r, row, free, plans) = end_if_left-IsFreed ended s.account u v standing ending frees in
      let known : plan_exists p.plan_code v.account.plans ≡ true =
        ap (λ cs. plan_exists p.plan_code cs) plans ∙ exists in
      let (change, b', e') = apply_vacant p status now v.account r e live known row free in
      let (shown, _) =
        apply_payment_subscription-IsSeen p status now v.account b' (changed change) e live e' in
      let after : b' ≡ t.account =
        sym (ok-state run e')
        ∙ sym (ap (λ v. v.account) left)
        ∙ ap (λ v. v.account) (done-ok (change_of x) outcome w t finally).1 in
      subst (λ d. is_charging p.external_ref d.subscription ≡ true) after shown
