-- ===== src/Billing/Grants/Laws.antt =====
-- What a grant of plan time does to an account, and when it is refused.
use setlyst_api.Prelude.{
  text_eq, nat_eq, option_eq, ℕ, ◌+◌, ◌<◌, ◌≡◌, refl, ◌↔◌, inl, inr, String, true, false, Option,
  none, some, arith, Timestamp, days, max, map_option, is_none_or, is_some_and, ltb, ap, ◌∙◌,
  Bool-cases, if◌then◌else◌, lt→ltb, ltb→lt, ◌==◌, Bool, ◌&&◌, ==-refl,
}
use setlyst_api.ApiError.{ok, ok-state}
use setlyst_api.Access.Role.{is_staff}
use setlyst_api.Billing.Subscription.{
  Subscription, SubscriptionSource, active, is_effective, is_paid_and_effective, is_payment,
}
use setlyst_api.Billing.Account.{Account, plan_exists}
use setlyst_api.Billing.Grants.{
  GrantOutcome, grant_plan_time, apply_grant, is_same_plan, extended_end, extended_row, granted_row,
  blank, Bool,
}

-- The row that a grant leaves.
abbrev pub granted_to :
    Option Subscription
    → Timestamp
    → String
    → Option ℕ
    → SubscriptionSource
    → Option ℕ
    → Option String
    → Subscription
granted_to none now plan n source actor_id remark =
    granted_row (blank plan active source now) plan (map_option (λ d. now + days d) n) source remark
      now actor_id
granted_to (some s) now plan n source actor_id remark =
    let same_plan = is_same_plan (some s) plan now in
    let end =
      if same_plan
      then extended_end n s.current_period_end now
      else map_option (λ d. now + days d) n in
    if same_plan
    then extended_row s end source remark now actor_id
    else granted_row s plan end source remark now actor_id

pub apply_grant_run :
    (current : Option Subscription) (now : Timestamp) (plan : String) (n : Option ℕ)
    (source : SubscriptionSource) (actor_id : Option ℕ) (remark : Option String) (a : Account)
    → (g : GrantOutcome) × (b : Account) × (apply_grant current now plan n source actor_id remark a
        ≡ ok (g, b))
      × (b.subscription ≡ some (granted_to current now plan n source actor_id remark))
unfolding apply_grant
apply_grant_run none now plan n source actor_id remark a = (_, _, refl, refl)
apply_grant_run (some s) now plan n source actor_id remark a = (_, _, refl, refl)

-- Nothing stands against a grant.
abbrev pub MayGrant : Account → String → Timestamp → Type 0
MayGrant a plan now =
    (is_staff a.role ≡ false)
    × (plan_exists plan a.plans ≡ true)
    × (is_some_and (λ s. is_paid_and_effective s now) a.subscription ≡ false)

pub grant_plan_time_run :
    (a : Account) (now : Timestamp) (plan : String) (n : Option ℕ) (source : SubscriptionSource)
    (actor_id : Option ℕ) (remark : Option String)
    → MayGrant a plan now
    → grant_plan_time now plan n source actor_id remark a
      ≡ apply_grant a.subscription now plan n source actor_id remark a
unfolding grant_plan_time
grant_plan_time_run a now plan n source actor_id remark (user, exists, free) = ground arith

pub grant_plan_time_needs :
    (a : Account) (now : Timestamp) (plan : String) (n : Option ℕ) (source : SubscriptionSource)
    (actor_id : Option ℕ) (remark : Option String) {g : GrantOutcome} {b : Account}
    → grant_plan_time now plan n source actor_id remark a ≡ ok (g, b)
    → MayGrant a plan now
unfolding grant_plan_time
grant_plan_time_needs a now plan n source actor_id remark h = (
  elim (Bool-cases (is_staff a.role)) [
    | inl staff ↦ absurd (ground (arith, staff))
    | inr user ↦ user
  ],
  elim (Bool-cases (plan_exists plan a.plans)) [
    | inl exists ↦ exists
    | inr missing ↦ absurd (ground (arith, missing))
  ],
  elim (Bool-cases (is_some_and (λ s. is_paid_and_effective s now) a.subscription)) [
    | inl paid ↦ absurd (ground (arith, paid))
    | inr free ↦ free
  ],
)

-- A grant goes through exactly for an account that is not staff, of a plan that exists, while no
-- paid subscription is in effect.
pub grant_plan_time_iff :
    (a : Account) (now : Timestamp) (plan : String) (n : Option ℕ) (source : SubscriptionSource)
    (actor_id : Option ℕ) (remark : Option String)
    → ((g : GrantOutcome) × (b : Account) × (grant_plan_time now plan n source actor_id remark a
          ≡ ok (g, b)))
      ↔ ((is_staff a.role ≡ false)
          × (plan_exists plan a.plans ≡ true)
          × (is_some_and (λ s. is_paid_and_effective s now) a.subscription ≡ false))
grant_plan_time_iff a now plan n source actor_id remark = (
  λ r. grant_plan_time_needs a now plan n source actor_id remark r.2,
  λ may.
      let (g, b, run, at) = apply_grant_run a.subscription now plan n source actor_id remark a in
      (g, b, grant_plan_time_run a now plan n source actor_id remark may ∙ run),
)

grant_plan_time_row :
    (a b : Account) (now : Timestamp) (plan : String) (n : Option ℕ) (source : SubscriptionSource)
    (actor_id : Option ℕ) (remark : Option String) {g : GrantOutcome}
    → grant_plan_time now plan n source actor_id remark a ≡ ok (g, b)
    → b.subscription ≡ some (granted_to a.subscription now plan n source actor_id remark)
grant_plan_time_row a b now plan n source actor_id remark h =
    let may = grant_plan_time_needs a now plan n source actor_id remark h in
    let (g, c, run, at) = apply_grant_run a.subscription now plan n source actor_id remark a in
    ap (λ x. x.subscription)
      (ok-state h (grant_plan_time_run a now plan n source actor_id remark may ∙ run))
    ∙ at

-- The time that a row in force gives, whatever its source.
active_covers :
    (t : Subscription) (at : Timestamp)
    → t.status ≡ active
    → is_none_or (λ end. ltb at end) t.current_period_end ≡ true
    → is_effective t at ≡ true
unfolding is_effective
active_covers t at live within = ground arith

extended_end-covers :
    (n : ℕ) (end : Option Timestamp) (now at : Timestamp)
    → at < now + days n
    → is_none_or (λ e. ltb at e) (extended_end (some n) end now) ≡ true
extended_end-covers n none now at h = refl
extended_end-covers n (some e) now at h = lt→ltb at (max e now + days n) (omega arith)

granted_to-covers :
    (current : Option Subscription) (now : Timestamp) (plan : String) (n : ℕ)
    (source : SubscriptionSource) (actor_id : Option ℕ) (remark : Option String) (at : Timestamp)
    → at < now + days n
    → is_effective (granted_to current now plan (some n) source actor_id remark) at ≡ true
granted_to-covers none now plan n source actor_id remark at h =
    active_covers _ at refl (lt→ltb _ _ h)
granted_to-covers (some s) now plan n source actor_id remark at h =
    elim (Bool-cases (is_same_plan (some s) plan now)) [
      | inl same ↦
          rw same (active_covers _ at refl (extended_end-covers n s.current_period_end now at h))
      | inr other ↦ rw other (active_covers _ at refl (lt→ltb _ _ h))
    ]

granted_to-plan :
    (current : Option Subscription) (now : Timestamp) (plan : String) (n : Option ℕ)
    (source : SubscriptionSource) (actor_id : Option ℕ) (remark : Option String)
    → ((granted_to current now plan n source actor_id remark).plan_code == plan) ≡ true
unfolding is_same_plan
granted_to-plan none now plan n source actor_id remark = ==-refl plan
granted_to-plan (some s) now plan n source actor_id remark =
    elim (Bool-cases (is_same_plan (some s) plan now)) [
      | inl same ↦ rw same (ground (arith, same))
      | inr other ↦ rw other (==-refl plan)
    ]

-- The row gives the plan at the time.
abbrev pub gives : String → Timestamp → Subscription → Bool
gives plan at t = t.plan_code == plan && is_effective t at

-- A grant of `n` days gives the plan for at least the next `n` days.
pub grant_plan_time_covers :
    (a b : Account) (now : Timestamp) (plan : String) (n : ℕ) (source : SubscriptionSource)
    (actor_id : Option ℕ) (remark : Option String) (at : Timestamp) {g : GrantOutcome}
    → grant_plan_time now plan (some n) source actor_id remark a ≡ ok (g, b)
    → at < now + days n
    → is_some_and (gives plan at) b.subscription ≡ true
grant_plan_time_covers a b now plan n source actor_id remark at h soon =
    ap (is_some_and (gives plan at))
      (grant_plan_time_row a b now plan (some n) source actor_id remark h)
    ∙ rw
        (
          granted_to-plan a.subscription now plan (some n) source actor_id remark,
          granted_to-covers a.subscription now plan n source actor_id remark at soon,
        )
        refl

effective_within :
    (s : Subscription) (at : Timestamp)
    → is_payment s.source ≡ false
    → is_effective s at ≡ true
    → is_none_or (λ end. ltb at end) s.current_period_end ≡ true
unfolding is_effective
effective_within s at free runs = ground arith

extended_end-adds :
    (n : ℕ) (end : Option Timestamp) (now at : Timestamp)
    → is_none_or (λ e. ltb at e) end ≡ true
    → is_none_or (λ e. ltb (at + days n) e) (extended_end (some n) end now) ≡ true
extended_end-adds n none now at within = refl
extended_end-adds n (some e) now at within =
    lt→ltb (at + days n) (max e now + days n) (omega (arith, ltb→lt at e within))

-- A grant of `n` days of the plan already in effect adds them to the time that is left: whenever
-- the old subscription gave the plan, the new one gives it `n` days later.
pub grant_plan_time_extends :
    (a b : Account) (s : Subscription) (now : Timestamp) (plan : String) (n : ℕ)
    (source : SubscriptionSource) (actor_id : Option ℕ) (remark : Option String) (at : Timestamp)
    {g : GrantOutcome}
    → a.subscription ≡ some s
    → is_same_plan (some s) plan now ≡ true
    → is_payment s.source ≡ false
    → grant_plan_time now plan (some n) source actor_id remark a ≡ ok (g, b)
    → is_effective s at ≡ true
    → is_some_and (gives plan (at + days n)) b.subscription ≡ true
grant_plan_time_extends a b s now plan n source actor_id remark at e same free h runs =
    let runs_on : is_effective (granted_to (some s) now plan (some n) source actor_id remark)
          (at + days n)
        ≡ true =
      rw same (
        active_covers _ (at + days n) refl
          (extended_end-adds n s.current_period_end now at (effective_within s at free runs))) in
    ap (is_some_and (gives plan (at + days n))) (
      grant_plan_time_row a b now plan (some n) source actor_id remark h
      ∙ ap (λ r. some (granted_to r now plan (some n) source actor_id remark)) e)
    ∙ rw (granted_to-plan (some s) now plan (some n) source actor_id remark, runs_on) refl
