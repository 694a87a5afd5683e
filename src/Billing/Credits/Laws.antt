-- ===== src/Billing/Credits/Laws.antt =====
-- Credits buy exactly what they pay for.
use setlyst_api.Prelude.{
  ℕ, ◌≡◌, refl, ap, ◌∙◌, ◌↔◌, String, zero, suc, false, Option, none, some, List, ◌∷◌, arith,
  Bool-cases, Option-cases, inl, inr, Timestamp, text_eq, nat_eq, ◌==◌, find,
}
use setlyst_api.Prelude.Int.{ℤ, pos, negsuc, ◌+ℤ◌, ◌-ℤ◌, ◌≤ℤ◌, ltb_ℤ, int_laws}
use setlyst_api.ApiError.{ok, >>=-ok, ok-state, >>=-run, ◌>>◌, pure}
use setlyst_api.Billing.Subscription.{credits, Subscription}
use setlyst_api.Billing.Account.{record_event, Account}
use setlyst_api.Billing.Grants.{grant_plan_time, apply_grant, GrantOutcome}
use setlyst_api.Billing.Grants.Laws.{
  granted_to, MayGrant, grant_plan_time_needs, grant_plan_time_run,
}
use setlyst_api.Billing.Credits.{
  Reward, add_credits, credit_balance, buy_reward, redeem_reward, deliver_reward,
}

apply_grant-keeps :
    (current : Option Subscription) (now : Timestamp) (plan : String) (n : Option ℕ) (a : Account)
    → (g : GrantOutcome) × (b : Account) × (apply_grant current now plan n credits none none a
        ≡ ok (g, b))
      × (b.subscription ≡ some (granted_to current now plan n credits none none))
      × (b.ledger ≡ a.ledger)
unfolding apply_grant record_event
apply_grant-keeps none now plan n a = (_, _, refl, refl, refl)
apply_grant-keeps (some s) now plan n a = (_, _, refl, refl, refl)

-- A grant leaves the ledger as it is.
grant_plan_time-keeps :
    (a : Account) (now : Timestamp) (plan : String) (n : Option ℕ)
    → MayGrant a plan now
    → (g : GrantOutcome) × (b : Account) × (grant_plan_time now plan n credits none none a
        ≡ ok (g, b))
      × (b.subscription ≡ some (granted_to a.subscription now plan n credits none none))
      × (b.ledger ≡ a.ledger)
grant_plan_time-keeps a now plan n may =
    let (g, b, e, row, ledger) = apply_grant-keeps a.subscription now plan n a in
    (g, b, grant_plan_time_run a now plan n credits none none may ∙ e, row, ledger)

+ℤ_zero : (a : ℤ) → pos 0 +ℤ a ≡ a
unfolding ◌+ℤ◌
+ℤ_zero (pos n) = ground arith
+ℤ_zero (negsuc n) = ground arith

abbrev paid_ledger : Reward → Account → Account
paid_ledger r a = record a {
  ledger = record { amount = pos 0 -ℤ pos r.cost; reason = "reward_redemption" } ∷ a.ledger;
}

-- What a purchase leaves.
pub record IsBought (now : Timestamp) (r : Reward) (a b : Account) : Type 0 where
  pub balance : credit_balance b.ledger ≡ credit_balance a.ledger -ℤ pos r.cost
  pub not_negative : pos 0 ≤ℤ credit_balance b.ledger
  pub granted :
      b.subscription ≡ some (granted_to a.subscription now r.plan (some r.days) credits none none)

neg_suc : (n : ℕ) → pos 0 -ℤ pos (suc n) ≡ negsuc n
unfolding ◌-ℤ◌
neg_suc n = ground arith

neg_zero : pos 0 -ℤ pos 0 ≡ pos 0
unfolding ◌-ℤ◌
neg_zero = refl

-ℤ_zero : (a : ℤ) → a ≡ a -ℤ pos 0
-ℤ_zero a = grind int_laws

+ℤ_negsuc : (a : ℤ) (n : ℕ) → negsuc n +ℤ a ≡ a -ℤ pos (suc n)
+ℤ_negsuc a n = grind int_laws

add_credits-balance :
    (cost : ℕ) (a : Account)
    → (b : Account) × (add_credits (pos 0 -ℤ pos cost) "reward_redemption" a ≡ ok (tt, b))
      × (credit_balance b.ledger ≡ credit_balance a.ledger -ℤ pos cost)
      × (b.subscription ≡ a.subscription)
      × (b.role ≡ a.role)
      × (b.plans ≡ a.plans)
unfolding add_credits credit_balance
add_credits-balance zero a =
    (a, rw neg_zero refl, -ℤ_zero (credit_balance a.ledger), refl, refl, refl)
add_credits-balance (suc n) a = (
  record a { ledger = record { amount = negsuc n; reason = "reward_redemption" } ∷ a.ledger },
  rw (neg_suc n) refl,
  +ℤ_negsuc (credit_balance a.ledger) n,
  refl,
  refl,
  refl,
)

not_less : (balance : ℤ) (cost : ℕ) → pos cost ≤ℤ balance → ltb_ℤ balance (pos cost) ≡ false
not_less balance cost h = ground arith

at_least : (balance : ℤ) (cost : ℕ) → ltb_ℤ balance (pos cost) ≡ false → pos cost ≤ℤ balance
at_least balance cost h = ground arith

left_over : (balance : ℤ) (cost : ℕ) → pos cost ≤ℤ balance → pos 0 ≤ℤ balance -ℤ pos cost
left_over balance cost h = grind int_laws

deliver_reward-run :
    (now : Timestamp) (r : Reward) (a a' b : Account) (g : GrantOutcome)
    → add_credits (pos 0 -ℤ pos r.cost) "reward_redemption" a ≡ ok (tt, a')
    → grant_plan_time now r.plan (some r.days) credits none none a' ≡ ok (g, b)
    → deliver_reward now r a ≡ ok (tt, b)
unfolding deliver_reward
deliver_reward-run now r a a' b g paid granted =
    >>=-run (add_credits (pos 0 -ℤ pos r.cost) "reward_redemption")
      (λ _. grant_plan_time now r.plan (some r.days) credits none none >> pure tt) paid
    ∙ >>=-run (grant_plan_time now r.plan (some r.days) credits none none) (λ _. pure tt) granted

buy_reward-run :
    (now : Timestamp) (r : Reward) (a : Account)
    → pos r.cost ≤ℤ credit_balance a.ledger
    → MayGrant a r.plan now
    → (b : Account) × (buy_reward now r a ≡ ok (tt, b)) × IsBought now r a b
unfolding buy_reward
buy_reward-run now r a enough may =
    let (a', paid, left, row, role, plans) = add_credits-balance r.cost a in
    let (g, b, granted, row', ledger) =
      grant_plan_time-keeps a' now r.plan (some r.days) (rw (role, plans, row) may) in
    let left' = ap credit_balance ledger ∙ left in
    (
      b,
      rw (not_less (credit_balance a.ledger) r.cost enough)
          (deliver_reward-run now r a a' b g paid granted),
      record {
        balance = left';
        not_negative = rw left' (left_over (credit_balance a.ledger) r.cost enough);
        granted =
            row' ∙ ap (λ s. some (granted_to s now r.plan (some r.days) credits none none)) row;
      },
    )

deliver_reward-needs :
    (now : Timestamp) (r : Reward) (a b : Account)
    → deliver_reward now r a ≡ ok (tt, b)
    → MayGrant a r.plan now
unfolding deliver_reward
deliver_reward-needs now r a b h =
    let (a', paid, left, row, role, plans) = add_credits-balance r.cost a in
    let (_, a'', paid', rest) =
      >>=-ok (add_credits (pos 0 -ℤ pos r.cost) "reward_redemption")
        (λ _. grant_plan_time now r.plan (some r.days) credits none none >> pure tt) h in
    let (g, c, granted, end) =
      >>=-ok (grant_plan_time now r.plan (some r.days) credits none none) (λ _. pure tt) rest in
    let may = grant_plan_time_needs a'' now r.plan (some r.days) credits none none granted in
    let same = ok-state paid' paid in
    (rw (← role, ← same) may.0, rw (← plans, ← same) may.1, rw (← row, ← same) may.2)

buy_reward-needs :
    (now : Timestamp) (r : Reward) (a b : Account)
    → buy_reward now r a ≡ ok (tt, b)
    → (pos r.cost ≤ℤ credit_balance a.ledger) × MayGrant a r.plan now
unfolding buy_reward
buy_reward-needs now r a b h = elim (Bool-cases (ltb_ℤ (credit_balance a.ledger) (pos r.cost))) [
  | inl less ↦ absurd (ground (arith, less))
  | inr enough ↦ (
    at_least (credit_balance a.ledger) r.cost enough,
    deliver_reward-needs now r a b (rw enough at h),
  )
]

-- A reward is redeemed exactly where it exists, the balance covers its cost and nothing stands
-- against the grant of its plan.
pub redeem_reward_iff :
    (now : Timestamp) (rewards : List Reward) (id : String) (a : Account)
    → ((b : Account) × (redeem_reward now rewards id a ≡ ok (tt, b))) ↔ (
        (r : Reward) × (find (λ (r : Reward). r.id == id) rewards ≡ some r)
        × (pos r.cost ≤ℤ credit_balance a.ledger)
        × MayGrant a r.plan now)
unfolding redeem_reward
redeem_reward_iff now rewards id a = (to, from)
  where
    to :
        ((b : Account) × (redeem_reward now rewards id a ≡ ok (tt, b)))
        → ((r : Reward) × (find (λ (r : Reward). r.id == id) rewards ≡ some r)
            × (pos r.cost ≤ℤ credit_balance a.ledger)
            × MayGrant a r.plan now)
    to (b, h) = elim (Option-cases (find (λ (r : Reward). r.id == id) rewards)) [
      | inl missing ↦ absurd (ground (arith, missing))
      | inr (r, found) ↦
          let (enough, may) = buy_reward-needs now r a b (rw found at h) in (r, found, enough, may)
    ]

    from :
        ((r : Reward) × (find (λ (r : Reward). r.id == id) rewards ≡ some r)
          × (pos r.cost ≤ℤ credit_balance a.ledger)
          × MayGrant a r.plan now)
        → ((b : Account) × (redeem_reward now rewards id a ≡ ok (tt, b)))
    from (r, found, enough, may) =
        let (b, done, bought) = buy_reward-run now r a enough may in (b, rw found done)

-- A redeemed reward debits its cost, leaves a balance that is not negative, and grants its days of
-- its plan.
pub redeem_reward_pays :
    (now : Timestamp) (rewards : List Reward) (id : String) (a b : Account)
    → redeem_reward now rewards id a ≡ ok (tt, b)
    → (r : Reward) × (find (λ (r : Reward). r.id == id) rewards ≡ some r) × IsBought now r a b
unfolding redeem_reward
redeem_reward_pays now rewards id a b h =
    elim (Option-cases (find (λ (r : Reward). r.id == id) rewards)) [
      | inl missing ↦ absurd (ground (arith, missing))
      | inr (r, found) ↦
          let h' = rw found at h in
          let (enough, may) = buy_reward-needs now r a b h' in
          let (c, done, bought) = buy_reward-run now r a enough may in
          (r, found, rw (← ok-state done h') bought)
    ]
