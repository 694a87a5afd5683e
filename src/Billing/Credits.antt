-- ===== src/Billing/Credits.antt =====
-- src/services/billing.rs: the credit ledger of an account, and rewards bought with credits.
pub mod Laws
use setlyst_api.Prelude.{
  Bool, true, false, ℕ, zero, String, ◌==◌, text_eq, nat_eq, Option, none, some, List, [], ◌∷◌,
  find, if◌then◌else◌, Timestamp, Bool, false,
}
use setlyst_api.Prelude.Int.{ℤ, pos, negsuc, ◌+ℤ◌, ◌-ℤ◌, ltb_ℤ}
use setlyst_api.ApiError.{
  Tx, ◌>>=◌, ◌>>◌, pure, fail, fail_if, gets, modify, reward_not_found, insufficient_credits,
}
use setlyst_api.Billing.Subscription.{credits}
use setlyst_api.Billing.Account.{Account, CreditEntry}
use setlyst_api.Billing.Grants.{grant_plan_time, GrantOutcome}

-- Days of a plan for credits; `days` and `cost` are at least 1 by validation.
pub record Reward : Type 0 where
  pub id : String
  pub plan : String
  pub days : ℕ
  pub cost : ℕ

abbrev pub is_zero : ℤ → Bool
is_zero (pos zero) = true
is_zero _ = false

unfoldable pub add_credits : ℤ → String → Tx Account (Unit {0})
add_credits amount reason =
    if is_zero amount
    then pure tt
    else modify (λ a. record a { ledger = record { amount = amount; reason = reason } ∷ a.ledger })

-- COALESCE(SUM(amount), 0)
unfoldable pub credit_balance : List CreditEntry → ℤ
credit_balance [] = pos 0
credit_balance (e ∷ es) = e.amount +ℤ credit_balance es

-- The debit and the plan time, once the balance is enough.
unfoldable pub deliver_reward : Timestamp → Reward → Tx Account (Unit {0})
deliver_reward now r = do
  add_credits (pos 0 -ℤ pos r.cost) "reward_redemption"
  grant_plan_time now r.plan (some r.days) credits none none
  pure tt

-- The rest of `redeem_reward`, one transaction under the lock on the account's credits.
unfoldable pub buy_reward : Timestamp → Reward → Tx Account (Unit {0})
buy_reward now r = do
  balance ← gets (λ a. credit_balance a.ledger)
  fail_if (ltb_ℤ balance (pos r.cost)) (insufficient_credits balance r.cost)
  deliver_reward now r

abbrev pub buy_found : Timestamp → Option Reward → Tx Account (Unit {0})
buy_found now none = fail reward_not_found
buy_found now (some r) = buy_reward now r

unfoldable pub redeem_reward : Timestamp → List Reward → String → Tx Account (Unit {0})
redeem_reward now rewards id = buy_found now (find (λ (r : Reward). r.id == id) rewards)
