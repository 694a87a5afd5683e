-- ===== src/Billing/LedgerTests.antt =====
-- The theorems on credits, referrals and promo codes at concrete accounts.
use setlyst_api.Prelude.{
  refl, text_eq, nat_eq, some, none, true, false, [], ◌∷◌, arith, days, if◌then◌else◌, List, ◌≡◌,
  ◌==◌, ◌↔◌, find,
}
use setlyst_api.ApiError.{ok, err, Tx}
use setlyst_api.Access.Role.{user, is_staff}
use setlyst_api.Billing.Account.{Account, ensure_not_staff, ensure_plan_exists, record_event}
use setlyst_api.Billing.Grants.{grant_plan_time, apply_grant, is_same_plan}
use setlyst_api.Billing.Grants.Laws.{MayGrant}
use setlyst_api.Billing.Credits.{
  Reward, redeem_reward, buy_reward, deliver_reward, add_credits, credit_balance,
}
use setlyst_api.Billing.Credits.Laws.{redeem_reward_iff, redeem_reward_pays, IsBought}
use setlyst_api.Billing.Referrals.{
  Referrals, ReferralSettings, pending, qualify_referral, reward_referrer_on_payment,
  reverse_referral_reward, granted,
}
use setlyst_api.Billing.Referrals.Laws.{
  IsSettled, ReferralRun-IsSettled, verified, paid, reversed, here, next,
}
use setlyst_api.Billing.Promo.{
  PromoKind, PromoCode, Platform, redeem_promo_code, redeem_found, check_promo, claim_redemption,
  give_promo,
}
use setlyst_api.Billing.Promo.Laws.{IsCounted, redeem_promo_code-IsCounted}
use setlyst_api.Prelude.Int.{◌+ℤ◌, pos, ◌-ℤ◌, ◌≤ℤ◌}

abbrev saver : Account
saver = record {
  role = user;
  plans = "pro" ∷ "basic" ∷ [];
  subscription = none;
  events = [];
  ledger = record { amount = pos 500; reason = "referral_referrer" } ∷ [];
}

abbrev rewards : List Reward
rewards = record { id = "pro30"; plan = "pro"; days = 30; cost = 300 } ∷ []

abbrev state_of : {A : Type 0} → Tx Account A → Account → Account
state_of m a = elim (m a) [ ok (_, b) ↦ b | err _ ↦ a ]

redeem_reward_iff_example :
    ((b : Account) × (redeem_reward (days 5) rewards "pro30" saver ≡ ok (tt, b))) ↔ (
      (r : Reward) × (find (λ (r : Reward). r.id == "pro30") rewards ≡ some r)
      × (pos r.cost ≤ℤ credit_balance saver.ledger)
      × MayGrant saver r.plan (days 5))
redeem_reward_iff_example = redeem_reward_iff (days 5) rewards "pro30" saver

redeem_reward_pays_example :
    (r : Reward) × (find (λ (r : Reward). r.id == "pro30") rewards ≡ some r)
    × IsBought (days 5) r saver (state_of (redeem_reward (days 5) rewards "pro30") saver)
unfolding redeem_reward buy_reward deliver_reward add_credits credit_balance grant_plan_time
    apply_grant ensure_not_staff ensure_plan_exists record_event is_staff is_same_plan ◌+ℤ◌ ◌-ℤ◌
redeem_reward_pays_example =
    redeem_reward_pays (days 5) rewards "pro30" saver
      (state_of (redeem_reward (days 5) rewards "pro30") saver) refl

abbrev settings : ReferralSettings
settings = record {
  enabled = true;
  referrer_credits = 300;
  referred_credits = 100;
  max_rewarded_per_month = 10;
}

abbrev invited : Referrals
invited = record {
  referral = record {
    id = 7;
    referrer_id = 1;
    referred_id = 2;
    status = pending;
    note = none;
    rewarded_at = none;
    referred_rewarded_at = none;
  };
  ledger = [];
}

abbrev after_payment : Referrals
after_payment =
    reward_referrer_on_payment settings 3 (days 9)
      (qualify_referral settings false (days 8) invited)

ReferralRun-IsSettled_example :
    IsSettled (reverse_referral_reward "refunded" (days 20) after_payment)
unfolding granted
ReferralRun-IsSettled_example =
    ReferralRun-IsSettled invited (reverse_referral_reward "refunded" (days 20) after_payment) refl
      (next
        (next (next here (verified settings false (days 8)))
          (paid settings 3 (days 9) (omega arith)))
        (reversed "refunded" (days 20)))

abbrev gift_code : PromoCode
gift_code = record {
  kind = PromoKind.credits;
  plan_code = none;
  duration_days = none;
  credits = some 50;
  discount_percent = none;
  new_users_only = false;
  starts_at = none;
  expires_at = some (days 30);
  disabled_at = none;
  created_at = days 1;
  max_redemptions = some 1;
  redemptions_count = 0;
}

abbrev shop : Platform
shop = record {
  promos = λ id. if id == 4 then some gift_code else none;
  code_index = λ code. if code == "WELCOME" then some 4 else none;
  redemptions = [];
  accounts = λ _. saver;
  account_created_at = λ _. days 0;
}

shop-IsCounted : IsCounted shop
shop-IsCounted = record {
  counted = λ id promo e. ground (arith, e);
  in_limit = λ id most promo e limit. ground (arith, e, limit);
  once = λ id user. omega arith;
}

abbrev platform_of : {A : Type 0} → Tx Platform A → Platform → Platform
platform_of m a = elim (m a) [ ok (_, b) ↦ b | err _ ↦ a ]

redeem_promo_code-IsCounted_example :
    IsCounted (platform_of (redeem_promo_code (days 5) "pro" 1 "WELCOME") shop)
unfolding redeem_promo_code redeem_found check_promo claim_redemption give_promo add_credits
redeem_promo_code-IsCounted_example =
    redeem_promo_code-IsCounted (days 5) "pro" 1 "WELCOME" shop
      (platform_of (redeem_promo_code (days 5) "pro" 1 "WELCOME") shop)
      (record {
        kind = PromoKind.credits;
        plan_code = none;
        days = none;
        credits = some 50;
        discount_percent = none;
      })
      shop-IsCounted refl
