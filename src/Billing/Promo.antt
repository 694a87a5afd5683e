-- ===== src/Billing/Promo.antt =====
-- src/services/billing.rs: promo codes. The state is what a redemption sees of the platform: the
-- table `promo_codes` by its key, its unique index on the (trimmed, upper-case) code, the table
-- `promo_redemptions`, and the accounts with the time that each was created.
pub mod Laws
use setlyst_api.Prelude.{
  ℕ, ◌+◌, max, String, Bool, true, false, not, ◌&&◌, ◌||◌, ◌==◌, text_eq, nat_eq, Option, none,
  some, List, [], ◌∷◌, any, leb, ltb, is_some, is_some_and, is_none_or, unwrap_or, if◌then◌else◌,
  Timestamp, map_option,
}
use setlyst_api.Prelude.Int.{pos}
use setlyst_api.ApiError.{
  Tx, Result, ok, err, ◌>>=◌, ◌>>◌, pure, fail, fail_if, gets, modify, promo_code_invalid,
  promo_code_expired, promo_code_already_redeemed, promo_code_not_eligible, promo_code_exhausted,
}
use setlyst_api.Billing.Subscription.{promo_code}
use setlyst_api.Billing.Account.{Account}
use setlyst_api.Billing.Grants.{grant_plan_time, extend_trial, GrantOutcome}
use setlyst_api.Billing.Credits.{add_credits}

pub data PromoKind : Type 0 where
  plan_grant trial_extension credits discount : PromoKind

pub record PromoCode : Type 0 where
  pub kind : PromoKind
  pub plan_code : Option String
  pub duration_days : Option ℕ
  pub credits : Option ℕ
  pub discount_percent : Option ℕ
  pub new_users_only : Bool
  pub starts_at : Option Timestamp
  pub expires_at : Option Timestamp
  pub disabled_at : Option Timestamp
  pub created_at : Timestamp
  pub max_redemptions : Option ℕ
  pub redemptions_count : ℕ

pub record Redemption : Type 0 where
  pub promo_code_id : ℕ
  pub user_id : ℕ

pub record Platform : Type 0 where
  pub promos : ℕ → Option PromoCode
  pub code_index : String → Option ℕ
  pub redemptions : List Redemption
  pub accounts : ℕ → Account
  pub account_created_at : ℕ → Timestamp

pub record RedemptionSummary : Type 0 where
  pub kind : PromoKind
  pub plan_code : Option String
  pub days : Option ℕ
  pub credits : Option ℕ
  pub discount_percent : Option ℕ

-- A transaction on the account of `user` within one on the platform.
abbrev pub keep_account : {A : Type 0} → Platform → ℕ → Result (A × Account) → Result (A × Platform)
keep_account s user (ok (x, a)) =
    ok (x, record s { accounts = λ u. if u == user then a else s.accounts u })
keep_account s user (err e) = err e

abbrev pub on_account : {A : Type 0} → ℕ → Tx Account A → Tx Platform A
on_account user m s = keep_account s user (m (s.accounts user))

abbrev pub is_by : ℕ → ℕ → Redemption → Bool
is_by id user r = r.promo_code_id == id && r.user_id == user

abbrev pub is_new_enough : Platform → PromoCode → ℕ → Bool
is_new_enough s promo user =
    not promo.new_users_only
    || leb (unwrap_or promo.starts_at promo.created_at) (s.account_created_at user)

-- The checks of a code that is found, before anything is written.
unfoldable pub check_promo : Timestamp → ℕ → ℕ → PromoCode → Tx Platform (Unit {0})
check_promo now user id promo = do
  fail_if (is_some promo.disabled_at) promo_code_invalid
  fail_if (is_some_and (λ start. ltb now start) promo.starts_at) promo_code_invalid
  fail_if (is_some_and (λ end. leb end now) promo.expires_at) promo_code_expired
  already ← gets (λ s. any (is_by id user) s.redemptions)
  fail_if already promo_code_already_redeemed
  old ← gets (λ s. not (is_new_enough s promo user))
  fail_if old promo_code_not_eligible

abbrev pub has_room : PromoCode → Bool
has_room promo = is_none_or (λ most. ltb promo.redemptions_count most) promo.max_redemptions

-- The counting UPDATE and the INSERT of the redemption; its uniqueness was checked above.
unfoldable pub claim_redemption : ℕ → ℕ → PromoCode → Tx Platform (Unit {0})
claim_redemption user id promo = do
  fail_if (not (has_room promo)) promo_code_exhausted
  modify (λ s. record s {
    promos = λ k.
        if k == id
        then some (record promo { redemptions_count = promo.redemptions_count + 1 })
        else s.promos k;
    redemptions = record { promo_code_id = id; user_id = user } ∷ s.redemptions;
  })

abbrev pub ignore : {A : Type 0} → Tx Account A → Tx Account (Unit {0})
ignore m = m >> pure tt

-- What the code gives to the account.
abbrev pub apply_promo : Timestamp → String → PromoCode → Tx Account (Unit {0})
apply_promo now trial_plan promo = elim promo.kind [
  | plan_grant ↦
      ignore (
        grant_plan_time now (unwrap_or promo.plan_code "") promo.duration_days promo_code none none)
  | trial_extension ↦ ignore (extend_trial now (max (unwrap_or promo.duration_days 0) 1) trial_plan)
  | credits ↦ add_credits (pos (unwrap_or promo.credits 0)) "promo_code"
  | discount ↦ pure tt
]

unfoldable pub give_promo : Timestamp → String → ℕ → PromoCode → Tx Platform RedemptionSummary
give_promo now trial_plan user promo = do
  on_account user (apply_promo now trial_plan promo)
  pure (record {
    kind = promo.kind;
    plan_code = promo.plan_code;
    days = promo.duration_days;
    credits = promo.credits;
    discount_percent = promo.discount_percent;
  })

unfoldable pub redeem_found : Timestamp → String → ℕ → ℕ → PromoCode → Tx Platform RedemptionSummary
redeem_found now trial_plan user id promo = do
  check_promo now user id promo
  claim_redemption user id promo
  give_promo now trial_plan user promo

abbrev pub row_at : Platform → Option ℕ → Option (ℕ × PromoCode)
row_at s none = none
row_at s (some id) = map_option (λ promo. (id, promo)) (s.promos id)

-- The row of a code, with its key.
abbrev pub promo_of : Platform → String → Option (ℕ × PromoCode)
promo_of s code = row_at s (s.code_index code)

abbrev pub redeem_row :
    Timestamp → String → ℕ → Option (ℕ × PromoCode) → Tx Platform RedemptionSummary
redeem_row now trial_plan user none = fail promo_code_invalid
redeem_row now trial_plan user (some (id, promo)) = redeem_found now trial_plan user id promo

-- `settings.trial_plan` is the argument `trial_plan`.
unfoldable pub redeem_promo_code : Timestamp → String → ℕ → String → Tx Platform RedemptionSummary
redeem_promo_code now trial_plan user code s = redeem_row now trial_plan user (promo_of s code) s
