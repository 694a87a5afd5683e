-- ===== src/Billing/Referrals.antt =====
-- src/services/billing.rs: what a referral pays. The state is the referral of one referred account
-- (`referrals.referred_id` is unique) with the credit ledger of all accounts, newest first.
pub mod Laws
use setlyst_api.Prelude.{
  ℕ, ◌+◌, ◌-◌, min, String, Bool, true, false, not, ◌&&◌, ◌||◌, ◌==◌, text_eq, nat_eq, option_eq,
  Option, none, some, List, [], ◌∷◌, leb, ltb, is_none, is_some_and, if◌then◌else◌, Timestamp, days,
}
use setlyst_api.Prelude.Int.{ℤ, pos, negsuc, ◌+ℤ◌, ◌-ℤ◌, ltb_ℤ, pos_part}
use setlyst_api.Billing.Credits.{is_zero}

pub data ReferralStatus : Type 0 where
  pending rewarded rejected : ReferralStatus

pub record ReferralSettings : Type 0 where
  pub enabled : Bool
  pub referrer_credits : ℕ
  pub referred_credits : ℕ
  pub max_rewarded_per_month : ℕ

pub record Referral : Type 0 where
  pub id : ℕ
  pub referrer_id : ℕ
  pub referred_id : ℕ
  pub status : ReferralStatus
  pub note : Option String
  pub rewarded_at : Option Timestamp
  pub referred_rewarded_at : Option Timestamp

-- A row of `credit_ledger`.
pub record LedgerEntry : Type 0 where
  pub user_id : ℕ
  pub amount : ℤ
  pub reason : String
  pub reference_id : Option ℕ

pub record Referrals : Type 0 where
  pub referral : Referral
  pub ledger : List LedgerEntry

abbrev pub is_pending : ReferralStatus → Bool
is_pending pending = true
is_pending _ = false

abbrev pub is_rewarded : ReferralStatus → Bool
is_rewarded rewarded = true
is_rewarded _ = false

-- `add_credits`, to any account.
unfoldable pub credit : ℕ → ℤ → String → ℕ → List LedgerEntry → List LedgerEntry
credit user amount reason reference ledger =
    if is_zero amount
    then ledger
    else record { user_id = user; amount = amount; reason = reason; reference_id = some reference }
      ∷ ledger

unfoldable pub reject_referral : String → Referrals → Referrals
reject_referral note s =
    if is_pending s.referral.status
    then record s { referral = record s.referral { status = rejected; note = some note } }
    else s

-- The bonus of the referred account, claimed once.
unfoldable pub pay_referred : ReferralSettings → Timestamp → Referrals → Referrals
pay_referred settings now s =
    if is_pending s.referral.status && is_none s.referral.referred_rewarded_at
    then record {
      referral = record s.referral { referred_rewarded_at = some now };
      ledger =
          credit s.referral.referred_id (pos settings.referred_credits) "referral_referred"
            s.referral.id s.ledger;
    }
    else s

-- `same_mailbox` is the comparison of the two accounts' canonical addresses.
unfoldable pub qualify_referral : ReferralSettings → Bool → Timestamp → Referrals → Referrals
qualify_referral settings same_mailbox now s =
    if not (is_pending s.referral.status)
    then s
    else if not settings.enabled
    then reject_referral "referral_disabled" s
    else if s.referral.referrer_id == s.referral.referred_id || same_mailbox
    then reject_referral "self_referral" s
    else pay_referred settings now s

unfoldable pub pay_referrer : ReferralSettings → Timestamp → Referrals → Referrals
pay_referrer settings now s =
    if is_pending s.referral.status
    then record {
      referral = record s.referral { status = rewarded; rewarded_at = some now };
      ledger =
          credit s.referral.referrer_id (pos settings.referrer_credits) "referral_referrer"
            s.referral.id s.ledger;
    }
    else s

-- `rewarded_this_month` counts the referrals of the same referrer that were rewarded this month.
unfoldable pub reward_referrer_on_payment : ReferralSettings → ℕ → Timestamp → Referrals → Referrals
reward_referrer_on_payment settings rewarded_this_month now s =
    if not (is_pending s.referral.status)
    then s
    else if not settings.enabled
    then reject_referral "referral_disabled" s
    else if s.referral.referrer_id == s.referral.referred_id
    then reject_referral "self_referral" s
    else if leb settings.max_rewarded_per_month rewarded_this_month
    then reject_referral "monthly_limit_reached" s
    else pay_referrer settings now s

abbrev pub is_of_reward : ℕ → ℕ → LedgerEntry → Bool
is_of_reward referrer referral e =
    e.user_id == referrer
    && (e.reference_id == some referral
        && (e.reason == "referral_referrer" || e.reason == "referral_reversed"))

-- The SUM of what the referrer was paid for this referral, less what was taken back.
unfoldable pub granted : ℕ → ℕ → List LedgerEntry → ℤ
granted referrer referral [] = pos 0
granted referrer referral (e ∷ es) =
    (if is_of_reward referrer referral e then e.amount else pos 0) +ℤ granted referrer referral es

abbrev pub referral_clawback_days : ℕ
referral_clawback_days = 30

abbrev pub i32_max : ℕ
i32_max = 2_147_483_647

-- `granted` is positive here, so the debit is its number.
unfoldable pub take_back : ℤ → Referrals → List LedgerEntry
take_back amount s =
    if ltb_ℤ (pos 0) amount
    then credit s.referral.referrer_id (pos 0 -ℤ pos (min (pos_part amount) i32_max))
        "referral_reversed" s.referral.id s.ledger
    else s.ledger

-- A reward of the last days is still taken back.
abbrev pub is_reversible : Timestamp → Referral → Bool
is_reversible now r =
    is_rewarded r.status
    && is_some_and (λ at. leb now (at + days referral_clawback_days)) r.rewarded_at

-- `reason` is the note that it writes.
unfoldable pub reverse_referral_reward : String → Timestamp → Referrals → Referrals
reverse_referral_reward reason now s =
    if is_reversible now s.referral
    then record {
      referral = record s.referral { status = rejected; note = some reason };
      ledger = take_back (granted s.referral.referrer_id s.referral.id s.ledger) s;
    }
    else s
