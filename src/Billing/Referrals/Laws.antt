-- ===== src/Billing/Referrals/Laws.antt =====
-- A referral mints no credits that are not earned.
use setlyst_api.Prelude.{
  ℕ, zero, suc, ◌≤◌, ◌≡◌, refl, sym, ap, ◌∙◌, String, Bool, true, false, ◌&&◌, ◌||◌, ◌==◌, ==-refl,
  text_eq, nat_eq, option_eq, some, List, arith, Timestamp, if◌then◌else◌, if-both, not, leb, min,
}
use mathlib.Core.Path.{subst}
use setlyst_api.Prelude.Int.{ℤ, pos, negsuc, ◌+ℤ◌, ◌-ℤ◌, ◌≤ℤ◌, int_laws, ltb_ℤ}
use setlyst_api.Billing.Referrals.{
  ReferralSettings, ReferralStatus, pending, rewarded, rejected, LedgerEntry, Referrals, credit,
  reject_referral, pay_referred, qualify_referral, pay_referrer, reward_referrer_on_payment,
  granted, take_back, reverse_referral_reward, is_of_reward, is_rewarded, is_pending, not, leb, min,
  ltb_ℤ, i32_max, is_reversible,
}

-- The most credits that the validation of the settings lets a reward be.
abbrev max_credits : ℕ
max_credits = 100_000

-- What the referrer has been paid for the referral, by its status.
abbrev pub IsOwed : ReferralStatus → ℤ → Type 0
IsOwed rewarded amount = (pos 0 ≤ℤ amount) × (amount ≤ℤ pos max_credits)
IsOwed pending amount = amount ≡ pos 0
IsOwed rejected amount = amount ≡ pos 0

abbrev pub IsSettled : Referrals → Type 0
IsSettled s = IsOwed s.referral.status (granted s.referral.referrer_id s.referral.id s.ledger)

abbrev is_reward_reason : String → Bool
is_reward_reason reason = reason == "referral_referrer" || reason == "referral_reversed"

+ℤ_zero : (a : ℤ) → a ≡ pos 0 +ℤ a
+ℤ_zero a = grind int_laws

is_of_reward-own :
    (referrer referral : ℕ) (amount : ℤ) (reason : String)
    → is_reward_reason reason ≡ true
    → is_of_reward referrer referral (record {
      user_id = referrer;
      amount = amount;
      reason = reason;
      reference_id = some referral;
    })
      ≡ true
is_of_reward-own referrer referral amount reason h = rw (==-refl referrer, ==-refl referral, h) refl

is_of_reward-other :
    (referrer referral user : ℕ) (amount : ℤ) (reason : String)
    → is_reward_reason reason ≡ false
    → is_of_reward referrer referral
        (record { user_id = user; amount = amount; reason = reason; reference_id = some referral })
      ≡ false
is_of_reward-other referrer referral user amount reason h = ground (arith, h)

granted-credit :
    (referrer referral : ℕ) (amount : ℤ) (reason : String) (ledger : List LedgerEntry)
    → is_reward_reason reason ≡ true
    → granted referrer referral (credit referrer amount reason referral ledger)
      ≡ amount +ℤ granted referrer referral ledger
unfolding granted credit
granted-credit referrer referral (pos zero) reason ledger h =
    +ℤ_zero (granted referrer referral ledger)
granted-credit referrer referral (pos (suc n)) reason ledger h =
    ap (λ b. (if b then pos (suc n) else pos 0) +ℤ granted referrer referral ledger)
      (is_of_reward-own referrer referral (pos (suc n)) reason h)
granted-credit referrer referral (negsuc n) reason ledger h =
    ap (λ b. (if b then negsuc n else pos 0) +ℤ granted referrer referral ledger)
      (is_of_reward-own referrer referral (negsuc n) reason h)

granted-credit_other :
    (referrer referral user : ℕ) (amount : ℤ) (reason : String) (ledger : List LedgerEntry)
    → is_reward_reason reason ≡ false
    → granted referrer referral ledger
      ≡ granted referrer referral (credit user amount reason referral ledger)
unfolding granted credit
granted-credit_other referrer referral user (pos zero) reason ledger h = refl
granted-credit_other referrer referral user (pos (suc n)) reason ledger h =
    +ℤ_zero (granted referrer referral ledger)
    ∙ ap (λ b. (if b then pos (suc n) else pos 0) +ℤ granted referrer referral ledger)
        (sym (is_of_reward-other referrer referral user (pos (suc n)) reason h))
granted-credit_other referrer referral user (negsuc n) reason ledger h =
    +ℤ_zero (granted referrer referral ledger)
    ∙ ap (λ b. (if b then negsuc n else pos 0) +ℤ granted referrer referral ledger)
        (sym (is_of_reward-other referrer referral user (negsuc n) reason h))

pending_owed : (st : ReferralStatus) (a : ℤ) → is_pending st ≡ true → IsOwed st a → a ≡ pos 0
pending_owed pending a e h = h
pending_owed rewarded a e h = absurd (ground arith)
pending_owed rejected a e h = h

rewarded_owed :
    (st : ReferralStatus) (a : ℤ)
    → is_rewarded st ≡ true
    → IsOwed st a
    → (pos 0 ≤ℤ a) × (a ≤ℤ pos max_credits)
rewarded_owed pending a e h = absurd (ground arith)
rewarded_owed rewarded a e h = h
rewarded_owed rejected a e h = absurd (ground arith)

reject_referral-IsSettled :
    (note : String) (s : Referrals) → IsSettled s → IsSettled (reject_referral note s)
unfolding reject_referral
reject_referral-IsSettled note s h =
    if-both IsSettled (is_pending s.referral.status)
      (record s { referral = record s.referral { status = rejected; note = some note } }) s
      (λ e. pending_owed s.referral.status _ e h) (λ _. h)

pay_referred-IsSettled :
    (settings : ReferralSettings) (now : Timestamp) (s : Referrals)
    → IsSettled s
    → IsSettled (pay_referred settings now s)
unfolding pay_referred
pay_referred-IsSettled settings now s h =
    if-both IsSettled _ _ s
      (λ _.
        subst (IsOwed s.referral.status)
          (granted-credit_other s.referral.referrer_id s.referral.id s.referral.referred_id
            (pos settings.referred_credits) "referral_referred" s.ledger refl)
          h)
      (λ _. h)

qualify_referral-IsSettled :
    (settings : ReferralSettings) (same_mailbox : Bool) (now : Timestamp) (s : Referrals)
    → IsSettled s
    → IsSettled (qualify_referral settings same_mailbox now s)
unfolding qualify_referral
qualify_referral-IsSettled settings same_mailbox now s h =
    if-both IsSettled (not (is_pending s.referral.status)) s _ (λ _. h)
      (λ _.
        if-both IsSettled (not settings.enabled) (reject_referral "referral_disabled" s) _
          (λ _. reject_referral-IsSettled "referral_disabled" s h)
          (λ _.
            if-both IsSettled (s.referral.referrer_id == s.referral.referred_id || same_mailbox)
              (reject_referral "self_referral" s) (pay_referred settings now s)
              (λ _. reject_referral-IsSettled "self_referral" s h)
              (λ _. pay_referred-IsSettled settings now s h)))

pay_referrer-IsSettled :
    (settings : ReferralSettings) (now : Timestamp) (s : Referrals)
    → settings.referrer_credits ≤ max_credits
    → IsSettled s
    → IsSettled (pay_referrer settings now s)
unfolding pay_referrer
pay_referrer-IsSettled settings now s valid h =
    if-both IsSettled _ _ s
      (λ e.
        let none_yet = pending_owed s.referral.status _ e h in
        rw
          (
            granted-credit s.referral.referrer_id s.referral.id (pos settings.referrer_credits)
                "referral_referrer" s.ledger refl,
            none_yet,
          )
          (owed settings.referrer_credits valid))
      (λ _. h)
  where
    owed :
        (n : ℕ) → n ≤ max_credits → (pos 0 ≤ℤ pos n +ℤ pos 0) × (pos n +ℤ pos 0 ≤ℤ pos max_credits)
    owed n k = (grind int_laws, grind int_laws)

reward_referrer-IsSettled :
    (settings : ReferralSettings) (this_month : ℕ) (now : Timestamp) (s : Referrals)
    → settings.referrer_credits ≤ max_credits
    → IsSettled s
    → IsSettled (reward_referrer_on_payment settings this_month now s)
unfolding reward_referrer_on_payment
reward_referrer-IsSettled settings this_month now s valid h =
    if-both IsSettled (not (is_pending s.referral.status)) s _ (λ _. h)
      (λ _.
        if-both IsSettled (not settings.enabled) (reject_referral "referral_disabled" s) _
          (λ _. reject_referral-IsSettled "referral_disabled" s h)
          (λ _.
            if-both IsSettled (s.referral.referrer_id == s.referral.referred_id)
              (reject_referral "self_referral" s) _
              (λ _. reject_referral-IsSettled "self_referral" s h)
              (λ _.
                if-both IsSettled (leb settings.max_rewarded_per_month this_month)
                  (reject_referral "monthly_limit_reached" s) (pay_referrer settings now s)
                  (λ _. reject_referral-IsSettled "monthly_limit_reached" s h)
                  (λ _. pay_referrer-IsSettled settings now s valid h))))

nothing_left : (n : ℕ) → n ≤ max_credits → (pos 0 -ℤ pos (min n i32_max)) +ℤ pos n ≡ pos 0
nothing_left n h = rw (small) (cancels n)
  where
    small : min n i32_max ≡ n
    small = omega arith

    cancels : (m : ℕ) → (pos 0 -ℤ pos m) +ℤ pos m ≡ pos 0
    cancels m = grind int_laws

take_back_lem :
    (s : Referrals) (amount : ℤ)
    → granted s.referral.referrer_id s.referral.id s.ledger ≡ amount
    → pos 0 ≤ℤ amount
    → amount ≤ℤ pos max_credits
    → granted s.referral.referrer_id s.referral.id (take_back amount s) ≡ pos 0
unfolding take_back
take_back_lem s (negsuc n) e low high = absurd (omega arith)
take_back_lem s (pos n) e low high =
    if-both (λ ledger. granted s.referral.referrer_id s.referral.id ledger ≡ pos 0)
      (ltb_ℤ (pos 0) (pos n)) _ s.ledger
      (λ _.
        granted-credit s.referral.referrer_id s.referral.id (pos 0 -ℤ pos (min n i32_max))
          "referral_reversed" s.ledger refl
        ∙ rw e (nothing_left n (omega arith)))
      (λ none_left. e ∙ zero_left n none_left)
  where
    zero_left : (n : ℕ) → ltb_ℤ (pos 0) (pos n) ≡ false → pos n ≡ pos 0
    zero_left n h = ground arith

reverse-IsSettled :
    (reason : String) (now : Timestamp) (s : Referrals)
    → IsSettled s
    → IsSettled (reverse_referral_reward reason now s)
unfolding reverse_referral_reward
reverse-IsSettled reason now s h =
    if-both IsSettled (is_reversible now s.referral)
      (record {
        referral = record s.referral { status = rejected; note = some reason };
        ledger = take_back (granted s.referral.referrer_id s.referral.id s.ledger) s;
      })
      s
      (λ e.
        let (low, high) =
          rewarded_owed s.referral.status _ (both (is_rewarded s.referral.status) _ e) h in
        take_back_lem s _ refl low high)
      (λ _. h)
  where
    both : (a b : Bool) → (a && b) ≡ true → a ≡ true
    both a b e = ground arith

-- What happens to a referral, in any order: the referred account verifies its e-mail address or
-- pays, or its payment is taken back. The settings may change in between.
pub data ReferralStep (s : Referrals) : Referrals → Type 0 where
  verified :
      (settings : ReferralSettings) (same_mailbox : Bool) (now : Timestamp)
      → ReferralStep s (qualify_referral settings same_mailbox now s)
  paid :
      (settings : ReferralSettings) (this_month : ℕ) (now : Timestamp)
      → settings.referrer_credits ≤ max_credits
      → ReferralStep s (reward_referrer_on_payment settings this_month now s)
  reversed :
      (reason : String) (now : Timestamp) → ReferralStep s (reverse_referral_reward reason now s)

pub data ReferralRun (s : Referrals) : Referrals → Type 0 where
  here : ReferralRun s s
  next : {mid after : Referrals} → ReferralRun s mid → ReferralStep mid after → ReferralRun s after

step-IsSettled : (s after : Referrals) → ReferralStep s after → IsSettled s → IsSettled after
step-IsSettled s after (verified settings same_mailbox now) h =
    qualify_referral-IsSettled settings same_mailbox now s h
step-IsSettled s after (paid settings this_month now valid) h =
    reward_referrer-IsSettled settings this_month now s valid h
step-IsSettled s after (reversed reason now) h = reverse-IsSettled reason now s h

-- From a referral that this holds of, however verifications, payments and reversals follow each
-- other, with rewards of at most 100,000 credits: the referrer's credits for the referral, less what was taken back, are between 0 and
-- 100,000 while it is rewarded, and exactly 0 while it is pending or rejected.
pub ReferralRun-IsSettled :
    (s after : Referrals) → IsSettled s → ReferralRun s after → IsSettled after
ReferralRun-IsSettled s after h here = h
ReferralRun-IsSettled s after h (next {mid} run step) =
    step-IsSettled mid after step (ReferralRun-IsSettled s mid h run)
