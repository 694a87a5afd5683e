-- ===== src/Billing/Promo/Laws.antt =====
-- A promo code is redeemed at most as often as it may be, and once by each account.
use setlyst_api.Prelude.{
  some_back, ℕ, ◌+◌, ◌≤◌, ◌≡◌, refl, ap, ◌∙◌, String, true, false, ◌==◌, text_eq, nat_eq, Option,
  none, some, List, ◌∷◌, any, count, arith, Bool-cases, Option-cases, inl, inr, Timestamp,
  if◌then◌else◌, sym, ◌⊎◌, ==→≡, count_first,
}
use setlyst_api.ApiError.{Result, ok, err, ok-state, >>-ok, ◌>>◌, pure}
use setlyst_api.Billing.Promo.{
  PromoCode, Redemption, Platform, RedemptionSummary, is_by, check_promo, claim_redemption,
  has_room, redeem_found, redeem_promo_code, on_account, apply_promo, Account, keep_account,
  give_promo, redeem_row, row_at,
}
use setlyst_api.Billing.Account.{Account}

check_promo-ok :
    (now : Timestamp) (user id : ℕ) (promo : PromoCode) (s t : Platform)
    → check_promo now user id promo s ≡ ok (tt, t)
    → (any (is_by id user) s.redemptions ≡ false) × (s ≡ t)
unfolding check_promo
check_promo-ok now user id promo s t h = (ground arith, ground arith)

-- The platform once the redemption is counted and recorded.
abbrev claimed : ℕ → ℕ → PromoCode → Platform → Platform
claimed user id promo s = record s {
  promos = λ k.
      if k == id
      then some (record promo { redemptions_count = promo.redemptions_count + 1 })
      else s.promos k;
  redemptions = record { promo_code_id = id; user_id = user } ∷ s.redemptions;
}

claim_redemption-ok :
    (user id : ℕ) (promo : PromoCode) (s t : Platform)
    → claim_redemption user id promo s ≡ ok (tt, t)
    → (has_room promo ≡ true) × (claimed user id promo s ≡ t)
unfolding claim_redemption
claim_redemption-ok user id promo s t h = elim (Bool-cases (has_room promo)) [
  | inl room ↦ (room, ok-state (rw room refl) h)
  | inr full ↦ absurd (ground (arith, full))
]

on_account-ok :
    {A : Type 0} (user : ℕ) (s t : Platform) (r : Result (A × Account)) {x : A}
    → keep_account s user r ≡ ok (x, t)
    → (t.promos ≡ s.promos) × (t.redemptions ≡ s.redemptions) × (t.code_index ≡ s.code_index)
on_account-ok user s t (ok (y, a)) h =
    let e = ok-state refl h in
    (
      ap (λ (p : Platform). p.promos) (sym e),
      ap (λ (p : Platform). p.redemptions) (sym e),
      ap (λ (p : Platform). p.code_index) (sym e),
    )
on_account-ok user s t (err e) h = absurd (ground arith)

give_promo-keeps :
    (now : Timestamp) (trial_plan : String) (user : ℕ) (promo : PromoCode) (s t : Platform)
    (x : RedemptionSummary)
    → give_promo now trial_plan user promo s ≡ ok (x, t)
    → (t.promos ≡ s.promos) × (t.redemptions ≡ s.redemptions) × (t.code_index ≡ s.code_index)
unfolding give_promo
give_promo-keeps now trial_plan user promo s t x h =
    let (_, u, applied, end) =
      >>-ok (on_account user (apply_promo now trial_plan promo)) (pure _) s t h in
    let same = ok-state refl end in
    let kept =
      on_account-ok user s u (apply_promo now trial_plan promo (s.accounts user)) applied in
    rw (← same) kept

redeem_found-ok :
    (now : Timestamp) (trial_plan : String) (user id : ℕ) (promo : PromoCode) (s t : Platform)
    (x : RedemptionSummary)
    → redeem_found now trial_plan user id promo s ≡ ok (x, t)
    → (any (is_by id user) s.redemptions ≡ false)
      × (has_room promo ≡ true)
      × (t.promos ≡ (claimed user id promo s).promos)
      × (t.redemptions ≡ (claimed user id promo s).redemptions)
unfolding redeem_found
redeem_found-ok now trial_plan user id promo s t x h =
    let (_, s1, checked, h1) =
      >>-ok (check_promo now user id promo)
        (claim_redemption user id promo >> give_promo now trial_plan user promo) s t h in
    let (_, s2, counted, h2) =
      >>-ok (claim_redemption user id promo) (give_promo now trial_plan user promo) s1 t h1 in
    let (fresh, same) = check_promo-ok now user id promo s s1 checked in
    let (room, done) = claim_redemption-ok user id promo s1 s2 counted in
    let (promos, redemptions, index) = give_promo-keeps now trial_plan user promo s2 t x h2 in
    let after = ap (claimed user id promo) same ∙ done in
    (
      fresh,
      room,
      promos ∙ ap (λ (p : Platform). p.promos) (sym after),
      redemptions ∙ ap (λ (p : Platform). p.redemptions) (sym after),
    )

-- How often a code was redeemed, and how often by one account.
abbrev pub redeemed : ℕ → List Redemption → ℕ
redeemed id = count (λ (r : Redemption). r.promo_code_id == id)

-- Each code's counter counts its redemptions and stays within its limit, and no account redeems a
-- code twice.
pub record IsCounted (s : Platform) : Type 0 where
  pub counted :
      (id : ℕ) (promo : PromoCode)
      → s.promos id ≡ some promo
      → redeemed id s.redemptions ≡ promo.redemptions_count
  pub in_limit :
      (id most : ℕ) (promo : PromoCode)
      → s.promos id ≡ some promo
      → promo.max_redemptions ≡ some most
      → promo.redemptions_count ≤ most
  pub once : (id user : ℕ) → count (is_by id user) s.redemptions ≤ 1

-- A row of the table once a redemption is counted: the counted one, or an old one.
claimed-promos :
    (user id k : ℕ) (promo p : PromoCode) (s : Platform)
    → (claimed user id promo s).promos k ≡ some p
    → ((k ≡ id)
        × (promo.redemptions_count + 1 ≡ p.redemptions_count)
        × (promo.max_redemptions ≡ p.max_redemptions))
      ⊎ (((id == k) ≡ false) × (s.promos k ≡ some p))
claimed-promos user id k promo p s e = elim (Bool-cases (k == id)) [
  | inl same ↦
      let now = some_back (rw same at e) in
      inl (
        ==→≡ k id same,
        ap (λ (p : PromoCode). p.redemptions_count) now,
        ap (λ (p : PromoCode). p.max_redemptions) now,
      )
  | inr other ↦ inr (ground (arith, other), rw other at e)
]

is_by-same :
    (user id k u : ℕ)
    → is_by k u (record { promo_code_id = id; user_id = user }) ≡ true
    → (id ≡ k) × (user ≡ u)
is_by-same user id k u h = (ground arith, ground arith)

has_room-below :
    (promo : PromoCode) (most : ℕ)
    → promo.max_redemptions ≡ some most
    → has_room promo ≡ true
    → promo.redemptions_count + 1 ≤ most
has_room-below promo most limit room = let h = rw limit at room in ground (arith, h)

redeemed-first :
    (k id user : ℕ) (rs : List Redemption) {n m : ℕ}
    → k ≡ id
    → redeemed id rs ≡ n
    → n + 1 ≡ m
    → redeemed k (record { promo_code_id = id; user_id = user } ∷ rs) ≡ m
redeemed-first k id user rs same before now =
    let before_k = rw (← same) at before in ground (arith, before_k, now, same)

claimed-IsCounted :
    (user id : ℕ) (promo : PromoCode) (s : Platform)
    → s.promos id ≡ some promo
    → any (is_by id user) s.redemptions ≡ false
    → has_room promo ≡ true
    → IsCounted s
    → IsCounted (claimed user id promo s)
claimed-IsCounted user id promo s found fresh room v = record {
  counted = λ k p e. elim (claimed-promos user id k promo p s e) [
    | inl (same, now, _) ↦
        redeemed-first k id user s.redemptions same (v.counted id promo found) now
    | inr (other, old) ↦ let before = v.counted k p old in ground (arith, before, other)
  ];
  in_limit = λ k most p e m. elim (claimed-promos user id k promo p s e) [
    | inl (_, now, limit) ↦
        let below = has_room-below promo most (limit ∙ m) room in rw (← now) below
    | inr (_, old) ↦ v.in_limit k most p old m
  ];
  once = λ k u.
      count_first (is_by k u) _ s.redemptions (v.once k u)
        (λ same. let (code, account) = is_by-same user id k u same in rw (← code, ← account) fresh);
}

-- The invariant reads two of the tables only.
IsCounted-same :
    (s t : Platform)
    → t.promos ≡ s.promos
    → t.redemptions ≡ s.redemptions
    → IsCounted s
    → IsCounted t
IsCounted-same s t promos redemptions v = record {
  counted = λ id promo e. rw redemptions (v.counted id promo (rw promos at e));
  in_limit = λ id most promo e limit. v.in_limit id most promo (rw promos at e) limit;
  once = λ id user. rw redemptions (v.once id user);
}

redeem_row-IsCounted :
    (now : Timestamp) (trial_plan : String) (user : ℕ) (s t : Platform) (x : RedemptionSummary)
    (index : Option ℕ) (code : String)
    → s.code_index code ≡ index
    → redeem_row now trial_plan user (row_at s index) s ≡ ok (x, t)
    → IsCounted s
    → IsCounted t
redeem_row-IsCounted now trial_plan user s t x none code at h v = absurd (ground arith)
redeem_row-IsCounted now trial_plan user s t x (some id) code at h v =
    elim (Option-cases (s.promos id)) [
      | inl missing ↦ absurd (ground (arith, rw missing at h))
      | inr (promo, found) ↦
          let (fresh, room, promos, redemptions) =
            redeem_found-ok now trial_plan user id promo s t x (rw found at h) in
          IsCounted-same (claimed user id promo s) t promos redemptions
            (claimed-IsCounted user id promo s found fresh room v)
    ]

-- A redemption that goes through, whatever the code and the kind of the promotion, keeps the
-- invariant of the promo codes: a code's counter is the number of its recorded redemptions, the
-- counter stays within the code's limit, and no account has redeemed a code twice.
pub redeem_promo_code-IsCounted :
    (now : Timestamp) (trial_plan : String) (user : ℕ) (code : String) (s t : Platform)
    (x : RedemptionSummary)
    → IsCounted s
    → redeem_promo_code now trial_plan user code s ≡ ok (x, t)
    → IsCounted t
unfolding redeem_promo_code
redeem_promo_code-IsCounted now trial_plan user code s t x v h =
    redeem_row-IsCounted now trial_plan user s t x (s.code_index code) code refl h v
