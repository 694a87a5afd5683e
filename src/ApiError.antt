-- ===== src/ApiError.antt =====
-- src/errors/api_error.rs: the error codes that the modelled handlers answer with, each with the
-- fields of its `meta`, and the result type of a handler.
use setlyst_api.Prelude.Int.{ℤ}
use setlyst_api.Prelude.{ℕ, refl, arith, String, Option, Bool, true, false, ◌≡◌}

pub data ApiError : Type 0 where
  not_found database_error payment_provider_error : ApiError
  staff_cannot_subscribe paid_subscription_active plan_not_found : ApiError
  promo_code_invalid promo_code_expired promo_code_already_redeemed : ApiError
  promo_code_not_eligible promo_code_exhausted : ApiError
  reward_not_found no_paid_subscription withdrawal_limit_reached : ApiError
  insufficient_credits : (balance : ℤ) → (required : ℕ) → ApiError
  withdrawal_not_eligible : (eligible_until : Option ℕ) → ApiError
  email_not_verified : (feature : String) → ApiError
  feature_not_in_plan : (feature : String) → (plan : Option String) → ApiError
  quota_exceeded : (resource : String) → (limit : ℕ) → ApiError
  too_many_attempts : (retry_after_seconds : ℕ) → ApiError
  invalid_code : (attempts_left : ℕ) → ApiError
  invalid_two_factor_code : (attempts_left : ℕ) → ApiError
  code_expired : ApiError

pub data Result {ℓ} (A : Type ℓ) : Type ℓ where
  ok : A → Result A
  err : ApiError → Result A

-- A database transaction over a state `S`: an error rolls the state back, so it carries none.
abbrev pub Tx : Type 0 → Type 0 → Type 0
Tx S A = S → Result (A × S)

infixl 5 ◌>>=◌ ◌>>◌
abbrev pub ◌>>=◌ : {S A B : Type 0} → Tx S A → (A → Tx S B) → Tx S B
◌>>=◌ m f s = elim (m s) [ ok (a, s') ↦ f a s' | err e ↦ err e ]

abbrev pub ◌>>◌ : {S A B : Type 0} → Tx S A → Tx S B → Tx S B
m >> k = m >>= λ _. k

module _ {S : Type 0} where
  abbrev pub pure : {A : Type 0} → A → Tx S A
  pure a s = ok (a, s)

  abbrev pub fail : {A : Type 0} → ApiError → Tx S A
  fail e s = err e

  abbrev pub gets : {A : Type 0} → (S → A) → Tx S A
  gets f s = ok (f s, s)

  abbrev pub modify : (S → S) → Tx S (Unit {0})
  modify f s = ok (tt, f s)

  -- `return Err(e)` when the test holds.
  abbrev pub fail_if : Bool → ApiError → Tx S (Unit {0})
  fail_if true e = fail e
  fail_if false e = pure tt

-- A transaction has one outcome.
pub ok-state :
    {S A : Type 0} {r : Result (A × S)} {x y : A} {s t : S} → r ≡ ok (x, s) → r ≡ ok (y, t) → s ≡ t
ok-state e f = cc

pub ok-value :
    {S A : Type 0} {r : Result (A × S)} {x y : A} {s t : S} → r ≡ ok (x, s) → r ≡ ok (y, t) → x ≡ y
ok-value e f = cc

pub >>=-run :
    {S A B : Type 0} (m : Tx S A) (f : A → Tx S B) {s t : S} {x : A}
    → m s ≡ ok (x, t)
    → (m >>= f) s ≡ f x t
>>=-run m f e = rw (e, ◌>>=◌)

bind_result-ok :
    {S A B : Type 0} (r : Result (A × S)) (f : A → Tx S B) {t : S} {y : B}
    → (elim r [ ok (a, s) ↦ f a s | err e ↦ err e ]) ≡ ok (y, t)
    → (x : A) × (u : S) × (r ≡ ok (x, u)) × (f x u ≡ ok (y, t))
bind_result-ok (ok (a, s)) f h = (a, s, refl, h)
bind_result-ok (err e) f h = absurd (ground arith)

-- What a transaction that goes through did first.
pub >>=-ok :
    {S A B : Type 0} (m : Tx S A) (f : A → Tx S B) {s t : S} {y : B}
    → (m >>= f) s ≡ ok (y, t)
    → (x : A) × (u : S) × (m s ≡ ok (x, u)) × (f x u ≡ ok (y, t))
>>=-ok m f {s} h = bind_result-ok (m s) f h

pub fail_if-ok :
    {S : Type 0} (b : Bool) (e : ApiError) {s t : S} {u : Unit {0}}
    → fail_if b e s ≡ ok (u, t)
    → (b ≡ false) × (s ≡ t)
fail_if-ok true e h = absurd (ground arith)
fail_if-ok false e h = (refl, ground arith)

pub >>-ok :
    {S A B : Type 0} (m : Tx S A) (k : Tx S B) (s t : S) {y : B}
    → (m >> k) s ≡ ok (y, t)
    → (x : A) × (u : S) × (m s ≡ ok (x, u)) × (k u ≡ ok (y, t))
>>-ok m k s t h = >>=-ok m (λ _. k) {s = s} {t = t} h
