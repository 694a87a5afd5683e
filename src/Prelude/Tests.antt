-- ===== src/Prelude/Tests.antt =====
-- Boolean tests, the conditional, and equality as an interface for numbers and texts.
use Prim.Native.Nat.{ℕ, ◌≤◌, ◌<◌, compare, Ordering}
use Prim.Native.String.{String}
use mathlib.Core.Path.{◌≡◌, refl}
use mathlib.Core.Logic.{◌↔◌, ◌⊎◌, inl, inr}
use mathlib.Core.Bool.{Bool, true, false, ◌&&◌}
use mathlib.Core.Option.{Option, none, some}
use native.Mathlib.Omega.{arith}
use text.Mathlib.Text.{◌==◌ as text_same}
use text.Mathlib.TextEquality.{eq_iff as text_iff}

abbrev pub ltb : ℕ → ℕ → Bool
ltb a b = elim (compare a b) [ Ordering.lt ↦ true | _ ↦ false ]

abbrev pub leb : ℕ → ℕ → Bool
leb a b = elim (compare a b) [ Ordering.gt ↦ false | _ ↦ true ]

abbrev pub nat_same : ℕ → ℕ → Bool
nat_same a b = elim (compare a b) [ Ordering.eq ↦ true | _ ↦ false ]

pub nat_same_iff : (a b : ℕ) → (nat_same a b ≡ true) ↔ (a ≡ b)
nat_same_iff a b = ground arith

infix 1 if◌then◌else◌
abbrev pub if◌then◌else◌ {ℓ} : {A : Type ℓ} → Bool → A → A → A
if true then x else y = x
if false then x else y = y

-- Rust's `PartialEq`: a test that decides equality.
pub record PartialEq {ℓ} (T : Type ℓ) : Type ℓ where
  pub eq : T → T → Bool
  pub eq_path : (x y : T) → (eq x y ≡ true) ↔ (x ≡ y)

abbrev pub option_same {ℓ} : {T : Type ℓ} ⦃p : PartialEq T⦄ → Option T → Option T → Bool
option_same ⦃p⦄ (some x) (some y) = p.eq x y
option_same none none = true
option_same _ _ = false

pub option_same_iff {ℓ} :
    {T : Type ℓ} ⦃p : PartialEq T⦄ (x y : Option T) → (option_same x y ≡ true) ↔ (x ≡ y)
option_same_iff ⦃p⦄ (some x) (some y) = ground (arith, p.eq_path x y)
option_same_iff (some x) none = ground arith
option_same_iff none (some y) = ground arith
option_same_iff none none = ((λ _. refl), (λ _. refl))

instance abbrev pub option_eq {ℓ} : {T : Type ℓ} ⦃p : PartialEq T⦄ → PartialEq (Option T)
option_eq = record { eq = option_same; eq_path = option_same_iff }

instance abbrev pub text_eq : PartialEq String
text_eq = record { eq = text_same; eq_path = text_iff }

instance abbrev pub nat_eq : PartialEq ℕ
nat_eq = record { eq = nat_same; eq_path = nat_same_iff }

infix 50 ◌==◌
abbrev pub ◌==◌ {ℓ} : {T : Type ℓ} ⦃p : PartialEq T⦄ → T → T → Bool
◌==◌ ⦃p⦄ x y = p.eq x y

pub ==→≡ {ℓ} : {T : Type ℓ} ⦃p : PartialEq T⦄ (x y : T) → (x == y) ≡ true → x ≡ y
==→≡ ⦃p⦄ x y h = (p.eq_path x y).0 h

pub ==-refl {ℓ} : {T : Type ℓ} ⦃p : PartialEq T⦄ (x : T) → (x == x) ≡ true
==-refl ⦃p⦄ x = (p.eq_path x x).1 refl

pub ltb→lt : (a b : ℕ) → ltb a b ≡ true → a < b
ltb→lt a b h = ground arith

pub lt→ltb : (a b : ℕ) → a < b → ltb a b ≡ true
lt→ltb a b h = ground arith

pub leb→le : (a b : ℕ) → leb a b ≡ true → a ≤ b
leb→le a b h = ground arith

pub le→leb : (a b : ℕ) → a ≤ b → leb a b ≡ true
le→leb a b h = ground arith

-- To split on a computed value and keep the equation.
pub Bool-cases : (b : Bool) → (b ≡ true) ⊎ (b ≡ false)
Bool-cases true = inl refl
Bool-cases false = inr refl

pub Option-cases {ℓ} : {A : Type ℓ} (o : Option A) → (o ≡ none) ⊎ ((a : A) × (o ≡ some a))
Option-cases none = inl refl
Option-cases (some a) = inr (a, refl)

pub some_back {ℓ} : {A : Type ℓ} {a b : A} → some a ≡ some b → a ≡ b
some_back e = cc

-- `Option::is_some_and` and `Option::is_none_or`.
abbrev pub is_some_and {ℓ} : {A : Type ℓ} → (A → Bool) → Option A → Bool
is_some_and p none = false
is_some_and p (some a) = p a

abbrev pub is_none_or {ℓ} : {A : Type ℓ} → (A → Bool) → Option A → Bool
is_none_or p none = true
is_none_or p (some a) = p a

abbrev pub is_some {ℓ} : {A : Type ℓ} → Option A → Bool
is_some none = false
is_some (some a) = true

abbrev pub unwrap_or {ℓ} : {A : Type ℓ} → Option A → A → A
unwrap_or none d = d
unwrap_or (some a) d = a

-- `Option::filter`.
abbrev pub keep_if {ℓ} : {A : Type ℓ} → (A → Bool) → Option A → Option A
keep_if p none = none
keep_if p (some a) = if p a then some a else none

abbrev pub bind_option {ℓ κ} : {A : Type ℓ} {B : Type κ} → Option A → (A → Option B) → Option B
bind_option none f = none
bind_option (some a) f = f a

abbrev pub map_option {ℓ κ} : {A : Type ℓ} {B : Type κ} → (A → B) → Option A → Option B
map_option f none = none
map_option f (some a) = some (f a)

abbrev pub is_none {ℓ} : {A : Type ℓ} → Option A → Bool
is_none none = true
is_none (some a) = false

-- What both branches have, the conditional has.
pub if-both {ℓ κ} :
    {A : Type ℓ} (P : A → Type κ) (b : Bool) (x y : A)
    → (b ≡ true → P x)
    → (b ≡ false → P y)
    → P (if b then x else y)
if-both P true x y h k = h refl
if-both P false x y h k = k refl

pub &&-true : (a b : Bool) → (a && b) ≡ true → (a ≡ true) × (b ≡ true)
&&-true a b h = (ground arith, ground arith)
