-- ===== src/Prelude/Lists.antt =====
-- Lists measured by native numbers, Boolean quantifiers, and predicates by recursion.
use Prim.Native.Nat.{ℕ, suc, ◌+◌, ◌≤◌}
use mathlib.Core.Path.{◌≡◌, refl}
use mathlib.Core.Logic.{◌⊎◌, inl, inr}
use mathlib.Core.Bool.{Bool, true, false, ◌&&◌}
use mathlib.Core.List.{List, [], ◌∷◌}
use mathlib.Core.Option.{Option, none, some}
use native.Mathlib.Omega.{arith}
use setlyst_api.Prelude.Tests.{if◌then◌else◌, Bool-cases, if-both, PartialEq, ◌==◌, nat_eq}

module _ {ℓ} {A : Type ℓ} where
  abbrev pub length : List A → ℕ
  length [] = 0
  length (x ∷ xs) = suc (length xs)

  -- How many elements pass the test (SQL's COUNT with a WHERE).
  abbrev pub count : (A → Bool) → List A → ℕ
  count p [] = 0
  count p (x ∷ xs) = (if p x then 1 else 0) + count p xs

  abbrev pub find : (A → Bool) → List A → Option A
  find p [] = none
  find p (x ∷ xs) = if p x then some x else find p xs

  abbrev pub filter : (A → Bool) → List A → List A
  filter p [] = []
  filter p (x ∷ xs) = if p x then x ∷ filter p xs else filter p xs

  abbrev pub any : (A → Bool) → List A → Bool
  any p [] = false
  any p (x ∷ xs) = if p x then true else any p xs

  -- `UPDATE ... WHERE p`.
  abbrev pub update_where : (A → Bool) → (A → A) → List A → List A
  update_where p f [] = []
  update_where p f (x ∷ xs) = (if p x then f x else x) ∷ update_where p f xs

  pub length-filter-le : (p : A → Bool) (xs : List A) → length (filter p xs) ≤ length xs
  length-filter-le p [] = omega arith
  length-filter-le p (x ∷ xs) = ground (arith, length-filter-le p xs)

module _ {ℓ κ} {A : Type ℓ} where
  abbrev pub All : (A → Type κ) → List A → Type κ
  All P [] = Unit
  All P (x ∷ xs) = P x × All P xs

pub All-map {ℓ κ μ} :
    {A : Type ℓ} {P : A → Type κ} {Q : A → Type μ} (f : (x : A) → P x → Q x) (xs : List A)
    → All P xs
    → All Q xs
All-map f [] h = tt
All-map f (x ∷ xs) h = (f x h.0, All-map f xs h.1)

-- Membership by recursion.
abbrev pub In : {A : Type 0} → A → List A → Type 0
In a [] = ⊥
In a (x ∷ xs) = (a ≡ x) ⊎ In a xs

pub In-filter :
    {A : Type 0} (p : A → Bool) (a : A) (xs : List A) → In a (filter p xs) → (p a ≡ true) × In a xs
In-filter p a [] h = absurd h
In-filter p a (x ∷ xs) h = elim (Bool-cases (p x)) [
  | inl keep ↦ elim (rw keep at h) [
    | inl same ↦ (rw same keep, inl same)
    | inr later ↦ let (passes, at) = In-filter p a xs later in (passes, inr at)
  ]
  | inr drop ↦ let (passes, at) = In-filter p a xs (rw drop at h) in (passes, inr at)
]

pub All-filter {κ} :
    {A : Type 0} (P : A → Type κ) (p : A → Bool) (xs : List A)
    → All P (filter p xs)
    → All (λ x. p x ≡ true → P x) xs
All-filter P p [] h = tt
All-filter P p (x ∷ xs) h = elim (Bool-cases (p x)) [
  | inl keep ↦ let h' = rw keep at h in (λ _. h'.0, All-filter P p xs h'.1)
  | inr drop ↦ (λ keep. absurd (ground arith), All-filter P p xs (rw drop at h))
]

module _ {ℓ} {A : Type ℓ} where
  pub count_none : (p : A → Bool) (xs : List A) → any p xs ≡ false → count p xs ≡ 0
  count_none p [] h = refl
  count_none p (x ∷ xs) h = ground (arith, count_none p xs)

  -- An element that passes the test and stands before none that does is the only one.
  pub count_first :
      (p : A → Bool) (x : A) (xs : List A)
      → count p xs ≤ 1
      → (p x ≡ true → any p xs ≡ false)
      → count p (x ∷ xs) ≤ 1
  count_first p x xs few first = elim (Bool-cases (p x)) [
    | inl passes ↦ let zero = count_none p xs (first passes) in ground (arith, passes, zero)
    | inr fails ↦ ground (arith, fails, few)
  ]

  pub count_rest :
      (p : A → Bool) (x : A) (xs : List A) → p x ≡ false → count p xs ≡ 0 → count p (x ∷ xs) ≡ 0
  count_rest p x xs fails rest = ground (arith, fails, rest)

  -- A test that fewer elements pass counts no more of them.
  pub count_mono :
      (p q : A → Bool) (xs : List A) → ((x : A) → p x ≡ true → q x ≡ true) → count p xs ≤ count q xs
  count_mono p q [] h = omega arith
  count_mono p q (x ∷ xs) h = elim (Bool-cases (p x)) [
    | inl passes ↦
        let rest = count_mono p q xs h in
        let also = h x passes in ground (arith, passes, also, rest)
    | inr fails ↦ let rest = count_mono p q xs h in ground (arith, fails, rest)
  ]

  -- An update that the test does not see.
  pub count-update_where :
      (p q : A → Bool) (f : A → A) (xs : List A)
      → ((x : A) → p (f x) ≡ p x)
      → count p (update_where q f xs) ≡ count p xs
  count-update_where p q f [] unseen = refl
  count-update_where p q f (x ∷ xs) unseen =
      let rest = count-update_where p q f xs unseen in
      elim (Bool-cases (q x)) [
        | inl here ↦ rw (here, unseen x, rest) refl
        | inr other ↦ rw (other, rest) refl
      ]

pub All-update_where {ℓ κ} :
    {A : Type ℓ} {P : A → Type κ} (q : A → Bool) (f : A → A) (xs : List A)
    → ((x : A) → P x → P (f x))
    → All P xs
    → All P (update_where q f xs)
All-update_where q f [] keeps h = tt
All-update_where {P = P} q f (x ∷ xs) keeps h =
    (if-both P (q x) (f x) x (λ _. keeps x h.0) (λ _. h.0), All-update_where q f xs keeps h.1)

-- Equality of texts and byte strings, as lists of numbers.
abbrev pub list_same : List ℕ → List ℕ → Bool
list_same [] [] = true
list_same [] (y ∷ ys) = false
list_same (x ∷ xs) [] = false
list_same (x ∷ xs) (y ∷ ys) = x == y && list_same xs ys

pub list_same_to : (xs ys : List ℕ) → list_same xs ys ≡ true → xs ≡ ys
list_same_to [] [] h = refl
list_same_to [] (y ∷ ys) h = absurd (ground arith)
list_same_to (x ∷ xs) [] h = absurd (ground arith)
list_same_to (x ∷ xs) (y ∷ ys) h = ground (arith, list_same_to xs ys)

pub list_same_refl : (xs : List ℕ) → list_same xs xs ≡ true
list_same_refl [] = refl
list_same_refl (x ∷ xs) = ground (arith, list_same_refl xs)

instance abbrev pub list_eq : PartialEq (List ℕ)
list_eq = record {
  eq = list_same;
  eq_path = λ xs ys. (list_same_to xs ys, λ e. rw e (list_same_refl ys));
}
