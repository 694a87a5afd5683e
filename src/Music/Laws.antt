-- ===== src/Music/Laws.antt =====
-- A transposed key is as many semitones away as asked for, and transpositions add up.
use setlyst_api.Prelude.{
  list_eq, nat_eq, some, ℕ, Bool, true, false, ◌≡◌, refl, arith, inl, inr, map_option, Bool-cases,
  sym, ap, ◌∙◌, some_back,
}
use setlyst_api.Prelude.Int.{ℤ, pos, ◌+ℤ◌, int_laws}
use setlyst_api.Music.Keys.{class_of, wrap-add, wrap-lt, every_key, written_class}
use setlyst_api.Music.{
  Tonality, written, wrap, transpose_tonality, from_name, ◌+ℤ◌, map_option, is_zero,
}
use setlyst_api.Billing.Credits.{is_zero}

wrap-wrap : (x : ℤ) → wrap (pos (wrap x)) ≡ wrap x
unfolding wrap
wrap-wrap x = ground arith

+ℤ_zero : (x : ℤ) → x +ℤ pos 0 ≡ x
+ℤ_zero x = grind int_laws

+ℤ_assoc : (x a b : ℤ) → (x +ℤ a) +ℤ b ≡ x +ℤ (a +ℤ b)
+ℤ_assoc x a b = grind int_laws

zero_only : (n : ℤ) → is_zero n ≡ true → n ≡ pos 0
zero_only n h = ground arith

-- The pitch class `n` semitones on.
abbrev pub shifted : ℤ → ℕ × Bool → ℕ × Bool
shifted n (index, minor) = (wrap (pos index +ℤ n), minor)

-- What a key is moved to by its class alone.
transpose_tonality-written :
    (t : Tonality) (n : ℤ)
    → is_zero n ≡ false
    → (c : ℕ × Bool) × (class_of t ≡ some c)
      × (from_name (written (shifted n c).1 (shifted n c).0) ≡ some (transpose_tonality t n))
      × (class_of (transpose_tonality t n) ≡ some (shifted n c))
unfolding transpose_tonality
transpose_tonality-written t n moves =
    let ((pitch, minor), e) = every_key t in
    let same = wrap-add pitch (pos (wrap pitch)) n (sym (wrap-wrap pitch)) in
    let (u, found, class) = written_class minor (wrap (pitch +ℤ n)) (wrap-lt (pitch +ℤ n)) in
    (
      (wrap pitch, minor),
      rw e refl,
      rw (moves, e, found) (rw (← same) found),
      rw (moves, e, found) (rw (← same) class),
    )

unmoved : (t : Tonality) → transpose_tonality t (pos 0) ≡ t
unfolding transpose_tonality
unmoved t = refl

unmoved-class_of :
    (t : Tonality)
    → class_of (transpose_tonality t (pos 0)) ≡ map_option (shifted (pos 0)) (class_of t)
unmoved-class_of t =
    let ((pitch, minor), e) = every_key t in
    rw (unmoved t, e, +ℤ_zero (pos (wrap pitch)), wrap-wrap pitch) refl

shifted-shifted : (a b : ℤ) (c : ℕ × Bool) → shifted b (shifted a c) ≡ shifted (a +ℤ b) c
shifted-shifted a b (index, minor) =
    ap (λ i. (i, minor))
      (wrap-add (pos (wrap (pos index +ℤ a))) (pos index +ℤ a) b (wrap-wrap (pos index +ℤ a))
        ∙ ap wrap (+ℤ_assoc (pos index) a b))

-- A transposed key is in the pitch class that many semitones on, counted modulo the octave, and
-- stays major or minor.
pub transpose_tonality-class_of :
    (t : Tonality) (n : ℤ) → class_of (transpose_tonality t n) ≡ map_option (shifted n) (class_of t)
transpose_tonality-class_of t n = elim (Bool-cases (is_zero n)) [
  | inl none_moved ↦ rw (zero_only n none_moved) (unmoved-class_of t)
  | inr moves ↦ let (c, class, _, after) = transpose_tonality-written t n moves in rw class after
]

-- Transposing a key by `a` and then by `b` semitones is transposing it by their sum, spelling
-- included, where none of the three is 0 (0 keeps an unconventional spelling).
pub transpose_tonality_add :
    (t : Tonality) (a b : ℤ)
    → is_zero a ≡ false
    → is_zero b ≡ false
    → is_zero (a +ℤ b) ≡ false
    → transpose_tonality (transpose_tonality t a) b ≡ transpose_tonality t (a +ℤ b)
transpose_tonality_add t a b not_a not_b not_sum =
    let (c, class, _, after) = transpose_tonality-written t a not_a in
    let (d, class_d, found, _) = transpose_tonality-written (transpose_tonality t a) b not_b in
    let (e, class_e, found_e, _) = transpose_tonality-written t (a +ℤ b) not_sum in
    let same_d = some_back (sym class_d ∙ after) in
    let same_e = some_back (sym class ∙ class_e) in
    let same = ap (shifted b) same_d ∙ shifted-shifted a b c ∙ ap (shifted (a +ℤ b)) same_e in
    some_back (sym found ∙ ap (λ (k : ℕ × Bool). from_name (written k.1 k.0)) same ∙ found_e)
