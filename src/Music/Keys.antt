-- ===== src/Music/Keys.antt =====
-- The keys by their pitch classes: each has one, and each class has its conventional written form.
use setlyst_api.Prelude.{
  list_eq, nat_eq, some, ℕ, zero, suc, ◌<◌, Bool, true, false, ◌≡◌, refl, arith, Option, map_option,
}
use setlyst_api.Prelude.Int.{ℤ, pos, ◌+ℤ◌, ◌-ℤ◌}
use setlyst_api.Music.{
  c_major, c_sharp_major, d_flat_major, d_major, d_sharp_major, e_flat_major, e_major,
  e_sharp_major, f_major, f_sharp_major, g_flat_major, g_major, g_sharp_major, a_flat_major,
  a_major, a_sharp_major, b_flat_major, b_major, b_sharp_major, c_minor, c_sharp_minor,
  d_flat_minor, d_minor, d_sharp_minor, e_flat_minor, e_minor, e_sharp_minor, f_minor,
  f_sharp_minor, g_flat_minor, g_minor, g_sharp_minor, a_flat_minor, a_minor, a_sharp_minor,
  b_flat_minor, b_minor, b_sharp_minor, Tonality, tonality_name, key_of, written, wrap,
  leading_note, from_name, Option, ◌+ℤ◌, map_option, ◌-ℤ◌, c_major, d_flat_major, d_major,
  e_flat_major,
}

-- The pitch class of a key, and whether it is minor.
abbrev pub class_of : Tonality → Option (ℕ × Bool)
class_of t = map_option (λ (k : ℤ × Bool). (wrap k.0, k.1)) (key_of (tonality_name t))

pub wrap-add : (x y n : ℤ) → wrap x ≡ wrap y → wrap (x +ℤ n) ≡ wrap (y +ℤ n)
unfolding wrap ◌+ℤ◌
wrap-add x y n h = ground arith

pub wrap-lt : (x : ℤ) → wrap x < 12
unfolding wrap
wrap-lt x = ground arith

pub every_key : (t : Tonality) → (k : ℤ × Bool) × (key_of (tonality_name t) ≡ some k)
unfolding key_of tonality_name leading_note ◌+ℤ◌ ◌-ℤ◌
every_key c_major = ((pos 0, false), refl)
every_key c_sharp_major = ((pos 1, false), refl)
every_key d_flat_major = ((pos 1, false), refl)
every_key d_major = ((pos 2, false), refl)
every_key d_sharp_major = ((pos 3, false), refl)
every_key e_flat_major = ((pos 3, false), refl)
every_key e_major = ((pos 4, false), refl)
every_key e_sharp_major = ((pos 5, false), refl)
every_key f_major = ((pos 5, false), refl)
every_key f_sharp_major = ((pos 6, false), refl)
every_key g_flat_major = ((pos 6, false), refl)
every_key g_major = ((pos 7, false), refl)
every_key g_sharp_major = ((pos 8, false), refl)
every_key a_flat_major = ((pos 8, false), refl)
every_key a_major = ((pos 9, false), refl)
every_key a_sharp_major = ((pos 10, false), refl)
every_key b_flat_major = ((pos 10, false), refl)
every_key b_major = ((pos 11, false), refl)
every_key b_sharp_major = ((pos 12, false), refl)
every_key c_minor = ((pos 0, true), refl)
every_key c_sharp_minor = ((pos 1, true), refl)
every_key d_flat_minor = ((pos 1, true), refl)
every_key d_minor = ((pos 2, true), refl)
every_key d_sharp_minor = ((pos 3, true), refl)
every_key e_flat_minor = ((pos 3, true), refl)
every_key e_minor = ((pos 4, true), refl)
every_key e_sharp_minor = ((pos 5, true), refl)
every_key f_minor = ((pos 5, true), refl)
every_key f_sharp_minor = ((pos 6, true), refl)
every_key g_flat_minor = ((pos 6, true), refl)
every_key g_minor = ((pos 7, true), refl)
every_key g_sharp_minor = ((pos 8, true), refl)
every_key a_flat_minor = ((pos 8, true), refl)
every_key a_minor = ((pos 9, true), refl)
every_key a_sharp_minor = ((pos 10, true), refl)
every_key b_flat_minor = ((pos 10, true), refl)
every_key b_minor = ((pos 11, true), refl)
every_key b_sharp_minor = ((pos 12, true), refl)

-- The written form of a key is one of the keys, in that class.
pub written_class :
    (minor : Bool) (index : ℕ)
    → index < 12
    → (t : Tonality) × (from_name (written minor index) ≡ some t)
      × (class_of t ≡ some (index, minor))
unfolding written from_name key_of tonality_name leading_note wrap ◌+ℤ◌ ◌-ℤ◌
written_class false zero h = (c_major, refl, refl)
written_class false (suc zero) h = (d_flat_major, refl, refl)
written_class false (suc (suc zero)) h = (d_major, refl, refl)
written_class false (suc (suc (suc zero))) h = (e_flat_major, refl, refl)
written_class false (suc (suc (suc (suc zero)))) h = (e_major, refl, refl)
written_class false (suc (suc (suc (suc (suc zero))))) h = (f_major, refl, refl)
written_class false (suc (suc (suc (suc (suc (suc zero)))))) h = (f_sharp_major, refl, refl)
written_class false (suc (suc (suc (suc (suc (suc (suc zero))))))) h = (g_major, refl, refl)
written_class false (suc (suc (suc (suc (suc (suc (suc (suc zero)))))))) h =
    (a_flat_major, refl, refl)
written_class false (suc (suc (suc (suc (suc (suc (suc (suc (suc zero))))))))) h =
    (a_major, refl, refl)
written_class false (suc (suc (suc (suc (suc (suc (suc (suc (suc (suc zero)))))))))) h =
    (b_flat_major, refl, refl)
written_class false (suc (suc (suc (suc (suc (suc (suc (suc (suc (suc (suc zero))))))))))) h =
    (b_major, refl, refl)
written_class true zero h = (c_minor, refl, refl)
written_class true (suc zero) h = (c_sharp_minor, refl, refl)
written_class true (suc (suc zero)) h = (d_minor, refl, refl)
written_class true (suc (suc (suc zero))) h = (e_flat_minor, refl, refl)
written_class true (suc (suc (suc (suc zero)))) h = (e_minor, refl, refl)
written_class true (suc (suc (suc (suc (suc zero))))) h = (f_minor, refl, refl)
written_class true (suc (suc (suc (suc (suc (suc zero)))))) h = (f_sharp_minor, refl, refl)
written_class true (suc (suc (suc (suc (suc (suc (suc zero))))))) h = (g_minor, refl, refl)
written_class true (suc (suc (suc (suc (suc (suc (suc (suc zero)))))))) h =
    (g_sharp_minor, refl, refl)
written_class true (suc (suc (suc (suc (suc (suc (suc (suc (suc zero))))))))) h =
    (a_minor, refl, refl)
written_class true (suc (suc (suc (suc (suc (suc (suc (suc (suc (suc zero)))))))))) h =
    (b_flat_minor, refl, refl)
written_class true (suc (suc (suc (suc (suc (suc (suc (suc (suc (suc (suc zero))))))))))) h =
    (b_minor, refl, refl)
written_class minor (suc (suc (suc (suc (suc (suc (suc (suc (suc (suc (suc (suc n)))))))))))) h =
    absurd (omega arith)
