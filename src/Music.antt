-- ===== src/Music.antt =====
-- src/music/transpose.rs and the keys of src/models/song.rs: transposition of a key and of the note
-- that a chord starts with. A `char` is its code point.
pub mod Keys
pub mod Laws
mod Tests
use setlyst_api.Prelude.{
  list_eq, nat_eq, zero, suc, Option, ℕ, List, Bool, ◌∷◌, some, [], none, find, if◌then◌else◌,
  map_option, suc, ◌==◌, ◌%◌, unwrap_or, ◌&&◌, not, false, ◌-◌,
}
use setlyst_api.Prelude.Int.{ℤ, pos, ◌+ℤ◌, ◌-ℤ◌, negsuc}
use setlyst_api.Billing.Credits.{is_zero}

pub data Tonality : Type 0 where
  c_major c_sharp_major d_flat_major d_major d_sharp_major e_flat_major : Tonality
  e_major e_sharp_major f_major f_sharp_major g_flat_major g_major : Tonality
  g_sharp_major a_flat_major a_major a_sharp_major b_flat_major b_major : Tonality
  b_sharp_major c_minor c_sharp_minor d_flat_minor d_minor d_sharp_minor : Tonality
  e_flat_minor e_minor e_sharp_minor f_minor f_sharp_minor g_flat_minor : Tonality
  g_minor g_sharp_minor a_flat_minor a_minor a_sharp_minor b_flat_minor : Tonality
  b_minor b_sharp_minor : Tonality

abbrev pub Chars : Type 0
Chars = List ℕ

-- The name by which a key is serialized.
unfoldable pub tonality_name : Tonality → Chars
tonality_name c_major = 67 ∷ []
tonality_name c_sharp_major = 67 ∷ 35 ∷ []
tonality_name d_flat_major = 68 ∷ 98 ∷ []
tonality_name d_major = 68 ∷ []
tonality_name d_sharp_major = 68 ∷ 35 ∷ []
tonality_name e_flat_major = 69 ∷ 98 ∷ []
tonality_name e_major = 69 ∷ []
tonality_name e_sharp_major = 69 ∷ 35 ∷ []
tonality_name f_major = 70 ∷ []
tonality_name f_sharp_major = 70 ∷ 35 ∷ []
tonality_name g_flat_major = 71 ∷ 98 ∷ []
tonality_name g_major = 71 ∷ []
tonality_name g_sharp_major = 71 ∷ 35 ∷ []
tonality_name a_flat_major = 65 ∷ 98 ∷ []
tonality_name a_major = 65 ∷ []
tonality_name a_sharp_major = 65 ∷ 35 ∷ []
tonality_name b_flat_major = 66 ∷ 98 ∷ []
tonality_name b_major = 66 ∷ []
tonality_name b_sharp_major = 66 ∷ 35 ∷ []
tonality_name c_minor = 67 ∷ 109 ∷ []
tonality_name c_sharp_minor = 67 ∷ 35 ∷ 109 ∷ []
tonality_name d_flat_minor = 68 ∷ 98 ∷ 109 ∷ []
tonality_name d_minor = 68 ∷ 109 ∷ []
tonality_name d_sharp_minor = 68 ∷ 35 ∷ 109 ∷ []
tonality_name e_flat_minor = 69 ∷ 98 ∷ 109 ∷ []
tonality_name e_minor = 69 ∷ 109 ∷ []
tonality_name e_sharp_minor = 69 ∷ 35 ∷ 109 ∷ []
tonality_name f_minor = 70 ∷ 109 ∷ []
tonality_name f_sharp_minor = 70 ∷ 35 ∷ 109 ∷ []
tonality_name g_flat_minor = 71 ∷ 98 ∷ 109 ∷ []
tonality_name g_minor = 71 ∷ 109 ∷ []
tonality_name g_sharp_minor = 71 ∷ 35 ∷ 109 ∷ []
tonality_name a_flat_minor = 65 ∷ 98 ∷ 109 ∷ []
tonality_name a_minor = 65 ∷ 109 ∷ []
tonality_name a_sharp_minor = 65 ∷ 35 ∷ 109 ∷ []
tonality_name b_flat_minor = 66 ∷ 98 ∷ 109 ∷ []
tonality_name b_minor = 66 ∷ 109 ∷ []
tonality_name b_sharp_minor = 66 ∷ 35 ∷ 109 ∷ []

abbrev pub tonalities : List Tonality
tonalities =
    c_major ∷ c_sharp_major ∷ d_flat_major ∷ d_major ∷ d_sharp_major ∷ e_flat_major ∷ e_major
    ∷ e_sharp_major ∷ f_major ∷ f_sharp_major ∷ g_flat_major ∷ g_major ∷ g_sharp_major
    ∷ a_flat_major ∷ a_major ∷ a_sharp_major ∷ b_flat_major ∷ b_major ∷ b_sharp_major ∷ c_minor
    ∷ c_sharp_minor ∷ d_flat_minor ∷ d_minor ∷ d_sharp_minor ∷ e_flat_minor ∷ e_minor
    ∷ e_sharp_minor ∷ f_minor ∷ f_sharp_minor ∷ g_flat_minor ∷ g_minor ∷ g_sharp_minor
    ∷ a_flat_minor ∷ a_minor ∷ a_sharp_minor ∷ b_flat_minor ∷ b_minor ∷ b_sharp_minor ∷ []

-- `serde_json::from_value`
unfoldable pub from_name : Chars → Option Tonality
from_name name = find (λ t. tonality_name t == name) tonalities

abbrev pub at_index : {A : Type 0} → List A → A → ℕ → A
at_index [] d n = d
at_index (x ∷ xs) d zero = x
at_index (x ∷ xs) d (suc n) = at_index xs d n

-- The indices below are below 12, so the default is never taken.
abbrev pub major_keys : List Chars
major_keys =
    (67 ∷ [])
    ∷ (68 ∷ 98 ∷ [])
    ∷ (68 ∷ [])
    ∷ (69 ∷ 98 ∷ [])
    ∷ (69 ∷ [])
    ∷ (70 ∷ [])
    ∷ (70 ∷ 35 ∷ [])
    ∷ (71 ∷ [])
    ∷ (65 ∷ 98 ∷ [])
    ∷ (65 ∷ [])
    ∷ (66 ∷ 98 ∷ [])
    ∷ (66 ∷ [])
    ∷ []

abbrev pub minor_keys : List Chars
minor_keys =
    (67 ∷ 109 ∷ [])
    ∷ (67 ∷ 35 ∷ 109 ∷ [])
    ∷ (68 ∷ 109 ∷ [])
    ∷ (69 ∷ 98 ∷ 109 ∷ [])
    ∷ (69 ∷ 109 ∷ [])
    ∷ (70 ∷ 109 ∷ [])
    ∷ (70 ∷ 35 ∷ 109 ∷ [])
    ∷ (71 ∷ 109 ∷ [])
    ∷ (71 ∷ 35 ∷ 109 ∷ [])
    ∷ (65 ∷ 109 ∷ [])
    ∷ (66 ∷ 98 ∷ 109 ∷ [])
    ∷ (66 ∷ 109 ∷ [])
    ∷ []

-- `rem_euclid(12)`
unfoldable pub wrap : ℤ → ℕ
wrap (pos n) = n % 12
wrap (negsuc n) = 11 - n % 12

abbrev pub note_of : ℕ → Option ℕ
note_of c =
    if c == 67
    then some 0
    else if c == 68
    then some 2
    else if c == 69
    then some 4
    else if c == 70
    then some 5
    else if c == 71
    then some 7
    else if c == 65
    then some 9
    else if c == 66
    then some 11
    else none

abbrev pub accidental : ℕ → Chars → ℤ × ℕ
accidental base [] = (pos base, 1)
accidental base (c ∷ cs) =
    if c == 35
    then (pos base +ℤ pos 1, 2)
    else if c == 98
    then (pos base -ℤ pos 1, 2)
    else (pos base, 1)

-- The pitch of the note at the start, and its length.
unfoldable pub leading_note : Chars → Option (ℤ × ℕ)
leading_note [] = none
leading_note (c ∷ cs) = map_option (λ base. accidental base cs) (note_of c)

abbrev pub drop : ℕ → Chars → Chars
drop zero cs = cs
drop (suc n) [] = []
drop (suc n) (c ∷ cs) = drop n cs

-- `starts_with('m') && !starts_with("maj")`
abbrev pub is_minor : Chars → Bool
is_minor (c ∷ d ∷ e ∷ cs) = c == 109 && not (d == 97 && e == 106)
is_minor (c ∷ cs) = c == 109
is_minor [] = false

-- The pitch of a key or of a chord's root, and whether it is minor.
unfoldable pub key_of : Chars → Option (ℤ × Bool)
key_of symbol =
    map_option (λ (note : ℤ × ℕ). (note.0, is_minor (drop note.1 symbol))) (leading_note symbol)

unfoldable pub written : Bool → ℕ → Chars
written minor index = at_index (if minor then minor_keys else major_keys) [] index

abbrev pub moved : Tonality → ℤ → Option (ℤ × Bool) → Tonality
moved tonality semitones none = tonality
moved tonality semitones (some (pitch, minor)) =
    unwrap_or (from_name (written minor (wrap (pitch +ℤ semitones)))) tonality

unfoldable pub transpose_tonality : Tonality → ℤ → Tonality
transpose_tonality tonality semitones =
    if is_zero semitones
    then tonality
    else moved tonality semitones (key_of (tonality_name tonality))
