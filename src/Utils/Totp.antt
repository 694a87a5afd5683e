-- ===== src/Utils/Totp.antt =====
-- src/utils/totp.rs and `check_totp` of src/services/account.rs: time-based one-time passwords. A
-- byte and a `char` are numbers, and `constant_time_eq` of src/utils/crypto.rs is their equality. `hmac` stands for HMAC-SHA1 of the crates hmac and sha1. A result
-- `none` of a computation is a panic (an index out of range).
pub mod Laws
pub mod Replay
use setlyst_api.Prelude.{
  list_eq, ℕ, zero, suc, ◌+◌, ◌-◌, ◌*◌, ◌/◌, ◌%◌, Bool, true, false, ◌&&◌, ◌||◌, not, ◌==◌, nat_eq,
  PartialEq, List, [], ◌∷◌, ◌++◌, Option, none, some, if◌then◌else◌, length, filter, any, leb, ltb,
  is_none, is_none_or, bind_option, map_option, ◌≡◌, ◌↔◌, refl, arith, map,
}

abbrev pub Bytes : Type 0
Bytes = List ℕ

-- The digits of `v` in a base, most significant first, zero-padded and cut to a width.
unfoldable pub digits : ℕ → ℕ → ℕ → List ℕ
digits base zero v = []
digits base (suc width) v = digits base width (v / base) ++ (v % base ∷ [])

-- `counter.to_be_bytes()`
abbrev pub be_bytes : ℕ → Bytes
be_bytes counter = digits 256 8 counter

abbrev pub code_digits : ℕ
code_digits = 6

-- `format!("{:06}", v)` of a value of at most six digits.
abbrev pub zero_padded : ℕ → Bytes
zero_padded v = map (λ d. 48 + d) (digits 10 code_digits v)

abbrev pub byte_at : Bytes → ℕ → Option ℕ
byte_at [] n = none
byte_at (b ∷ bs) zero = some b
byte_at (b ∷ bs) (suc n) = byte_at bs n

abbrev pub step_seconds : ℕ
step_seconds = 30

abbrev pub window : ℕ
window = 1

unfoldable pub step_at : ℕ → ℕ
step_at unix_seconds = unix_seconds / step_seconds

-- `char::is_whitespace`
abbrev pub is_whitespace : ℕ → Bool
is_whitespace c =
    (leb 9 c && leb c 13)
    || (c == 32
        || (c == 133
            || (c == 160
                || (c == 5_760
                    || ((leb 8_192 c && leb c 8_202)
                        || (c == 8_232
                            || (c == 8_233 || (c == 8_239 || (c == 8_287 || c == 12_288)))))))))

abbrev pub trim_start : Bytes → Bytes
trim_start [] = []
trim_start (c ∷ cs) = if is_whitespace c then trim_start cs else c ∷ cs

abbrev pub trim_end : Bytes → Bytes
trim_end [] = []
trim_end (c ∷ cs) =
    let rest = trim_end cs in
    elim rest [ [] ↦ if is_whitespace c then [] else c ∷ [] | d ∷ ds ↦ c ∷ d ∷ ds ]

abbrev pub is_digit : ℕ → Bool
is_digit c = leb 48 c && leb c 57

-- `trim().replace(' ', "")`
unfoldable pub compact : Bytes → Bytes
compact code = filter (λ c. not (c == 32)) (trim_end (trim_start code))

-- The length in bytes is the number of chars where all of them are ASCII digits.
unfoldable pub is_code : Bytes → Bool
is_code code = length code == code_digits && not (any (λ c. not (is_digit c)) code)

module _ (hmac : Bytes → Bytes → Bytes) where
  -- `digits` is `DIGITS` for every caller; the shifted bytes do not overlap, so `|` adds them.
  unfoldable pub hotp : Bytes → ℕ → Option ℕ
  hotp secret counter =
      let hash = hmac secret (be_bytes counter) in
      bind_option (byte_at hash (length hash - 1)) (λ last.
        let offset = last % 16 in
        bind_option (byte_at hash offset) (λ b0. bind_option (byte_at hash (offset + 1)) (λ b1.
          bind_option (byte_at hash (offset + 2)) (λ b2.
            map_option (λ b3. (b0 % 128 * 16_777_216 + b1 * 65_536 + b2 * 256 + b3) % 1_000_000)
              (byte_at hash (offset + 3))))))

  unfoldable pub candidate : Bytes → ℕ → Option Bytes
  candidate secret step = map_option zero_padded (hotp secret step)

  -- One turn of the loop of `verify`.
  unfoldable pub try_step : Bytes → Bytes → Option ℕ → ℕ → Option ℕ → Option (Option ℕ)
  try_step secret code last step matched =
      map_option
        (λ c.
          if c == code && (is_none_or (λ used. ltb used step) last && is_none matched)
          then some step
          else matched)
        (candidate secret step)

  -- The loop over the steps `current + shift - WINDOW`; a step below 0 is skipped.
  unfoldable pub verify_loop : Bytes → Bytes → ℕ → Option ℕ → List ℕ → Option ℕ → Option (Option ℕ)
  verify_loop secret code current last [] matched = some matched
  verify_loop secret code current last (shift ∷ shifts) matched =
      let skipped = verify_loop secret code current last shifts matched in
      let tried =
        bind_option (try_step secret code last (current + shift - window) matched)
          (λ found. verify_loop secret code current last shifts found) in
      if ltb (current + shift) window then skipped else tried

  unfoldable pub verify : Bytes → Bytes → ℕ → Option ℕ → Option (Option ℕ)
  verify secret code unix_seconds last =
      if is_code (compact code)
      then verify_loop secret (compact code) (step_at unix_seconds) last (0 ∷ 1 ∷ 2 ∷ []) none
      else some none

-- `claim_totp_step` of src/database/repositories/user_repository.rs on the user's column
-- `totp_last_step`: whether the row was updated, and the column afterwards.
unfoldable pub claim_totp_step : ℕ → Option ℕ → Bool × Option ℕ
claim_totp_step step last =
    if is_none_or (λ used. ltb used step) last then (true, some step) else (false, last)

-- `check_totp` once the code is verified.
abbrev pub claim_found : Option ℕ → Option ℕ → Bool × Option ℕ
claim_found last none = (false, last)
claim_found last (some step) = claim_totp_step step last

-- `seen` is the column as the request read it, `last` as it is when the step is claimed.
unfoldable pub check_totp :
    (Bytes → Bytes → Bytes) → Bytes → Bytes → ℕ → Option ℕ → Option ℕ → Option (Bool × Option ℕ)
check_totp hmac secret code unix_seconds seen last =
    map_option (claim_found last) (verify hmac secret code unix_seconds seen)
