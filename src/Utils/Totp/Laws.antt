-- ===== src/Utils/Totp/Laws.antt =====
-- Which code src/utils/totp.rs accepts, and that a time step is accepted once.
use setlyst_api.Prelude.{
  list_eq, ℕ, zero, suc, ◌+◌, ◌-◌, ◌≤◌, ◌<◌, Bool, true, false, ◌&&◌, ◌==◌, Option, none, some,
  List, [], ◌∷◌, length, In, ◌≡◌, refl, arith, is_none_or, ltb, ◌%◌, inl, ◌*◌, Bool-cases, ◌⊎◌,
  if◌then◌else◌, inr, ap, ==-refl, ◌∙◌, ==→≡, some_back, sym, ◌/◌,
}
use setlyst_api.Utils.Totp.{
  Bytes, byte_at, hotp, candidate, verify_loop, verify, compact, is_code, window, zero_padded,
  be_bytes, try_step, step_at,
}

byte_at-some : (bs : Bytes) (n : ℕ) → n < length bs → (b : ℕ) × (byte_at bs n ≡ some b)
byte_at-some [] n h = absurd (omega arith)
byte_at-some (b ∷ bs) zero h = (b, refl)
byte_at-some (b ∷ bs) (suc n) h = byte_at-some bs n (omega arith)

-- A digest of HMAC-SHA1 has 20 bytes.
abbrev pub IsSha1 : (Bytes → Bytes → Bytes) → Type 0
IsSha1 hmac = (secret message : Bytes) → length (hmac secret message) ≡ 20

module _ (hmac : Bytes → Bytes → Bytes) (sha1 : IsSha1 hmac) where
  hotp-some : (secret : Bytes) (counter : ℕ) → (v : ℕ) × (hotp hmac secret counter ≡ some v)
  unfolding hotp
  hotp-some secret counter =
      let hash = hmac secret (be_bytes counter) in
      let long = sha1 secret (be_bytes counter) in
      let (last, e) = byte_at-some hash (length hash - 1) (omega arith) in
      let (b0, e0) = byte_at-some hash (last % 16) (omega arith) in
      let (b1, e1) = byte_at-some hash (last % 16 + 1) (omega arith) in
      let (b2, e2) = byte_at-some hash (last % 16 + 2) (omega arith) in
      let (b3, e3) = byte_at-some hash (last % 16 + 3) (omega arith) in
      (
        (b0 % 128 * 16_777_216 + b1 * 65_536 + b2 * 256 + b3) % 1_000_000,
        rw (e, e0, e1, e2, e3) refl,
      )

  candidate-some : (secret : Bytes) (step : ℕ) → (c : Bytes) × (candidate hmac secret step ≡ some c)
  unfolding candidate
  candidate-some secret step = let (v, e) = hotp-some secret step in (zero_padded v, rw e refl)

module _ (hmac : Bytes → Bytes → Bytes) where
  -- The code is that of the step, and the step is behind the last one used.
  pub record IsMatch (secret code : Bytes) (last : Option ℕ) (step : ℕ) : Type 0 where
    pub same : candidate hmac secret step ≡ some code
    pub fresh : is_none_or (λ used. ltb used step) last ≡ true

  -- What a search over the steps `current + shift - 1` finds.
  abbrev Outcome : Bytes → Bytes → ℕ → Option ℕ → List ℕ → Option ℕ → Type 0
  Outcome secret code current last shifts none =
      (shift step : ℕ)
      → In shift shifts
      → step + window ≡ current + shift
      → ¬ IsMatch secret code last step
  Outcome secret code current last shifts (some step) =
      (shift : ℕ) × In shift shifts
      × (step + window ≡ current + shift)
      × IsMatch secret code last step

  try_step-kept :
      (sha1 : IsSha1 hmac) (secret code : Bytes) (last : Option ℕ) (step found : ℕ)
      → try_step hmac secret code last step (some found) ≡ some (some found)
  unfolding try_step
  try_step-kept sha1 secret code last step found =
      let (c, e) = candidate-some hmac sha1 secret step in
      rw e (ap some (if-same (c == code) (is_none_or (λ used. ltb used step) last)))
    where
      if-same : (a b : Bool) → (if a && (b && false) then some step else some found) ≡ some found
      if-same a b = ground arith

  try_step-tried :
      (sha1 : IsSha1 hmac) (secret code : Bytes) (last : Option ℕ) (step : ℕ)
      → ((try_step hmac secret code last step none ≡ some none) × ¬ IsMatch secret code last step)
        ⊎ ((try_step hmac secret code last step none ≡ some (some step))
            × IsMatch secret code last step)
  unfolding try_step
  try_step-tried sha1 secret code last step =
      let (c, e) = candidate-some hmac sha1 secret step in
      elim (Bool-cases (c == code)) [
        | inl same ↦ elim (Bool-cases (is_none_or (λ used. ltb used step) last)) [
          | inl fresh ↦ inr (
            rw (e, same, fresh) refl,
            record { same = e ∙ ap some (==→≡ c code same); fresh = fresh },
          )
          | inr used ↦ inl (rw (e, same, used) refl, λ m. ground (arith, m.fresh, used))
        ]
        | inr other ↦ inl (rw (e, other) refl, λ m. other_code c other (some_back (sym e ∙ m.same)))
      ]
    where
      other_code : (c : Bytes) → (c == code) ≡ false → c ≡ code → ⊥
      other_code c other same = ground (arith, ==-refl code, rw same at other)

  verify_loop-kept :
      (sha1 : IsSha1 hmac) (secret code : Bytes) (current : ℕ) (last : Option ℕ) (shifts : List ℕ)
      (step : ℕ)
      → verify_loop hmac secret code current last shifts (some step) ≡ some (some step)
  unfolding verify_loop
  verify_loop-kept sha1 secret code current last [] step = refl
  verify_loop-kept sha1 secret code current last (shift ∷ shifts) step =
      let rest = verify_loop-kept sha1 secret code current last shifts step in
      elim (Bool-cases (ltb (current + shift) window)) [
        | inl below ↦ rw below rest
        | inr above ↦
            rw (above, try_step-kept sha1 secret code last (current + shift - window) step) rest
      ]

  same_step :
      (current shift step : ℕ) → step + window ≡ current + shift → current + shift - window ≡ step
  same_step current shift step sum = omega arith

  Outcome-later :
      (secret code : Bytes) (current : ℕ) (last : Option ℕ) (shift : ℕ) (shifts : List ℕ)
      (r : Option ℕ)
      → ((step : ℕ) → step + window ≡ current + shift → ¬ IsMatch secret code last step)
      → Outcome secret code current last shifts r
      → Outcome secret code current last (shift ∷ shifts) r
  Outcome-later secret code current last shift shifts none first h = λ k step k_in sum. elim k_in [
    | inl here ↦ first step (rw here at sum)
    | inr there ↦ h k step there sum
  ]
  Outcome-later secret code current last shift shifts (some step) first (k, later, sum, m) =
      (k, inr later, sum, m)

  verify_loop-Outcome :
      (sha1 : IsSha1 hmac) (secret code : Bytes) (current : ℕ) (last : Option ℕ) (shifts : List ℕ)
      → (r : Option ℕ) × (verify_loop hmac secret code current last shifts none ≡ some r)
        × Outcome secret code current last shifts r
  unfolding verify_loop
  verify_loop-Outcome sha1 secret code current last [] =
      (none, refl, λ shift step none_in. absurd none_in)
  verify_loop-Outcome sha1 secret code current last (shift ∷ shifts) =
      let (r, rest, found) = verify_loop-Outcome sha1 secret code current last shifts in
      let step = current + shift - window in
      elim (Bool-cases (ltb (current + shift) window)) [
        | inl below ↦ (
          r,
          rw below rest,
          Outcome-later secret code current last shift shifts r
              (λ step sum. absurd (ground (arith, below, sum))) found,
        )
        | inr above ↦ elim (try_step-tried sha1 secret code last step) [
          | inl (tried, wrong) ↦ (
            r,
            rw (above, tried) rest,
            Outcome-later secret code current last shift shifts r
                (λ s sum. rw (same_step current shift s sum) at wrong) found,
          )
          | inr (tried, right) ↦ (
            some step,
            rw (above, tried) (verify_loop-kept sha1 secret code current last shifts step),
            (shift, inl refl, ground (arith, above), right),
          )
        ]
      ]

  -- The step of the clock, or one next to it.
  abbrev pub IsNear : ℕ → ℕ → Type 0
  IsNear unix_seconds step = (step ≤ unix_seconds / 30 + 1) × (unix_seconds / 30 ≤ step + 1)

  -- A refusal, or the acceptance of a step.
  abbrev pub IsVerdict : Bytes → Bytes → ℕ → Option ℕ → Option ℕ → Type 0
  IsVerdict secret code unix_seconds last none =
      (step : ℕ)
      → is_code (compact code) ≡ true
      → IsNear unix_seconds step
      → ¬ IsMatch secret (compact code) last step
  IsVerdict secret code unix_seconds last (some step) =
      (is_code (compact code) ≡ true)
      × IsNear unix_seconds step
      × IsMatch secret (compact code) last step

  shift_of :
      (current step : ℕ)
      → step ≤ current + 1
      → current ≤ step + 1
      → (shift : ℕ) × In shift (0 ∷ 1 ∷ 2 ∷ []) × (step + window ≡ current + shift)
  shift_of current step low high =
      (step + 1 - current, among (step + 1 - current) (omega arith), omega arith)
    where
      among : (n : ℕ) → n ≤ 2 → In n (0 ∷ 1 ∷ 2 ∷ [])
      among zero h = inl refl
      among (suc zero) h = inr (inl refl)
      among (suc (suc zero)) h = inr (inr (inl refl))
      among (suc (suc (suc n))) h = absurd (omega arith)

  shift-le : (shift : ℕ) → In shift (0 ∷ 1 ∷ 2 ∷ []) → shift ≤ 2
  shift-le shift (inl e) = omega arith
  shift-le shift (inr (inl e)) = omega arith
  shift-le shift (inr (inr (inl e))) = omega arith
  shift-le shift (inr (inr (inr e))) = absurd e

  Outcome-IsVerdict :
      (secret code : Bytes) (unix_seconds : ℕ) (last r : Option ℕ)
      → is_code (compact code) ≡ true
      → Outcome secret (compact code) (unix_seconds / 30) last (0 ∷ 1 ∷ 2 ∷ []) r
      → IsVerdict secret code unix_seconds last r
  Outcome-IsVerdict secret code unix_seconds last none six h = λ step _ near.
      let (shift, one_of, sum) = shift_of (unix_seconds / 30) step near.0 near.1 in
      h shift step one_of sum
  Outcome-IsVerdict secret code unix_seconds last (some step) six (shift, one_of, sum, m) =
      let few = shift-le shift one_of in (six, (omega arith, omega arith), m)

  -- With a digest of 20 bytes `verify` never panics. It accepts a step exactly if the code, without
  -- its spaces, is six digits that are the code of a step next to the clock's, or of the clock's,
  -- which is behind the last one used.
  pub verify-IsVerdict :
      (sha1 : IsSha1 hmac) (secret code : Bytes) (unix_seconds : ℕ) (last : Option ℕ)
      → (r : Option ℕ) × (verify hmac secret code unix_seconds last ≡ some r)
        × IsVerdict secret code unix_seconds last r
  unfolding verify step_at
  verify-IsVerdict sha1 secret code unix_seconds last = elim (Bool-cases (is_code (compact code))) [
    | inl six ↦
        let (r, done, found) =
          verify_loop-Outcome sha1 secret (compact code) (unix_seconds / 30) last
            (0 ∷ 1 ∷ 2 ∷ []) in
        (r, rw six done, Outcome-IsVerdict secret code unix_seconds last r six found)
    | inr other ↦ (none, rw other refl, λ step six. absurd (ground (arith, six, other)))
  ]
