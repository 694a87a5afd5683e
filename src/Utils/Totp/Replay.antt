-- ===== src/Utils/Totp/Replay.antt =====
-- However the requests of a user interleave, each time step is accepted at most once.
use setlyst_api.Prelude.{
  ℕ, ◌<◌, Bool, true, false, Option, none, some, List, [], ◌∷◌, All, All-map, ◌≡◌, refl, arith, ltb,
  map_option, Bool-cases, inl, some_back, ap, inr,
}
use setlyst_api.Utils.Totp.{Bytes, verify, claim_totp_step, check_totp, claim_found}

-- The column `totp_last_step` and the steps that were accepted, newest first, since the second
-- factor was enabled: each check reads the column at any time before it claims a step.
pub data TotpRun (hmac : Bytes → Bytes → Bytes) (secret : Bytes) : Option ℕ → List ℕ → Type 0 where
  enabled :
      {step : ℕ} (code : Bytes) (unix_seconds : ℕ)
      → verify hmac secret code unix_seconds none ≡ some (some step)
      → TotpRun hmac secret (some step) (step ∷ [])
  refused :
      {last after : Option ℕ} {steps : List ℕ} (code : Bytes) (unix_seconds : ℕ) (seen : Option ℕ)
      → TotpRun hmac secret last steps
      → check_totp hmac secret code unix_seconds seen last ≡ some (false, after)
      → TotpRun hmac secret after steps
  accepted :
      {last : Option ℕ} {step : ℕ} {steps : List ℕ} (code : Bytes) (unix_seconds : ℕ)
      (seen : Option ℕ)
      → TotpRun hmac secret last steps
      → check_totp hmac secret code unix_seconds seen last ≡ some (true, some step)
      → TotpRun hmac secret (some step) (step ∷ steps)

-- Each number is greater than all that follow it.
abbrev pub IsDescending : List ℕ → Type 0
IsDescending [] = Unit
IsDescending (n ∷ ns) = All (λ m. m < n) ns × IsDescending ns

-- The column holds the newest accepted step.
abbrev pub IsNewest : Option ℕ → List ℕ → Type 0
IsNewest (some last) (step ∷ steps) = last ≡ step
IsNewest _ _ = ⊥

claim-refused :
    (step : ℕ) (last after : Option ℕ) → claim_totp_step step last ≡ (false, after) → last ≡ after
unfolding claim_totp_step
claim-refused step none after h = absurd (ground arith)
claim-refused step (some used) after h = elim (Bool-cases (ltb used step)) [
  | inl new ↦ absurd (ground (arith, rw new at h))
  | inr old ↦ ap (λ (p : Bool × Option ℕ). p.1) (rw old at h)
]

claim-accepted :
    (step new used : ℕ) → claim_totp_step step (some used) ≡ (true, some new) → used < new
unfolding claim_totp_step
claim-accepted step new used h = elim (Bool-cases (ltb used step)) [
  | inl fresh ↦
      let same = some_back (ap (λ (p : Bool × Option ℕ). p.1) (rw fresh at h)) in
      ground (arith, fresh, same)
  | inr old ↦ absurd (ground (arith, rw old at h))
]

check-refused :
    (found : Option (Option ℕ)) (last after : Option ℕ)
    → map_option (claim_found last) found ≡ some (false, after)
    → last ≡ after
check-refused none last after h = absurd (ground arith)
check-refused (some none) last after h = ap (λ (p : Bool × Option ℕ). p.1) (some_back h)
check-refused (some (some step)) last after h = claim-refused step last after (some_back h)

check-accepted :
    (found : Option (Option ℕ)) (used new : ℕ)
    → map_option (claim_found (some used)) found ≡ some (true, some new)
    → used < new
check-accepted none used new h = absurd (ground arith)
check-accepted (some none) used new h = absurd (ground (arith, some_back h))
check-accepted (some (some step)) used new h = claim-accepted step new used (some_back h)

newer-IsDescending :
    (steps : List ℕ) (last new : ℕ)
    → IsNewest (some last) steps
    → last < new
    → IsDescending steps
    → IsDescending (new ∷ steps)
newer-IsDescending [] last new none_newest less h = absurd none_newest
newer-IsDescending (step ∷ steps) last new newest less h =
    ((omega arith, All-map (λ m below. omega arith) steps h.0), h)

IsNewest-some :
    (last : Option ℕ) (steps : List ℕ) → IsNewest last steps → (used : ℕ) × (last ≡ some used)
IsNewest-some none [] h = absurd h
IsNewest-some none (step ∷ steps) h = absurd h
IsNewest-some (some used) steps h = (used, refl)

-- However the checks of a user's codes interleave, whatever each had read of the column
-- `totp_last_step`, the column holds the newest accepted step, and the accepted steps strictly
-- increase: no step, the one that enabled the second factor included, is accepted twice.
pub TotpRun-IsDescending :
    (hmac : Bytes → Bytes → Bytes) (secret : Bytes) (last : Option ℕ) (steps : List ℕ)
    → TotpRun hmac secret last steps
    → IsNewest last steps × IsDescending steps
unfolding check_totp
TotpRun-IsDescending hmac secret _ _ (enabled code clock checked) = (refl, (tt, tt))
TotpRun-IsDescending hmac secret after steps (refused {last} code clock seen run checked) =
    let (newest, sorted) = TotpRun-IsDescending hmac secret last steps run in
    (rw (← check-refused (verify hmac secret code clock seen) last after checked) newest, sorted)
TotpRun-IsDescending hmac secret _ _ (accepted {last} {step} {steps} code clock seen run checked) =
    let (newest, sorted) = TotpRun-IsDescending hmac secret last steps run in
    let (used, e) = IsNewest-some last steps newest in
    (
      refl,
      newer-IsDescending steps used step (rw e at newest)
          (check-accepted (verify hmac secret code clock seen) used step (rw e at checked)) sorted,
    )
