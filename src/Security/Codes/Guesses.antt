-- ===== src/Security/Codes/Guesses.antt =====
-- How many wrong guesses the codes of a purpose can get, over any run of requests.
pub mod Updates
pub mod Run
use setlyst_api.Prelude.{
  ℕ, ◌+◌, ◌-◌, ◌≤◌, ◌<◌, ◌≡◌, refl, Bool, true, false, Option, none, some, List, [], ◌∷◌, arith,
  All, inl, inr, Timestamp, hours, Bool-cases, Option-cases, leb, ltb, if-both, if◌then◌else◌,
}
use setlyst_api.ApiError.{Result, ok, err, ApiError, invalid_code, code_expired, too_many_attempts}
use setlyst_api.Security.Codes.{
  Codes, VerificationCode, CodeLimits, NewCode, code_failures_since, claim_code_attempt, check_code,
  code_where, code_daily_failure_cap, is_claimable, code_max_attempts, latest_code,
  record_code_failure, after_wrong, consume_code,
}
use setlyst_api.Security.Codes.Guesses.Updates.{claimed}

-- The outcomes of a check.
pub data Checked (now : Timestamp) (codes : List VerificationCode)
    : Result VerificationCode × List VerificationCode → Type 0 where
  refused : (e : ApiError) → Checked now codes (err e, codes)
  passed : (stored : VerificationCode) → Checked now codes (ok stored, claimed now stored.id codes)
  guessed :
      (stored found : VerificationCode) (e : ApiError)
      → code_failures_since (hours 24) now codes < code_daily_failure_cap
      → code_where stored.id (is_claimable code_max_attempts now) codes ≡ some found
      → Checked now codes (err e, record_code_failure stored.id (claimed now stored.id codes))
  used_up :
      (stored found : VerificationCode) (e : ApiError)
      → code_failures_since (hours 24) now codes < code_daily_failure_cap
      → code_where stored.id (is_claimable code_max_attempts now) codes ≡ some found
      → Checked now codes (
        err e,
        (consume_code stored.id now
            (record_code_failure stored.id (claimed now stored.id codes))).1,
      )

compared :
    (now : Timestamp) (right : VerificationCode → Bool) (codes : List VerificationCode)
    (stored found : VerificationCode)
    → code_failures_since (hours 24) now codes < code_daily_failure_cap
    → code_where stored.id (is_claimable code_max_attempts now) codes ≡ some found
    → Checked now codes (
        if right stored then (ok stored, claimed now stored.id codes) else (
          err (invalid_code (code_max_attempts - (found.attempts + 1))),
          after_wrong now stored (found.attempts + 1) (claimed now stored.id codes),
        ))
compared now right codes stored found cap e =
    if-both (Checked now codes) (right stored) _ _ (λ _. passed stored) (λ _. wrong_guess)
  where
    counted : List VerificationCode
    counted = record_code_failure stored.id (claimed now stored.id codes)

    wrong_guess : Checked now codes (
      err (invalid_code (code_max_attempts - (found.attempts + 1))),
      after_wrong now stored (found.attempts + 1) (claimed now stored.id codes),
    )
    wrong_guess =
        if-both
          (λ cs.
            Checked now codes (err (invalid_code (code_max_attempts - (found.attempts + 1))), cs))
          (leb code_max_attempts (found.attempts + 1)) (consume_code stored.id now counted).1
          counted (λ _. used_up stored found _ cap e) (λ _. guessed stored found _ cap e)

pub claim_none :
    (id max_attempts : ℕ) (now : Timestamp) (codes : List VerificationCode)
    → code_where id (is_claimable max_attempts now) codes ≡ none
    → claim_code_attempt id max_attempts now codes ≡ (none, codes)
unfolding claim_code_attempt
claim_none id max_attempts now codes e = rw (e, claim_code_attempt) refl

pub claim_some :
    (id : ℕ) (now : Timestamp) (found : VerificationCode) (codes : List VerificationCode)
    → code_where id (is_claimable code_max_attempts now) codes ≡ some found
    → claim_code_attempt id code_max_attempts now codes
      ≡ (some (found.attempts + 1), claimed now id codes)
unfolding claim_code_attempt
claim_some id now found codes e = rw (e, claim_code_attempt) refl

pub check_code-Checked :
    (now : Timestamp) (right : VerificationCode → Bool) (codes : List VerificationCode)
    → Checked now codes (check_code now right codes)
unfolding check_code
check_code-Checked now right codes =
    if-both (Checked now codes)
      (leb code_daily_failure_cap (code_failures_since (hours 24) now codes)) _ _
      (λ _. refused (too_many_attempts 3600))
      (λ below. elim (Option-cases (latest_code codes)) [
        | inl missing ↦ rw (missing) (refused (invalid_code 0))
        | inr (stored, latest) ↦
            elim (Option-cases (code_where stored.id (is_claimable code_max_attempts now) codes)) [
              | inl stuck ↦
                  rw
                    (
                      latest,
                      claim_none stored.id code_max_attempts now codes stuck,
                      claim_none stored.id code_max_attempts now codes stuck,
                    )
                    (if-both (λ r. Checked now codes (r, codes)) _ _ _ (λ _. refused code_expired)
                      (λ _. refused (invalid_code 0)))
              | inr (found, e) ↦
                  rw
                    (
                      latest,
                      claim_some stored.id now found codes e,
                      claim_some stored.id now found codes e,
                    )
                    (compared now right codes stored found (cap below) e)
            ]
      ])
  where
    cap :
        leb code_daily_failure_cap (code_failures_since (hours 24) now codes) ≡ false
        → code_failures_since (hours 24) now codes < code_daily_failure_cap
    cap below = ground arith
