-- ===== src/Security/Limiter.antt =====
-- src/database/repositories/security_repository.rs and src/services/account.rs: the fixed-window
-- counters of an account (the tables `second_factor_attempts` and `reauth_attempts`), and the
-- check of a second factor outside sign-in. Each upsert is one statement, so one step of its row.
-- Whether the code is right is the outcome of another service, a parameter here.
pub mod Window
pub mod SignOut
use setlyst_api.Prelude.{
  ℕ, ◌+◌, ◌-◌, max, Bool, true, false, ◌||◌, Option, none, some, ltb, leb, ◌==◌, nat_eq,
  if◌then◌else◌, Timestamp, seconds, hours, num_seconds, map_option, unwrap_or, min,
}
use setlyst_api.ApiError.{Result, ok, err, too_many_attempts, invalid_two_factor_code}

-- A row of `second_factor_attempts`.
pub record Attempts : Type 0 where
  pub window_started_at : Timestamp
  pub failures : ℕ

-- A row of `reauth_attempts`.
pub record ReauthAttempts : Type 0 where
  pub window : Attempts
  pub day_started_at : Timestamp
  pub day_failures : ℕ

pub data SecondFactorClaim : Type 0 where
  allowed : (failures : ℕ) → SecondFactorClaim
  limited : (retry_after_seconds : ℕ) → SecondFactorClaim

abbrev pub second_factor_max_failures : ℕ
second_factor_max_failures = 5

abbrev pub window_seconds : ℕ
window_seconds = 900

abbrev pub reauth_daily_failures_before_sign_out : ℕ
reauth_daily_failures_before_sign_out = 10

-- `started <= now - window`.
abbrev pub is_over : Timestamp → ℕ → Timestamp → Bool
is_over started window now = leb (started + window) now

-- The row after the upsert, `none` where its `WHERE` holds it back.
unfoldable pub counted : ℕ → ℕ → Timestamp → Option Attempts → Option Attempts
counted max_failures window now none = some (record { window_started_at = now; failures = 1 })
counted max_failures window now (some row) =
    if is_over row.window_started_at (seconds window) now
    then some (record { window_started_at = now; failures = 1 })
    else if ltb row.failures max_failures
    then some (record row { failures = row.failures + 1 })
    else none

unfoldable pub retry_after : ℕ → Timestamp → Option Attempts → ℕ
retry_after window now row =
    max
      (unwrap_or
        (map_option (λ (r : Attempts). num_seconds ((r.window_started_at + seconds window) - now))
          row)
        window)
      1

unfoldable pub claim_second_factor_check :
    ℕ → ℕ → Timestamp → Option Attempts → SecondFactorClaim × Option Attempts
claim_second_factor_check max_failures window now row = elim (counted max_failures window now row) [
  | some after ↦ (allowed after.failures, some after)
  | none ↦ (limited (retry_after window now row), row)
]

-- `GREATEST(failures - 1, 0)`.
unfoldable pub release_second_factor_check : Option Attempts → Option Attempts
release_second_factor_check = map_option (λ (r : Attempts). record r { failures = r.failures - 1 })

-- The same upsert on the other table; a new row starts the day too.
unfoldable pub claim_reauth_check :
    ℕ → ℕ → Timestamp → Option ReauthAttempts → SecondFactorClaim × Option ReauthAttempts
claim_reauth_check max_failures window now row =
    elim (counted max_failures window now (map_option (λ (r : ReauthAttempts). r.window) row)) [
      | some after ↦ (
        allowed after.failures,
        some (
            unwrap_or (map_option (λ (r : ReauthAttempts). record r { window = after }) row)
              (record { window = after; day_started_at = now; day_failures = 0 })),
      )
      | none ↦ (
        limited (retry_after window now (map_option (λ (r : ReauthAttempts). r.window) row)),
        row,
      )
    ]

unfoldable pub release_reauth_check : Option ReauthAttempts → Option ReauthAttempts
release_reauth_check = map_option (λ (r : ReauthAttempts). record r {
  window = record r.window { failures = r.window.failures - 1 };
})

-- The row after a wrong confirmation; its `day_failures` is what the function returns.
unfoldable pub record_reauth_failure : Timestamp → Option ReauthAttempts → ReauthAttempts
record_reauth_failure now none = record {
  window = record { window_started_at = now; failures = 0 };
  day_started_at = now;
  day_failures = 1;
}
record_reauth_failure now (some row) =
    if is_over row.day_started_at (hours 24) now
    then record row { day_started_at = now; day_failures = 1 }
    else record row { day_failures = row.day_failures + 1 }

-- The account's rows, and how often its sessions were all revoked.
pub record Confirmations : Type 0 where
  pub second_factor : Option Attempts
  pub reauth : Option ReauthAttempts
  pub sessions_revoked : ℕ

unfoldable pub sign_out_after_too_many_failures : ℕ → Confirmations → Confirmations
sign_out_after_too_many_failures day_failures s =
    if day_failures == reauth_daily_failures_before_sign_out
    then record s { sessions_revoked = s.sessions_revoked + 1 }
    else s

-- The count of a wrong confirmation, and the sign-out that it may bring.
unfoldable pub count_failure : Timestamp → Confirmations → Confirmations
count_failure now s =
    let row = record_reauth_failure now s.reauth in
    sign_out_after_too_many_failures row.day_failures (record s { reauth = some row })

abbrev after_check : Timestamp → Bool → ℕ → Confirmations → Result (Unit {0}) × Confirmations
after_check now true failures s =
    (ok tt, record s { second_factor = release_second_factor_check s.second_factor })
after_check now false failures s =
    (err (invalid_two_factor_code (second_factor_max_failures - failures)), count_failure now s)

unfoldable pub require_second_factor :
    Timestamp → Bool → Confirmations → Result (Unit {0}) × Confirmations
require_second_factor now right s =
    let (claim, row) =
      claim_second_factor_check second_factor_max_failures window_seconds now s.second_factor in
    let s' = record s { second_factor = row } in
    elim claim [
      | allowed failures ↦ after_check now right failures s'
      | limited retry ↦ (err (too_many_attempts retry), s')
    ]
