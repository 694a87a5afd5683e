-- ===== src/Security/Limiter/SignOut.antt =====
-- The 24-hour total of wrong confirmations signs the account out.
use setlyst_api.Prelude.{
  ℕ, ◌+◌, ◌≤◌, ◌<◌, ◌≡◌, nat_eq, refl, ap, ◌∙◌, Option, none, some, List, [], ◌∷◌, arith, All,
  length, Timestamp, hours, ◌==◌, false, true,
}
use setlyst_api.Security.Limiter.{
  Confirmations, ReauthAttempts, record_reauth_failure, count_failure,
  sign_out_after_too_many_failures, is_over,
}

-- The account after wrong confirmations at these times.
unfoldable pub count_failures : List Timestamp → Confirmations → Confirmations
count_failures [] s = s
count_failures (now ∷ ts) s = count_failures ts (count_failure now s)

-- No day is being counted at this time.
abbrev pub DayIsOver : Timestamp → Option ReauthAttempts → Type 0
DayIsOver now none = Unit
DayIsOver now (some row) = row.day_started_at + hours 24 ≤ now

day_goes_on :
    (now : Timestamp) (row : ReauthAttempts)
    → now < row.day_started_at + hours 24
    → record_reauth_failure now (some row) ≡ record row { day_failures = row.day_failures + 1 }
unfolding record_reauth_failure
day_goes_on now row h = rw (later) refl
  where
    later : is_over row.day_started_at (hours 24) now ≡ false
    later = ground arith

count_failure-row :
    (now : Timestamp) (row : ReauthAttempts) (s : Confirmations)
    → count_failure now (record s { reauth = some row })
      ≡ sign_out_after_too_many_failures
          (record_reauth_failure now (some row)).day_failures
          (record s { reauth = some (record_reauth_failure now (some row)) })
unfolding count_failure
count_failure-row now row s = refl

not_yet : (n : ℕ) (s : Confirmations) → n < 10 → sign_out_after_too_many_failures n s ≡ s
unfolding sign_out_after_too_many_failures
not_yet n s h = rw (lt_ne) refl
  where
    lt_ne : (n == 10) ≡ false
    lt_ne = ground arith

count_failure-next :
    (now : Timestamp) (row : ReauthAttempts) (s : Confirmations)
    → now < row.day_started_at + hours 24
    → row.day_failures + 1 < 10
    → count_failure now (record s { reauth = some row })
      ≡ record s { reauth = some (record row { day_failures = row.day_failures + 1 }) }
count_failure-next now row s h k =
    rw (count_failure-row now row s, day_goes_on now row h)
      (not_yet (row.day_failures + 1)
        (record s { reauth = some (record row { day_failures = row.day_failures + 1 }) }) k)

reached :
    (n : ℕ) (s : Confirmations)
    → n ≡ 10
    → (sign_out_after_too_many_failures n s).sessions_revoked ≡ s.sessions_revoked + 1
unfolding sign_out_after_too_many_failures
reached n s h = rw h refl

count_failures-within :
    (ts : List Timestamp) (row : ReauthAttempts) (s : Confirmations)
    → row.day_failures < 10
    → row.day_failures + length ts ≡ 10
    → All (λ t. t < row.day_started_at + hours 24) ts
    → (count_failures ts (record s { reauth = some row })).sessions_revoked ≡ s.sessions_revoked + 1
unfolding count_failures
count_failures-within [] row s h k w = absurd (omega arith)
count_failures-within (now ∷ []) row s h k w =
    rw (count_failure-row now row s, day_goes_on now row w.0)
      (reached (row.day_failures + 1) _ (omega arith))
count_failures-within (now ∷ t ∷ ts) row s h k w =
    ap (λ s'. (count_failures (t ∷ ts) s').sessions_revoked)
      (count_failure-next now row s w.0 (omega arith))
    ∙ count_failures-within (t ∷ ts) (record row { day_failures = row.day_failures + 1 }) s
        (omega arith) (omega arith) w.1

-- The row that starts the day at `now`.
abbrev first_row : Timestamp → Option ReauthAttempts → ReauthAttempts
first_row now none = record {
  window = record { window_started_at = now; failures = 0 };
  day_started_at = now;
  day_failures = 1;
}
first_row now (some row) = record row { day_started_at = now; day_failures = 1 }

first_row-count :
    (now : Timestamp) (row : Option ReauthAttempts)
    → DayIsOver now row
    → record_reauth_failure now row ≡ first_row now row
unfolding record_reauth_failure
first_row-count now none over = refl
first_row-count now (some row) over = rw (over') refl
  where
    over' : is_over row.day_started_at (hours 24) now ≡ true
    over' = ground arith

first_row-shape :
    (now : Timestamp) (row : Option ReauthAttempts)
    → ((first_row now row).day_failures ≡ 1) × ((first_row now row).day_started_at ≡ now)
first_row-shape now none = (refl, refl)
first_row-shape now (some row) = (refl, refl)

first_of_day :
    (now : Timestamp) (s : Confirmations)
    → DayIsOver now s.reauth
    → count_failure now s ≡ record s { reauth = some (first_row now s.reauth) }
unfolding count_failure
first_of_day now s over = rw (first_row-count now s.reauth over) (
    not_yet (first_row now s.reauth).day_failures
      (record s { reauth = some (first_row now s.reauth) })
      (rw ((first_row-shape now s.reauth).0) (omega arith)))

-- Ten wrong confirmations within 24 hours of the first one, which starts a day, revoke the
-- account's sessions exactly once.
pub count_failures_sign_out :
    (first : Timestamp) (later : List Timestamp) (s : Confirmations)
    → DayIsOver first s.reauth
    → length later ≡ 9
    → All (λ t. t < first + hours 24) later
    → (count_failures (first ∷ later) s).sessions_revoked ≡ s.sessions_revoked + 1
unfolding count_failures
count_failures_sign_out first later s over n w =
    let shape = first_row-shape first s.reauth in
    ap (λ s'. (count_failures later s').sessions_revoked) (first_of_day first s over)
    ∙ count_failures-within later (first_row first s.reauth) s (rw shape.0 (omega arith))
        (rw shape.0 (omega arith)) (rw shape.1 w)
