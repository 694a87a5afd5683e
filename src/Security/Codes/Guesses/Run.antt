-- ===== src/Security/Codes/Guesses/Run.antt =====
-- Every run of requests for codes and of guesses, one after another, keeps the limits.
use setlyst_api.Prelude.{
  inl, inr, refl, ℕ, Timestamp, Bool, List, ◌≤◌, seconds, ◌≡◌, ◌+◌, hours, ◌<◌, arith, All,
  Option-cases, some, find,
}
use setlyst_api.ApiError.{Result}
use setlyst_api.Security.Codes.{
  is_claimable, Codes, VerificationCode, CodeLimits, NewCode, update_code, create_code,
  consume_code, check_code, requests_since, fresh_code, code_failures_since, code_daily_failure_cap,
  code_where, record_code_failure, is_live, code_max_attempts, consumed, refusal, is_resendable,
}
use native.Mathlib.Nat.{le_trans}
use setlyst_api.Security.Codes.Guesses.Updates.{
  GuessesBounded, failures-later, claimed, All-guess, All-update, claim, failures-guess,
  claimable_room, failures-consume_all, All-consume_all,
}
use setlyst_api.Security.Codes.Guesses.{
  Checked, refused, passed, guessed, used_up, check_code-Checked, claimed,
}
use setlyst_api.Security.Codes.Issue.{create_code-window, requests_since-later, create_code-refused}
use setlyst_api.Security.Codes.Guesses.Updates.{failures-update}

-- One request at a time: a request for a code, a whole check of a guess, or the consumption of a
-- code. Checks do not overlap here, and no attempt is given back.
pub data CodesStep (limits : CodeLimits) (now : Timestamp) (s : Codes) : Codes → Type 0 where
  create : (new : NewCode) → CodesStep limits now s (create_code limits now new s).1
  check :
      (right : VerificationCode → Bool)
      → CodesStep limits now s (record s { codes = (check_code now right s.codes).1 })
  consume : (id : ℕ) → CodesStep limits now s (record s { codes = (consume_code id now s.codes).1 })

-- A run from one time to another, which is not before it.
pub data CodesRun (limits : CodeLimits) (start : Timestamp) (s : Codes)
    : Timestamp → Codes → Type 0 where
  here : CodesRun limits start s start s
  later :
      {t : Timestamp} {mid after : Codes} (now : Timestamp)
      → CodesRun limits start s t mid
      → t ≤ now
      → CodesStep limits now mid after
      → CodesRun limits start s now after

-- The limits at a time: the requests of the window, the day's wrong guesses, each code's guesses.
pub record IsValid (limits : CodeLimits) (now : Timestamp) (s : Codes) : Type 0 where
  pub in_window :
      requests_since (seconds limits.window_seconds) now s.requests ≤ limits.max_in_window
  pub of_day : code_failures_since (hours 24) now s.codes ≤ code_daily_failure_cap
  pub of_code : All GuessesBounded s.codes

IsValid-later :
    (limits : CodeLimits) (t now : Timestamp) (s : Codes)
    → t ≤ now
    → IsValid limits t s
    → IsValid limits now s
IsValid-later limits t now s h v = record {
  in_window =
      le_trans (requests_since-later (seconds limits.window_seconds) t now s.requests h)
        v.in_window;
  of_day = le_trans (failures-later (hours 24) t now s.codes h) v.of_day;
  of_code = v.of_code;
}

same_failures :
    (t id : ℕ) (p : VerificationCode → Bool) (f : VerificationCode → VerificationCode)
    (cs : List VerificationCode)
    → ((c : VerificationCode)
        → ((f c).created_at ≡ c.created_at) × ((f c).failed_attempts ≤ c.failed_attempts + 0))
    → code_failures_since (hours 24) t (update_code id p f cs) ≤ code_failures_since (hours 24) t cs
same_failures t id p f cs h = let bound = failures-update (hours 24) t id 0 p f cs h in omega arith

consume_codes :
    (now : Timestamp) (id : ℕ) (cs : List VerificationCode)
    → code_failures_since (hours 24) now cs ≤ code_daily_failure_cap
    → All GuessesBounded cs
    → (code_failures_since (hours 24) now (consume_code id now cs).1 ≤ code_daily_failure_cap)
      × All GuessesBounded (consume_code id now cs).1
unfolding consume_code
consume_codes now id cs h k = (
  le_trans (same_failures now id is_live (consumed now) cs (λ c. (refl, omega arith))) h,
  All-update GuessesBounded id is_live (consumed now) cs (λ c g _. g) k,
)

guess_codes :
    (now : Timestamp) (stored found : VerificationCode) (cs : List VerificationCode)
    → code_failures_since (hours 24) now cs < code_daily_failure_cap
    → code_where stored.id (is_claimable code_max_attempts now) cs ≡ some found
    → All GuessesBounded cs
    → (code_failures_since (hours 24) now (record_code_failure stored.id (claimed now stored.id cs))
        ≤ code_daily_failure_cap)
      × All GuessesBounded (record_code_failure stored.id (claimed now stored.id cs))
guess_codes now stored found cs h e k = (
  le_trans (failures-guess (hours 24) now stored.id cs) (omega arith),
  All-guess now stored.id found cs e k,
)

Checked-codes :
    (now : Timestamp) (cs : List VerificationCode)
    (r : Result VerificationCode × List VerificationCode)
    → Checked now cs r
    → code_failures_since (hours 24) now cs ≤ code_daily_failure_cap
    → All GuessesBounded cs
    → (code_failures_since (hours 24) now r.1 ≤ code_daily_failure_cap) × All GuessesBounded r.1
Checked-codes now cs r (refused e) h k = (h, k)
Checked-codes now cs r (passed stored) h k = (
  le_trans
      (same_failures now stored.id (is_claimable code_max_attempts now) claim cs
        (λ c. (refl, omega arith)))
      h,
  All-update GuessesBounded stored.id (is_claimable code_max_attempts now) claim cs
      (λ c g can. let room = claimable_room now c can in (omega arith, omega arith)) k,
)
Checked-codes now cs r (guessed stored found e cap w) h k = guess_codes now stored found cs cap w k
Checked-codes now cs r (used_up stored found e cap w) h k =
    let (day, each) = guess_codes now stored found cs cap w k in
    consume_codes now stored.id (record_code_failure stored.id (claimed now stored.id cs)) day each

created_codes :
    (limits : CodeLimits) (now : Timestamp) (new : NewCode) (s : Codes)
    → code_failures_since (hours 24) now s.codes ≤ code_daily_failure_cap
    → All GuessesBounded s.codes
    → (code_failures_since (hours 24) now (create_code limits now new s).1.codes
        ≤ code_daily_failure_cap)
      × All GuessesBounded (create_code limits now new s).1.codes
unfolding create_code fresh_code code_failures_since
created_codes limits now new s h k = elim (Option-cases (refusal limits now new.requester s)) [
  | inr (wait, refused_for) ↦ rw (create_code-refused limits now new s wait refused_for) (h, k)
  | inl served ↦ elim (Option-cases (find (is_resendable new now) s.codes)) [
    | inr (c, old) ↦ rw (served, old, create_code) (h, k)
    | inl all_gone ↦
        rw (served, all_gone, create_code)
          (
            rw (failures-consume_all (hours 24) now now s.codes) (ground arith),
            ((omega arith, omega arith), All-consume_all now s.codes k),
          )
  ]
]

step-IsValid :
    (limits : CodeLimits) (now : Timestamp) (s after : Codes)
    → CodesStep limits now s after
    → IsValid limits now s
    → IsValid limits now after
step-IsValid limits now s after (create new) v =
    let (day, each) = created_codes limits now new s v.of_day v.of_code in
    record {
      in_window = create_code-window limits now new s v.in_window;
      of_day = day;
      of_code = each;
    }
step-IsValid limits now s after (check right) v =
    let (day, each) =
      Checked-codes now s.codes _ (check_code-Checked now right s.codes) v.of_day v.of_code in
    record { in_window = v.in_window; of_day = day; of_code = each }
step-IsValid limits now s after (consume id) v =
    let (day, each) = consume_codes now id s.codes v.of_day v.of_code in
    record { in_window = v.in_window; of_day = day; of_code = each }

-- From a state within the limits, whatever requests for codes, guesses and consumptions follow one
-- after another, none of them overlapping and no attempt given back, at times that do not go back:
-- the window never has more requests than the account may make, the codes of the last 24 hours
-- never have more than ten wrong guesses together, and no code ever has more than five.
pub CodesRun-IsValid :
    (limits : CodeLimits) (start : Timestamp) (s : Codes) (now : Timestamp) (after : Codes)
    → IsValid limits start s
    → CodesRun limits start s now after
    → IsValid limits now after
CodesRun-IsValid limits start s now after v here = v
CodesRun-IsValid limits start s now after v (later {t} {mid} _ run h step) =
    step-IsValid limits now mid after step
      (IsValid-later limits t now mid h (CodesRun-IsValid limits start s t mid v run))
