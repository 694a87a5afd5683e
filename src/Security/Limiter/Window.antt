-- ===== src/Security/Limiter/Window.antt =====
-- A fixed window bounds the guesses at a second factor, whatever the times of the requests.
use setlyst_api.Prelude.{
  ℕ, ◌+◌, ◌-◌, ◌≤◌, ◌<◌, Bool, true, false, Option, none, some, List, [], ◌∷◌, arith, All, leb,
  if◌then◌else◌, Timestamp, seconds,
}
use setlyst_api.ApiError.{Result, err, invalid_two_factor_code}
use setlyst_api.Security.Limiter.{
  Confirmations, Attempts, require_second_factor, claim_second_factor_check, counted, count_failure,
  sign_out_after_too_many_failures, release_second_factor_check, second_factor_max_failures,
  window_seconds,
}

-- The answers that were compared and wrong.
abbrev pub wrong : Result (Unit {0}) → ℕ
wrong (err (invalid_two_factor_code _)) = 1
wrong _ = 0

-- How many of the requests, each at its time and with a right or a wrong code, were wrong.
unfoldable pub wrong_answers : List (Timestamp × Bool) → Confirmations → ℕ
wrong_answers [] s = 0
wrong_answers ((now, right) ∷ cs) s =
    let (result, s') = require_second_factor now right s in wrong result + wrong_answers cs s'

abbrev pub WithinLimit : Option Attempts → Type 0
WithinLimit none = Unit
WithinLimit (some row) = row.failures ≤ second_factor_max_failures

-- The wrong answers left until `from` plus the window.
abbrev budget : Timestamp → Option Attempts → ℕ
budget from none = 10
budget from (some row) =
    if leb from row.window_started_at then 5 - row.failures else 10 - row.failures

budget_bound : (from : Timestamp) (row : Option Attempts) → budget from row ≤ 10
budget_bound from none = omega arith
budget_bound from (some row) = ground arith

step-within :
    (now : Timestamp) (right : Bool) (s : Confirmations) (row : Option Attempts)
    → WithinLimit row
    → WithinLimit
        (require_second_factor now right (record s { second_factor = row })).1.second_factor
unfolding require_second_factor claim_second_factor_check counted count_failure
    sign_out_after_too_many_failures release_second_factor_check
step-within now true s none room = omega arith
step-within now false s none room = ground arith
step-within now true s (some row) room = ground arith
step-within now false s (some row) room = ground arith

budget_step :
    (from now : Timestamp) (right : Bool) (s : Confirmations) (row : Option Attempts)
    → WithinLimit row
    → from ≤ now
    → now < from + seconds window_seconds
    → wrong (require_second_factor now right (record s { second_factor = row })).0
        + budget from
            (require_second_factor now right (record s { second_factor = row })).1.second_factor
      ≤ budget from row
unfolding require_second_factor claim_second_factor_check counted count_failure
    sign_out_after_too_many_failures release_second_factor_check
budget_step from now true s none room h k = ground arith
budget_step from now false s none room h k = ground arith
budget_step from now true s (some row) room h k = ground arith
budget_step from now false s (some row) room h k = ground arith

wrong_answers-budget :
    (from : Timestamp) (cs : List (Timestamp × Bool)) (s : Confirmations)
    → WithinLimit s.second_factor
    → All (λ (c : Timestamp × Bool). (from ≤ c.0) × (c.0 < from + seconds window_seconds)) cs
    → wrong_answers cs s ≤ budget from s.second_factor
unfolding wrong_answers
wrong_answers-budget from [] s room h = omega arith
wrong_answers-budget from ((now, right) ∷ cs) s room (h, hs) =
    let s' = (require_second_factor now right s).1 in
    let rest = wrong_answers-budget from cs s' (step-within now right s s.second_factor room) hs in
    let step = budget_step from now right s s.second_factor room h.0 h.1 in omega arith

-- However requests with right and wrong codes come within 15 minutes, at most 10 wrong codes are
-- compared, where the window's counter stands at 5 or less.
pub wrong_answers_bound :
    (from : Timestamp) (cs : List (Timestamp × Bool)) (s : Confirmations)
    → WithinLimit s.second_factor
    → All (λ (c : Timestamp × Bool). (from ≤ c.0) × (c.0 < from + seconds window_seconds)) cs
    → wrong_answers cs s ≤ 10
wrong_answers_bound from cs s room h =
    let fit = wrong_answers-budget from cs s room h in
    let most = budget_bound from s.second_factor in omega arith
