-- ===== src/Security/Tests.antt =====
-- The security theorems at concrete requests.
use setlyst_api.Security.Codes.Interleaved
use setlyst_api.Security.Codes.Interleaved.{Interleaving, IsRoomy}
use setlyst_api.Security.Codes.Interleaved.Limits.{Interleaving_limits}
use setlyst_api.Prelude.{
  nat_eq, text_eq, ◌+◌, ◌≤◌, ◌≡◌, refl, none, some, List, [], ◌∷◌, false, Bool, Timestamp, arith,
  days, minutes, seconds, String, All,
}
use setlyst_api.Security.Limiter.{Confirmations}
use setlyst_api.Security.Limiter.Window.{wrong_answers, wrong_answers_bound}
use setlyst_api.Security.Limiter.SignOut.{count_failures, count_failures_sign_out}
use setlyst_api.Security.Codes.{
  Codes, NewCode, create_code, check_code, code_limits, password_reset, limited, VerificationCode,
  refusal, requests_since, wait_of, code_failures_since, last_request, requests_by,
  record_code_failure, claim_code_attempt, code_where, code_max_attempts, is_claimable, update_code,
}
use setlyst_api.Security.Codes.Issue.{create_code_spaced}
use setlyst_api.Security.Codes.Guesses.Run.{
  IsValid, CodesRun, later, here, create, CodesRun-IsValid, check,
}
use setlyst_api.Quota.Guard.Laws.{here}

abbrev guessing : Confirmations
guessing = record {
  second_factor = some (record { window_started_at = days 10; failures = 4 });
  reauth = none;
  sessions_revoked = 0;
}

abbrev guesses : List (Timestamp × Bool)
guesses =
    (days 10 + minutes 1, false) ∷ (days 10 + minutes 2, false) ∷ (days 10 + minutes 15, false) ∷ []

wrong_answers_bound_example : wrong_answers guesses guessing ≤ 10
wrong_answers_bound_example =
    wrong_answers_bound (days 10 + minutes 1) guesses guessing (omega arith)
      ((omega arith, omega arith), ((omega arith, omega arith), ((omega arith, omega arith), tt)))

abbrev nine_more : List Timestamp
nine_more =
    days 10 ∷ days 10 ∷ days 10 ∷ days 10 ∷ days 10 ∷ days 10 ∷ days 10 ∷ days 10 ∷ days 10 ∷ []

count_failures_sign_out_example :
    (count_failures (days 10 ∷ nine_more) guessing).sessions_revoked ≡ 1
count_failures_sign_out_example = count_failures_sign_out (days 10) nine_more guessing tt refl (
  omega arith,
  (
    omega arith,
    (
      omega arith,
      (omega arith, (omega arith, (omega arith, (omega arith, (omega arith, (omega arith, tt)))))),
    ),
  ),
)

abbrev no_codes : Codes
no_codes = record { codes = []; requests = [] }

abbrev first_code : NewCode
first_code = record {
  id = 1;
  code_hash = "h";
  code_enc = "e";
  target_email = "ana@example.com";
  expires_at = days 10 + minutes 15;
  min_remaining = minutes 7;
  requester = "203.0.113.7";
}

create_code_spaced_example :
    (create_code
      (code_limits password_reset)
      (days 10 + seconds 20)
      first_code
      (create_code (code_limits password_reset) (days 10) first_code no_codes).1).0
    ≡ limited 40
unfolding code_limits refusal wait_of last_request requests_by requests_since code_failures_since
create_code_spaced_example =
    create_code_spaced (code_limits password_reset) (days 10) (days 10 + seconds 20) first_code
      first_code no_codes refl (omega arith) (omega arith) (omega arith)

abbrev sent : Codes
sent = (create_code (code_limits password_reset) (days 10) first_code no_codes).1

abbrev wrong_code : VerificationCode → Bool
wrong_code c = false

abbrev guessed_once : Codes
guessed_once = record sent { codes = (check_code (days 10 + minutes 1) wrong_code sent.codes).1 }

guessing_run :
    CodesRun (code_limits password_reset) (days 10) no_codes (days 10 + minutes 1) guessed_once
guessing_run =
    later (days 10 + minutes 1) (later (days 10) here (omega arith) (create first_code))
      (omega arith) (check wrong_code)

CodesRun-IsValid_example : IsValid (code_limits password_reset) (days 10 + minutes 1) guessed_once
unfolding code_limits requests_since code_failures_since
CodesRun-IsValid_example =
    CodesRun-IsValid (code_limits password_reset) (days 10) no_codes (days 10 + minutes 1)
      guessed_once (record { in_window = omega arith; of_day = omega arith; of_code = tt })
      guessing_run

abbrev open_code : VerificationCode
open_code = record {
  id = 1;
  code_hash = "h";
  code_enc = some "e";
  target_email = "ana@example.com";
  attempts = 3;
  failed_attempts = 3;
  expires_at = days 10 + minutes 15;
  consumed_at = none;
  created_at = days 10;
}

abbrev contested : Codes
contested = record { codes = open_code ∷ []; requests = [] }

-- Two guesses are claimed before the first of them is counted as wrong.
abbrev race_end : Codes
race_end = record contested {
  codes =
      record_code_failure 1
        (claim_code_attempt 1 code_max_attempts (days 10)
          (claim_code_attempt 1 code_max_attempts (days 10) contested.codes).1).1;
}

race : Interleaving (code_limits password_reset) 1 (days 10) contested (days 10) race_end 2 0
unfolding claim_code_attempt code_where is_claimable update_code
race =
    Interleaved.fail (days 10) 1
      (Interleaved.claim (days 10) 5
        (Interleaved.claim (days 10) 4 Interleaved.here (omega arith) refl) (omega arith) refl)
      (omega arith)

Interleaving_limits_example :
    (requests_since (seconds 86_400) (days 10) race_end.requests ≤ 20)
    × ((requester : String)
        → requests_by requester (seconds 86_400) (days 10) race_end.requests ≤ 5)
    × All IsRoomy race_end.codes
    × (2 ≤ code_max_attempts + 0)
unfolding code_limits requests_since requests_by
Interleaving_limits_example =
    Interleaving_limits (code_limits password_reset) 1 (days 10) (days 10) contested race_end 2 0
      (omega arith) (λ requester. omega arith) (omega arith, tt) race
