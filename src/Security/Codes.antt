-- ===== src/Security/Codes.antt =====
-- src/database/repositories/security_repository.rs and src/services/account.rs: the e-mailed codes
-- of one account and one purpose (the tables `verification_codes` and `verification_code_requests`,
-- newest first). Issuance holds an advisory lock; every other operation of the repository is one
-- statement. `check_code` and `use_code` run several of them without a lock, and are written here as
-- they run when no other statement on the account comes between; Interleaved has the statements
-- of requests that run at the same time. Ids are
-- the row keys, so an update by id is an update of one row. The clock does not go back, and
-- timestamps of the same account differ. Hashing, encryption and SQL's LOWER are not modelled: a
-- submitted code is right or wrong for the stored hash, and addresses are lower case.
pub mod Issue
pub mod Guesses
pub mod Interleaved
use setlyst_api.Prelude.{
  ℕ, ◌+◌, ◌-◌, min, String, Bool, true, false, ◌&&◌, ◌||◌, Option, none, some, List, [], ◌∷◌, ltb,
  leb, ◌==◌, nat_eq, text_eq, is_none, is_some, if◌then◌else◌, find, count, map, Timestamp, seconds,
  minutes, hours, num_seconds, keep_if,
}
use setlyst_api.ApiError.{Result, ok, err, too_many_attempts, invalid_code, code_expired}

pub data VerificationPurpose : Type 0 where
  email_verification password_reset email_change reauth : VerificationPurpose

pub record CodeLimits : Type 0 where
  pub resend_seconds : ℕ
  pub window_seconds : ℕ
  pub max_per_requester_in_window : ℕ
  pub max_in_window : ℕ
  pub max_failures_per_day : ℕ

abbrev pub code_ttl_minutes : VerificationPurpose → ℕ
code_ttl_minutes reauth = 10
code_ttl_minutes _ = 15

abbrev pub code_max_attempts : ℕ
code_max_attempts = 5

abbrev pub code_daily_failure_cap : ℕ
code_daily_failure_cap = 10

unfoldable pub code_limits : VerificationPurpose → CodeLimits
code_limits reauth = record {
  resend_seconds = 60;
  window_seconds = 3600;
  max_per_requester_in_window = 5;
  max_in_window = 10;
  max_failures_per_day = code_daily_failure_cap;
}
code_limits _ = record {
  resend_seconds = 60;
  window_seconds = 86_400;
  max_per_requester_in_window = 5;
  max_in_window = 20;
  max_failures_per_day = code_daily_failure_cap;
}

pub record CodeRequest : Type 0 where
  pub requester : String
  pub created_at : Timestamp

pub record VerificationCode : Type 0 where
  pub id : ℕ
  pub code_hash : String
  pub code_enc : Option String
  pub target_email : String
  pub attempts : ℕ
  pub failed_attempts : ℕ
  pub expires_at : Timestamp
  pub consumed_at : Option Timestamp
  pub created_at : Timestamp

pub record Codes : Type 0 where
  pub codes : List VerificationCode
  pub requests : List CodeRequest

pub data CodeIssue : Type 0 where
  issued : (id : ℕ) → CodeIssue
  resent : (id : ℕ) → (code_enc : String) → (expires_at : Timestamp) → CodeIssue
  limited : (retry_after_seconds : ℕ) → CodeIssue

-- `created_at >= now - window`.
abbrev pub is_recent : ℕ → Timestamp → Timestamp → Bool
is_recent window now created_at = leb now (created_at + window)

-- COUNT(*) over the requests of the window.
unfoldable pub requests_since : ℕ → Timestamp → List CodeRequest → ℕ
requests_since window now = count (λ (r : CodeRequest). is_recent window now r.created_at)

unfoldable pub requests_by : String → ℕ → Timestamp → List CodeRequest → ℕ
requests_by requester window now =
    count (λ (r : CodeRequest). is_recent window now r.created_at && r.requester == requester)

-- MAX(created_at): the newest request, if the window has it.
unfoldable pub last_request : ℕ → Timestamp → List CodeRequest → Option CodeRequest
last_request window now = find (λ (r : CodeRequest). is_recent window now r.created_at)

-- SUM(failed_attempts) over the codes of the last `window`.
unfoldable pub code_failures_since : ℕ → Timestamp → List VerificationCode → ℕ
code_failures_since window now [] = 0
code_failures_since window now (c ∷ cs) =
    (if is_recent window now c.created_at then c.failed_attempts else 0)
    + code_failures_since window now cs

abbrev pub is_live : VerificationCode → Bool
is_live c = is_none c.consumed_at

-- `UPDATE ... WHERE id = $1 AND p`, and the row as it was.
unfoldable pub update_code :
    ℕ
    → (VerificationCode → Bool)
    → (VerificationCode → VerificationCode)
    → List VerificationCode
    → List VerificationCode
update_code id p f [] = []
update_code id p f (c ∷ cs) =
    if c.id == id then (if p c then f c else c) ∷ cs else c ∷ update_code id p f cs

-- That row, if the update changes it.
unfoldable pub code_where :
    ℕ → (VerificationCode → Bool) → List VerificationCode → Option VerificationCode
code_where id p codes = keep_if p (find (λ (c : VerificationCode). c.id == id) codes)

abbrev pub consumed : Timestamp → VerificationCode → VerificationCode
consumed now c = record c { consumed_at = some now; code_enc = none }

-- What is kept of a request for a code.
pub record NewCode : Type 0 where
  pub id : ℕ
  pub code_hash : String
  pub code_enc : String
  pub target_email : String
  pub expires_at : Timestamp
  pub min_remaining : ℕ
  pub requester : String

-- The seconds to wait since the last request, 0 if it may go on.
unfoldable pub wait_of : CodeLimits → Timestamp → List CodeRequest → ℕ
wait_of limits now requests = elim (last_request (seconds limits.window_seconds) now requests) [
  | none ↦ 0
  | some last ↦ limits.resend_seconds - num_seconds (now - last.created_at)
]

-- The limits that a request meets, in order: `some` seconds to wait.
unfoldable pub refusal : CodeLimits → Timestamp → String → Codes → Option ℕ
refusal limits now requester s =
    let window = seconds limits.window_seconds in
    let wait = wait_of limits now s.requests in
    if ltb 0 wait
    then some wait
    else if leb limits.max_per_requester_in_window (requests_by requester window now s.requests)
        || leb limits.max_in_window (requests_since window now s.requests)
    then some (min limits.window_seconds 3600)
    else if leb limits.max_failures_per_day (code_failures_since (hours 24) now s.codes)
    then some 3600
    else none

-- A code that can be sent again.
unfoldable pub is_resendable : NewCode → Timestamp → VerificationCode → Bool
is_resendable new now c =
    is_live c
    && (is_some c.code_enc
        && (c.target_email == new.target_email && leb (now + new.min_remaining) c.expires_at))

abbrev pub enc_of : VerificationCode → String
enc_of c = elim c.code_enc [ some enc ↦ enc | none ↦ "" ]

unfoldable pub fresh_code : NewCode → Timestamp → VerificationCode
fresh_code new now = record {
  id = new.id;
  code_hash = new.code_hash;
  code_enc = some new.code_enc;
  target_email = new.target_email;
  attempts = 0;
  failed_attempts = 0;
  expires_at = new.expires_at;
  consumed_at = none;
  created_at = now;
}

-- `UPDATE ... SET consumed_at WHERE consumed_at IS NULL`.
unfoldable pub consume_all : Timestamp → List VerificationCode → List VerificationCode
consume_all now [] = []
consume_all now (c ∷ cs) = (if is_live c then consumed now c else c) ∷ consume_all now cs

unfoldable pub create_code : CodeLimits → Timestamp → NewCode → Codes → CodeIssue × Codes
create_code limits now new s = elim (refusal limits now new.requester s) [
  | some wait ↦ (limited wait, s)
  | none ↦
      let requests = record { requester = new.requester; created_at = now } ∷ s.requests in
      elim (find (is_resendable new now) s.codes) [
        | some c ↦ (resent c.id (enc_of c) c.expires_at, record s { requests = requests })
        | none ↦ (
          issued new.id,
          record { codes = fresh_code new now ∷ consume_all now s.codes; requests = requests },
        )
      ]
]

unfoldable pub record_code_failure : ℕ → List VerificationCode → List VerificationCode
record_code_failure id =
    update_code id (λ _. true)
      (λ (c : VerificationCode). record c { failed_attempts = c.failed_attempts + 1 })

unfoldable pub latest_code : List VerificationCode → Option VerificationCode
latest_code = find is_live

unfoldable pub is_claimable : ℕ → Timestamp → VerificationCode → Bool
is_claimable max_attempts now c = is_live c && (ltb c.attempts max_attempts && ltb now c.expires_at)

unfoldable pub claim_code_attempt :
    ℕ → ℕ → Timestamp → List VerificationCode → Option ℕ × List VerificationCode
claim_code_attempt id max_attempts now codes =
    elim (code_where id (is_claimable max_attempts now) codes) [
      | none ↦ (none, codes)
      | some c ↦ (
        some (c.attempts + 1),
        update_code id (is_claimable max_attempts now)
            (λ (c : VerificationCode). record c { attempts = c.attempts + 1 }) codes,
      )
    ]

unfoldable pub release_code_attempt : ℕ → List VerificationCode → List VerificationCode
release_code_attempt id =
    update_code id is_live (λ (c : VerificationCode). record c { attempts = c.attempts - 1 })

unfoldable pub consume_code : ℕ → Timestamp → List VerificationCode → Bool × List VerificationCode
consume_code id now codes =
    (is_some (code_where id is_live codes), update_code id is_live (consumed now) codes)

abbrev pub after_wrong :
    Timestamp → VerificationCode → ℕ → List VerificationCode → List VerificationCode
after_wrong now stored attempts codes =
    let counted = record_code_failure stored.id codes in
    if leb code_max_attempts attempts then (consume_code stored.id now counted).1 else counted

-- `check_code`; `right` is the outcome of the comparison with the stored hash.
unfoldable pub check_code :
    Timestamp
    → (VerificationCode → Bool)
    → List VerificationCode
    → Result VerificationCode × List VerificationCode
check_code now right codes =
    if leb code_daily_failure_cap (code_failures_since (hours 24) now codes)
    then (err (too_many_attempts 3600), codes)
    else elim (latest_code codes) [
      | none ↦ (err (invalid_code 0), codes)
      | some stored ↦
          let (claim, claimed) = claim_code_attempt stored.id code_max_attempts now codes in
          elim claim [
            | none ↦ (
              (if ltb stored.attempts code_max_attempts && leb stored.expires_at now
                  then err code_expired
                  else err (invalid_code 0)),
              claimed,
            )
            | some attempts ↦ if right stored then (ok stored, claimed) else (
              err (invalid_code (code_max_attempts - attempts)),
              after_wrong now stored attempts claimed,
            )
          ]
    ]

-- The service's `consume_code`: the check, then one of several concurrent right guesses gets it.
unfoldable pub use_code :
    Timestamp
    → (VerificationCode → Bool)
    → List VerificationCode
    → Result VerificationCode × List VerificationCode
use_code now right codes =
    let (result, checked) = check_code now right codes in
    elim result [
      | err e ↦ (err e, checked)
      | ok stored ↦
          let (won, after) = consume_code stored.id now checked in
          ((if won then ok stored else err (invalid_code 0)), after)
    ]
