-- ===== src/Security/Codes/Interleaved/Limits.antt =====
-- The limits that hold however concurrent requests interleave.
use native.Mathlib.Nat.{le_trans}
use setlyst_api.Security.Codes.Interleaved.{
  here, create, claim, claim_other, give_back, give_back_other, fail, consume, create_code-IsRoomy,
  All-update, attempts_of-claim_code_attempt, attempts_of_other, attempts_of-update_code,
  All-claim_code_attempt, attempts_of-claim_other, attempts_of-release,
}
use setlyst_api.Prelude.{
  refl, ◌≡◌, inl, inr, text_eq, option_eq, nat_eq, [], ◌∷◌, Timestamp, ℕ, String, List, seconds,
  ◌≤◌, All, arith, Option-cases, ◌+◌, Bool-cases, ◌==◌, ==→≡, false, true,
}
use setlyst_api.Security.Codes.{
  is_live, requests_by, CodeLimits, Codes, NewCode, CodeRequest, VerificationCode, requests_since,
  create_code, refusal, code_max_attempts, record_code_failure, consume_code, release_code_attempt,
  consumed, claim_code_attempt,
}
use setlyst_api.Security.Codes.Interleaved.{
  Interleaving, IsRoomy, attempts_of, create_code-refused, attempts_of-le,
}
use setlyst_api.Security.Codes.Issue.{
  create_code-refused, refusal-none, requests_since-later, create_code-requests, create_code-window,
}
use setlyst_api.Security.Codes.Guesses.Updates.{All-update}

requests_by-later :
    (requester : String) (window t t' : ℕ) (rs : List CodeRequest)
    → t ≤ t'
    → requests_by requester window t' rs ≤ requests_by requester window t rs
unfolding requests_by
requests_by-later requester window t t' [] h = omega arith
requests_by-later requester window t t' (r ∷ rs) h =
    ground (arith, requests_by-later requester window t t' rs h)

create_code-requests_by :
    (limits : CodeLimits) (now : Timestamp) (new : NewCode) (s : Codes) (requester : String)
    → requests_by requester (seconds limits.window_seconds) now s.requests
      ≤ limits.max_per_requester_in_window
    → requests_by requester
        (seconds limits.window_seconds)
        now
        (create_code limits now new s).1.requests
      ≤ limits.max_per_requester_in_window
unfolding requests_by
create_code-requests_by limits now new s requester h =
    elim (Option-cases (refusal limits now new.requester s)) [
      | inr (wait, refused) ↦ rw (create_code-refused limits now new s wait refused) h
      | inl served ↦
          let room = (refusal-none limits now new.requester s served).1.0 in
          elim (Bool-cases (new.requester == requester)) [
            | inl same ↦
                let who : new.requester ≡ requester = ==→≡ new.requester requester same in
                let free = rw who at room in
                rw (create_code-requests limits now new s served) (ground (arith, free))
            | inr other ↦
                rw (create_code-requests limits now new s served) (ground (arith, h, other))
          ]
    ]

-- The limits at a time, with the claims of the code `id` and of what was given back of them.
record IsWithin (limits : CodeLimits) (id : ℕ) (now : Timestamp) (s : Codes) (claims returns : ℕ)
    : Type 0 where
  in_window : requests_since (seconds limits.window_seconds) now s.requests ≤ limits.max_in_window
  by_requester :
      (requester : String)
      → requests_by requester (seconds limits.window_seconds) now s.requests
        ≤ limits.max_per_requester_in_window
  of_code : All IsRoomy s.codes
  of_claims : claims ≤ attempts_of id s.codes + returns

-- What only changes codes keeps the requests.
codes-IsWithin :
    (limits : CodeLimits) (id : ℕ) (t now : Timestamp) (s : Codes) (cs : List VerificationCode)
    (claims returns claims' returns' : ℕ)
    → t ≤ now
    → IsWithin limits id t s claims returns
    → All IsRoomy cs
    → claims' ≤ attempts_of id cs + returns'
    → IsWithin limits id now (record s { codes = cs }) claims' returns'
codes-IsWithin limits id t now s cs claims returns claims' returns' h v roomy counted = record {
  in_window =
      le_trans (requests_since-later (seconds limits.window_seconds) t now s.requests h)
        v.in_window;
  by_requester = λ r.
      le_trans (requests_by-later r (seconds limits.window_seconds) t now s.requests h)
        (v.by_requester r);
  of_code = roomy;
  of_claims = counted;
}

release_code_attempt-IsRoomy :
    (id : ℕ) (cs : List VerificationCode)
    → All IsRoomy cs
    → All IsRoomy (release_code_attempt id cs)
unfolding release_code_attempt
release_code_attempt-IsRoomy id cs h =
    All-update IsRoomy id is_live _ cs (λ c room _. omega arith) h

release_code_attempt_other :
    (id other : ℕ) (cs : List VerificationCode)
    → (other == id) ≡ false
    → attempts_of id (release_code_attempt other cs) ≡ attempts_of id cs
unfolding release_code_attempt
release_code_attempt_other id other cs apart =
    attempts_of_other id other is_live _ cs (λ c. refl) apart

record_code_failure-IsRoomy :
    (id which : ℕ) (cs : List VerificationCode)
    → All IsRoomy cs
    → All IsRoomy (record_code_failure which cs)
      × (attempts_of id (record_code_failure which cs) ≡ attempts_of id cs)
unfolding record_code_failure
record_code_failure-IsRoomy id which cs h = (
  All-update IsRoomy which (λ _. true) _ cs (λ c room _. room) h,
  attempts_of-update_code id which (λ _. true) _ cs (λ c. (refl, refl)),
)

consume_code-IsRoomy :
    (id which : ℕ) (now : Timestamp) (cs : List VerificationCode)
    → All IsRoomy cs
    → All IsRoomy (consume_code which now cs).1
      × (attempts_of id (consume_code which now cs).1 ≡ attempts_of id cs)
unfolding consume_code
consume_code-IsRoomy id which now cs h = (
  All-update IsRoomy which is_live (consumed now) cs (λ c room _. room) h,
  attempts_of-update_code id which is_live (consumed now) cs (λ c. (refl, refl)),
)

run-IsWithin :
    (limits : CodeLimits) (id : ℕ) (start : Timestamp) (s : Codes) (now : Timestamp) (after : Codes)
    (claims returns : ℕ)
    → IsWithin limits id start s 0 0
    → Interleaving limits id start s now after claims returns
    → IsWithin limits id now after claims returns
run-IsWithin limits id start s now after claims returns v here = v
run-IsWithin limits id start s now after claims returns v
      (create {t} {mid} {claims = n} {returns = k} now' new run h apart) =
    let w = run-IsWithin limits id start s t mid n k v run in
    let still = codes-IsWithin limits id t now mid mid.codes n k n k h w w.of_code w.of_claims in
    let (roomy, same) = create_code-IsRoomy limits now id new mid apart w.of_code in
    record {
      in_window = create_code-window limits now new mid still.in_window;
      by_requester = λ r. create_code-requests_by limits now new mid r (still.by_requester r);
      of_code = roomy;
      of_claims = let counted = w.of_claims in omega (arith, same, counted);
    }
run-IsWithin limits id start s now after claims returns v
      (claim {t} {mid} {claims = n} {returns = k} now' m run h won) =
    let w = run-IsWithin limits id start s t mid n k v run in
    let counted = w.of_claims in
    let taken = attempts_of-claim_code_attempt now id m mid.codes won in
    codes-IsWithin limits id t now mid ((claim_code_attempt id code_max_attempts now mid.codes).1) n
      k (n + 1) k h w (All-claim_code_attempt now id mid.codes w.of_code)
      (omega (arith, taken, counted))
run-IsWithin limits id start s now after claims returns v
      (claim_other {t} {mid} {claims = n} {returns = k} now' other run h apart) =
    let w = run-IsWithin limits id start s t mid n k v run in
    let counted = w.of_claims in
    let taken = attempts_of-claim_other now id other mid.codes apart in
    codes-IsWithin limits id t now mid
      ((claim_code_attempt other code_max_attempts now mid.codes).1) n k n k h w
      (All-claim_code_attempt now other mid.codes w.of_code) (omega (arith, taken, counted))
run-IsWithin limits id start s now after claims returns v
      (give_back {t} {mid} {claims = n} {returns = k} now' run h) =
    let w = run-IsWithin limits id start s t mid n k v run in
    let counted = w.of_claims in
    let taken = attempts_of-release id mid.codes in
    codes-IsWithin limits id t now mid (release_code_attempt id mid.codes) n k n (k + 1) h w
      (release_code_attempt-IsRoomy id mid.codes w.of_code) (omega (arith, taken, counted))
run-IsWithin limits id start s now after claims returns v
      (give_back_other {t} {mid} {claims = n} {returns = k} now' other run h apart) =
    let w = run-IsWithin limits id start s t mid n k v run in
    let counted = w.of_claims in
    let taken = release_code_attempt_other id other mid.codes apart in
    codes-IsWithin limits id t now mid (release_code_attempt other mid.codes) n k n k h w
      (release_code_attempt-IsRoomy other mid.codes w.of_code) (omega (arith, taken, counted))
run-IsWithin limits id start s now after claims returns v
      (fail {t} {mid} {claims = n} {returns = k} now' which run h) =
    let w = run-IsWithin limits id start s t mid n k v run in
    let counted = w.of_claims in
    let taken = (record_code_failure-IsRoomy id which mid.codes w.of_code).1 in
    codes-IsWithin limits id t now mid (record_code_failure which mid.codes) n k n k h w
      ((record_code_failure-IsRoomy id which mid.codes w.of_code).0) (omega (arith, taken, counted))
run-IsWithin limits id start s now after claims returns v
      (consume {t} {mid} {claims = n} {returns = k} now' which run h) =
    let w = run-IsWithin limits id start s t mid n k v run in
    let counted = w.of_claims in
    let taken = (consume_code-IsRoomy id which now mid.codes w.of_code).1 in
    codes-IsWithin limits id t now mid ((consume_code which now mid.codes).1) n k n k h w
      ((consume_code-IsRoomy id which now mid.codes w.of_code).0) (omega (arith, taken, counted))

-- However the statements of concurrent requests interleave, at times that do not go back, from a
-- state within the limits: in the window there are never more requests than the account may make,
-- nor more of one requester than it may make; no code has more than five attempts taken; and of a
-- code at most five more attempts go through than were given back, whoever guesses.
pub Interleaving_limits :
    (limits : CodeLimits) (id : ℕ) (start now : Timestamp) (s after : Codes) (claims returns : ℕ)
    → requests_since (seconds limits.window_seconds) start s.requests ≤ limits.max_in_window
    → ((requester : String)
        → requests_by requester (seconds limits.window_seconds) start s.requests
          ≤ limits.max_per_requester_in_window)
    → All IsRoomy s.codes
    → Interleaving limits id start s now after claims returns
    → (requests_since (seconds limits.window_seconds) now after.requests ≤ limits.max_in_window)
      × ((requester : String)
          → requests_by requester (seconds limits.window_seconds) now after.requests
            ≤ limits.max_per_requester_in_window)
      × All IsRoomy after.codes
      × (claims ≤ code_max_attempts + returns)
Interleaving_limits limits id start now s after claims returns window each roomy run =
    let v =
      run-IsWithin limits id start s now after claims returns
        (record {
          in_window = window;
          by_requester = each;
          of_code = roomy;
          of_claims = omega arith;
        })
        run in
    let taken = attempts_of-le id after.codes v.of_code in
    let counted = v.of_claims in
    (v.in_window, v.by_requester, v.of_code, omega (arith, taken, counted))
