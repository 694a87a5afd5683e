-- ===== src/Security/Codes/Interleaved.antt =====
-- The statements of requests that run at the same time, in any order: issuance (one transaction
-- under a lock) and, each a statement of its own, the claim of an attempt, its return, the count of
-- a wrong guess and the consumption of a code. A check compares a guess only behind a claim.
pub mod Limits
use setlyst_api.Security.Codes.Guesses.Updates
use setlyst_api.Prelude.{
  refl, ◌≡◌, ◌∙◌, ap, sym, inl, inr, text_eq, option_eq, nat_eq, none, some, [], ◌∷◌, ℕ, Bool, ◌≤◌,
  List, ◌==◌, Timestamp, if◌then◌else◌, Bool-cases, ◌+◌, All, false, arith, ==→≡, if-both,
  Option-cases, find,
}
use setlyst_api.Security.Codes.{
  is_live, VerificationCode, CodeLimits, update_code, release_code_attempt, Codes,
  code_max_attempts, NewCode, create_code, claim_code_attempt, record_code_failure, consume_code,
  code_where, consume_all, fresh_code, refusal, is_claimable, is_resendable,
}
use setlyst_api.Security.Codes.Guesses.{claim_none, claim_some}
use setlyst_api.Security.Codes.Guesses.Updates.{
  claimed, where-hit, All-update, update-hit, where-miss, claimable_room, update-miss,
}
use setlyst_api.Security.Codes.Issue.{create_code-refused}

-- The attempts of the code, 0 where there is none.
unfoldable pub attempts_of : ℕ → List VerificationCode → ℕ
attempts_of id [] = 0
attempts_of id (c ∷ cs) = let rest = attempts_of id cs in if c.id == id then c.attempts else rest

-- Statements so far, with the number of claims of the code `id` that went through and of its
-- attempts that were given back. A code that is issued has an id of its own.
pub data Interleaving (limits : CodeLimits) (id : ℕ) (start : Timestamp) (s : Codes)
    : Timestamp → Codes → (claims returns : ℕ) → Type 0 where
  here : Interleaving limits id start s start s 0 0
  create :
      {t : Timestamp} {mid : Codes} {claims returns : ℕ} (now : Timestamp) (new : NewCode)
      → Interleaving limits id start s t mid claims returns
      → t ≤ now
      → (new.id == id) ≡ false
      → Interleaving limits id start s now (create_code limits now new mid).1 claims returns
  claim :
      {t : Timestamp} {mid : Codes} {claims returns : ℕ} (now : Timestamp) (attempts : ℕ)
      → Interleaving limits id start s t mid claims returns
      → t ≤ now
      → (claim_code_attempt id code_max_attempts now mid.codes).0 ≡ some attempts
      → Interleaving limits id start s now
          (record mid { codes = (claim_code_attempt id code_max_attempts now mid.codes).1 })
          (claims + 1)
          returns
  claim_other :
      {t : Timestamp} {mid : Codes} {claims returns : ℕ} (now : Timestamp) (other : ℕ)
      → Interleaving limits id start s t mid claims returns
      → t ≤ now
      → (other == id) ≡ false
      → Interleaving limits id start s now
          (record mid { codes = (claim_code_attempt other code_max_attempts now mid.codes).1 })
          claims
          returns
  give_back :
      {t : Timestamp} {mid : Codes} {claims returns : ℕ} (now : Timestamp)
      → Interleaving limits id start s t mid claims returns
      → t ≤ now
      → Interleaving limits id start s now
          (record mid { codes = release_code_attempt id mid.codes })
          claims
          (returns + 1)
  give_back_other :
      {t : Timestamp} {mid : Codes} {claims returns : ℕ} (now : Timestamp) (other : ℕ)
      → Interleaving limits id start s t mid claims returns
      → t ≤ now
      → (other == id) ≡ false
      → Interleaving limits id start s now
          (record mid { codes = release_code_attempt other mid.codes })
          claims
          returns
  fail :
      {t : Timestamp} {mid : Codes} {claims returns : ℕ} (now : Timestamp) (any : ℕ)
      → Interleaving limits id start s t mid claims returns
      → t ≤ now
      → Interleaving limits id start s now
          (record mid { codes = record_code_failure any mid.codes })
          claims
          returns
  consume :
      {t : Timestamp} {mid : Codes} {claims returns : ℕ} (now : Timestamp) (any : ℕ)
      → Interleaving limits id start s t mid claims returns
      → t ≤ now
      → Interleaving limits id start s now
          (record mid { codes = (consume_code any now mid.codes).1 })
          claims
          returns

abbrev pub IsRoomy : VerificationCode → Type 0
IsRoomy c = c.attempts ≤ code_max_attempts

pub attempts_of-le :
    (id : ℕ) (cs : List VerificationCode) → All IsRoomy cs → attempts_of id cs ≤ code_max_attempts
unfolding attempts_of
attempts_of-le id [] h = omega arith
attempts_of-le id (c ∷ cs) h =
    if-both (λ n. n ≤ code_max_attempts) (c.id == id) c.attempts (attempts_of id cs) (λ _. h.0)
      (λ _. attempts_of-le id cs h.1)

-- An update that leaves attempts alone, or that is of another code.
pub attempts_of-update_code :
    (id other : ℕ) (p : VerificationCode → Bool) (f : VerificationCode → VerificationCode)
    (cs : List VerificationCode)
    → ((c : VerificationCode) → ((f c).attempts ≡ c.attempts) × ((f c).id ≡ c.id))
    → attempts_of id (update_code other p f cs) ≡ attempts_of id cs
unfolding attempts_of update_code
attempts_of-update_code id other p f [] h = refl
attempts_of-update_code id other p f (c ∷ cs) h = elim (Bool-cases (c.id == other)) [
  | inr apart ↦ rw (apart, attempts_of-update_code id other p f cs h) refl
  | inl same ↦ elim (Bool-cases (p c)) [
    | inl holds ↦ rw (same, holds, (h c).0, (h c).1) refl
    | inr fails ↦ rw (same, fails) refl
  ]
]

pub attempts_of_other :
    (id other : ℕ) (p : VerificationCode → Bool) (f : VerificationCode → VerificationCode)
    (cs : List VerificationCode)
    → ((c : VerificationCode) → (f c).id ≡ c.id)
    → (other == id) ≡ false
    → attempts_of id (update_code other p f cs) ≡ attempts_of id cs
unfolding attempts_of update_code
attempts_of_other id other p f [] h apart = refl
attempts_of_other id other p f (c ∷ cs) h apart = elim (Bool-cases (c.id == other)) [
  | inr differs ↦ rw (differs, attempts_of_other id other p f cs h apart) refl
  | inl same ↦
      let is_other : c.id ≡ other = ==→≡ c.id other same in
      let differs : (c.id == id) ≡ false = ap (λ n. n == id) is_other ∙ apart in
      elim (Bool-cases (p c)) [
        | inl holds ↦ rw (same, holds, h c, differs) refl
        | inr fails ↦ rw (same, fails) refl
      ]
]

pub attempts_of-release :
    (id : ℕ) (cs : List VerificationCode)
    → attempts_of id cs ≤ attempts_of id (release_code_attempt id cs) + 1
unfolding attempts_of release_code_attempt update_code
attempts_of-release id [] = omega arith
attempts_of-release id (c ∷ cs) = elim (Bool-cases (c.id == id)) [
  | inr differs ↦ rw (differs, differs) (attempts_of-release id cs)
  | inl same ↦ elim (Bool-cases (is_live c)) [
    | inl live ↦ rw (same, live, same) (omega arith)
    | inr gone ↦ rw (same, gone, same) (omega arith)
  ]
]

attempts_of-claimed :
    (now : Timestamp) (id : ℕ) (found : VerificationCode) (cs : List VerificationCode)
    → code_where id (is_claimable code_max_attempts now) cs ≡ some found
    → attempts_of id (claimed now id cs) ≡ attempts_of id cs + 1
unfolding attempts_of code_where
attempts_of-claimed now id found [] e = absurd (ground (arith, e))
attempts_of-claimed now id found (c ∷ cs) e = elim (Bool-cases (c.id == id)) [
  | inl same ↦
      let can = where-hit id (is_claimable code_max_attempts now) c found cs same e in
      rw (update-hit id (is_claimable code_max_attempts now) Updates.claim c cs same can, same) refl
  | inr differs ↦
      let rest = where-miss id (is_claimable code_max_attempts now) c found cs differs e in
      rw
        (
          update-miss id (is_claimable code_max_attempts now) Updates.claim c cs differs,
          differs,
          attempts_of-claimed now id found cs rest,
        )
        refl
]

-- A claim that goes through takes one attempt.
pub attempts_of-claim_code_attempt :
    (now : Timestamp) (id n : ℕ) (cs : List VerificationCode)
    → (claim_code_attempt id code_max_attempts now cs).0 ≡ some n
    → attempts_of id (claim_code_attempt id code_max_attempts now cs).1 ≡ attempts_of id cs + 1
attempts_of-claim_code_attempt now id n cs h =
    elim (Option-cases (code_where id (is_claimable code_max_attempts now) cs)) [
      | inl stuck ↦
          absurd (ground (arith, h, ap (λ r. r.0) (claim_none id code_max_attempts now cs stuck)))
      | inr (found, e) ↦ rw (claim_some id now found cs e) (attempts_of-claimed now id found cs e)
    ]

pub All-claim_code_attempt :
    (now : Timestamp) (id : ℕ) (cs : List VerificationCode)
    → All IsRoomy cs
    → All IsRoomy (claim_code_attempt id code_max_attempts now cs).1
All-claim_code_attempt now id cs h =
    elim (Option-cases (code_where id (is_claimable code_max_attempts now) cs)) [
      | inl stuck ↦ rw (claim_none id code_max_attempts now cs stuck) h
      | inr (found, e) ↦ rw (claim_some id now found cs e) (
          All-update IsRoomy id (is_claimable code_max_attempts now) Updates.claim cs
            (λ c room can. let free = claimable_room now c can in omega arith) h)
    ]

-- A claim of another code.
pub attempts_of-claim_other :
    (now : Timestamp) (id other : ℕ) (cs : List VerificationCode)
    → (other == id) ≡ false
    → attempts_of id (claim_code_attempt other code_max_attempts now cs).1 ≡ attempts_of id cs
attempts_of-claim_other now id other cs apart =
    elim (Option-cases (code_where other (is_claimable code_max_attempts now) cs)) [
      | inl stuck ↦ rw (claim_none other code_max_attempts now cs stuck) refl
      | inr (found, e) ↦ rw (claim_some other now found cs e) (
          attempts_of_other id other (is_claimable code_max_attempts now) Updates.claim cs
            (λ c. refl) apart)
    ]

consume_all-IsRoomy :
    (now : Timestamp) (id : ℕ) (cs : List VerificationCode)
    → All IsRoomy cs
    → All IsRoomy (consume_all now cs) × (attempts_of id (consume_all now cs) ≡ attempts_of id cs)
unfolding consume_all attempts_of
consume_all-IsRoomy now id [] h = (tt, refl)
consume_all-IsRoomy now id (c ∷ cs) h =
    let (rest, same) = consume_all-IsRoomy now id cs h.1 in
    elim (Bool-cases (is_live c)) [
      | inl live ↦ rw (live, same) ((h.0, rest), refl)
      | inr gone ↦ rw (gone, same) ((h.0, rest), refl)
    ]

pub create_code-IsRoomy :
    (limits : CodeLimits) (now : Timestamp) (id : ℕ) (new : NewCode) (s : Codes)
    → (new.id == id) ≡ false
    → All IsRoomy s.codes
    → All IsRoomy (create_code limits now new s).1.codes
      × (attempts_of id (create_code limits now new s).1.codes ≡ attempts_of id s.codes)
unfolding create_code fresh_code attempts_of
create_code-IsRoomy limits now id new s apart h =
    elim (Option-cases (refusal limits now new.requester s)) [
      | inr (wait, refused_for) ↦
          rw (create_code-refused limits now new s wait refused_for) (h, refl)
      | inl served ↦ elim (Option-cases (find (is_resendable new now) s.codes)) [
        | inr (c, old) ↦ rw (served, old, create_code) (h, refl)
        | inl all_gone ↦
            let (rest, same) = consume_all-IsRoomy now id s.codes h in
            rw (served, all_gone, create_code, apart) ((omega arith, rest), same)
      ]
    ]
