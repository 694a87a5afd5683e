-- ===== src/Security/Codes/Guesses/Updates.antt =====
-- What one update does to the counters of the codes.
use setlyst_api.Prelude.{
  ℕ, ◌+◌, ◌≤◌, ◌<◌, ◌≡◌, refl, Bool, true, false, none, some, List, [], ◌∷◌, arith, if◌then◌else◌,
  Timestamp, nat_eq, All, Bool-cases, inl, inr, ◌==◌, if-both,
}
use setlyst_api.Security.Codes.{
  VerificationCode, update_code, code_max_attempts, consume_all, code_failures_since,
  record_code_failure, is_claimable, code_where, is_live, consumed,
}

-- A code's wrong guesses are claimed attempts, of which it has five.
abbrev pub GuessesBounded : VerificationCode → Type 0
GuessesBounded c = (c.failed_attempts ≤ c.attempts) × (c.attempts ≤ code_max_attempts)

abbrev pub claim : VerificationCode → VerificationCode
claim c = record c { attempts = c.attempts + 1 }

abbrev pub fail : VerificationCode → VerificationCode
fail c = record c { failed_attempts = c.failed_attempts + 1 }

abbrev pub claimed : Timestamp → ℕ → List VerificationCode → List VerificationCode
claimed now id = update_code id (is_claimable code_max_attempts now) claim

pub failures-later :
    (window t t' : ℕ) (cs : List VerificationCode)
    → t ≤ t'
    → code_failures_since window t' cs ≤ code_failures_since window t cs
unfolding code_failures_since
failures-later window t t' [] h = omega arith
failures-later window t t' (c ∷ cs) h = ground (arith, failures-later window t t' cs h)

pub failures-update :
    (window t id extra : ℕ) (p : VerificationCode → Bool) (f : VerificationCode → VerificationCode)
    (cs : List VerificationCode)
    → ((c : VerificationCode)
        → ((f c).created_at ≡ c.created_at) × ((f c).failed_attempts ≤ c.failed_attempts + extra))
    → code_failures_since window t (update_code id p f cs) ≤ code_failures_since window t cs + extra
unfolding code_failures_since update_code
failures-update window t id extra p f [] h = omega arith
failures-update window t id extra p f (c ∷ cs) h =
    let fits = h c in
    let rest = failures-update window t id extra p f cs h in
    if-both (λ xs. code_failures_since window t xs ≤ code_failures_since window t (c ∷ cs) + extra)
      (c.id == id) ((if p c then f c else c) ∷ cs) (c ∷ update_code id p f cs)
      (λ _.
        if-both
          (λ x.
            code_failures_since window t (x ∷ cs) ≤ code_failures_since window t (c ∷ cs) + extra)
          (p c) (f c) c (λ _. rw (fits.0) (ground arith)) (λ _. omega arith))
      (λ _. omega arith)

pub failures-consume_all :
    (window t : ℕ) (now : Timestamp) (cs : List VerificationCode)
    → code_failures_since window t (consume_all now cs) ≡ code_failures_since window t cs
unfolding code_failures_since consume_all
failures-consume_all window t now [] = refl
failures-consume_all window t now (c ∷ cs) = ground (arith, failures-consume_all window t now cs)

pub All-update {κ} :
    (P : VerificationCode → Type κ) (id : ℕ) (p : VerificationCode → Bool)
    (f : VerificationCode → VerificationCode) (cs : List VerificationCode)
    → ((c : VerificationCode) → P c → p c ≡ true → P (f c))
    → All P cs
    → All P (update_code id p f cs)
unfolding update_code
All-update P id p f [] keep h = tt
All-update P id p f (c ∷ cs) keep h =
    if-both (All P) (c.id == id) ((if p c then f c else c) ∷ cs) (c ∷ update_code id p f cs)
      (λ _. (if-both P (p c) (f c) c (λ e. keep c h.0 e) (λ _. h.0), h.1))
      (λ _. (h.0, All-update P id p f cs keep h.1))

pub All-consume_all :
    (now : Timestamp) (cs : List VerificationCode)
    → All GuessesBounded cs
    → All GuessesBounded (consume_all now cs)
unfolding consume_all
All-consume_all now [] h = tt
All-consume_all now (c ∷ cs) h = (
  if-both GuessesBounded (is_live c) (consumed now c) c (λ _. h.0) (λ _. h.0),
  All-consume_all now cs h.1,
)

pub update-hit :
    (id : ℕ) (p : VerificationCode → Bool) (f : VerificationCode → VerificationCode)
    (c : VerificationCode) (cs : List VerificationCode)
    → (c.id == id) ≡ true
    → p c ≡ true
    → update_code id p f (c ∷ cs) ≡ f c ∷ cs
unfolding update_code
update-hit id p f c cs same holds = rw (same, holds, update_code) refl

pub update-miss :
    (id : ℕ) (p : VerificationCode → Bool) (f : VerificationCode → VerificationCode)
    (c : VerificationCode) (cs : List VerificationCode)
    → (c.id == id) ≡ false
    → update_code id p f (c ∷ cs) ≡ c ∷ update_code id p f cs
unfolding update_code
update-miss id p f c cs other = rw (other, update_code) refl

pub where-hit :
    (id : ℕ) (p : VerificationCode → Bool) (c stored : VerificationCode)
    (cs : List VerificationCode)
    → (c.id == id) ≡ true
    → code_where id p (c ∷ cs) ≡ some stored
    → p c ≡ true
unfolding code_where
where-hit id p c stored cs same e = elim (Bool-cases (p c)) [
  | inl holds ↦ holds
  | inr fails ↦ absurd (none_some (rw (same, fails) at e))
]
  where
    none_some : ¬ (none ≡ some stored)
    none_some h = ground arith

pub where-miss :
    (id : ℕ) (p : VerificationCode → Bool) (c stored : VerificationCode)
    (cs : List VerificationCode)
    → (c.id == id) ≡ false
    → code_where id p (c ∷ cs) ≡ some stored
    → code_where id p cs ≡ some stored
unfolding code_where
where-miss id p c stored cs other e = rw other at e

pub claimable_room :
    (now : Timestamp) (c : VerificationCode)
    → is_claimable code_max_attempts now c ≡ true
    → c.attempts < code_max_attempts
unfolding is_claimable
claimable_room now c h = ground arith

-- A wrong guess at a code that could be claimed.
pub All-guess :
    (now : Timestamp) (id : ℕ) (stored : VerificationCode) (cs : List VerificationCode)
    → code_where id (is_claimable code_max_attempts now) cs ≡ some stored
    → All GuessesBounded cs
    → All GuessesBounded (record_code_failure id (claimed now id cs))
unfolding record_code_failure code_where
All-guess now id stored [] e h = absurd (ground arith)
All-guess now id stored (c ∷ cs) e h = elim (Bool-cases (c.id == id)) [
  | inl same ↦
      let can = where-hit id (is_claimable code_max_attempts now) c stored cs same e in
      let room = claimable_room now c can in
      rw
        (
          update-hit id (is_claimable code_max_attempts now) claim c cs same can,
          update-hit id (λ _. true) fail (claim c) cs same refl,
        )
        ((omega arith, omega arith), h.1)
  | inr other ↦
      let rest = where-miss id (is_claimable code_max_attempts now) c stored cs other e in
      rw
        (
          update-miss id (is_claimable code_max_attempts now) claim c cs other,
          update-miss id (λ _. true) fail c (claimed now id cs) other,
        )
        (h.0, All-guess now id stored cs rest h.1)
]

pub failures-guess :
    (window now id : ℕ) (cs : List VerificationCode)
    → code_failures_since window now (record_code_failure id (claimed now id cs))
      ≤ code_failures_since window now cs + 1
unfolding record_code_failure
failures-guess window now id cs =
    let one =
      failures-update window now id 1 (λ _. true) fail (claimed now id cs)
        (λ c. (refl, omega arith)) in
    let none_yet =
      failures-update window now id 0 (is_claimable code_max_attempts now) claim cs
        (λ c. (refl, omega arith)) in
    omega arith
