-- ===== src/Security/Codes/Issue.antt =====
-- How often codes are sent.
use setlyst_api.Prelude.{
  ℕ, ◌+◌, ◌-◌, ◌≤◌, ◌<◌, ◌≡◌, refl, true, none, some, List, [], ◌∷◌, arith, Option-cases, inl, inr,
  text_eq, nat_eq, lt→ltb, Timestamp, seconds, hours, find, num_seconds, String, ap, ◌∙◌,
}
use setlyst_api.Security.Codes.{
  Codes, CodeRequest, CodeLimits, NewCode, limited, create_code, refusal, requests_since, wait_of,
  requests_by, code_failures_since, is_resendable, last_request, is_recent,
}

pub requests_since-later :
    (window t t' : ℕ) (rs : List CodeRequest)
    → t ≤ t'
    → requests_since window t' rs ≤ requests_since window t rs
unfolding requests_since
requests_since-later window t t' [] h = omega arith
requests_since-later window t t' (r ∷ rs) h = ground (arith, requests_since-later window t t' rs h)

pub refusal-none :
    (limits : CodeLimits) (now : Timestamp) (requester : String) (s : Codes)
    → refusal limits now requester s ≡ none
    → (wait_of limits now s.requests ≡ 0)
      × ((requests_by requester (seconds limits.window_seconds) now s.requests
            < limits.max_per_requester_in_window)
          × ((requests_since (seconds limits.window_seconds) now s.requests < limits.max_in_window)
              × (code_failures_since (hours 24) now s.codes < limits.max_failures_per_day)))
unfolding refusal
refusal-none limits now requester s h = (ground arith, (ground arith, (ground arith, ground arith)))

pub create_code-refused :
    (limits : CodeLimits) (now : Timestamp) (new : NewCode) (s : Codes) (wait : ℕ)
    → refusal limits now new.requester s ≡ some wait
    → create_code limits now new s ≡ (limited wait, s)
unfolding create_code
create_code-refused limits now new s wait e = rw (e, create_code) refl

pub create_code-requests :
    (limits : CodeLimits) (now : Timestamp) (new : NewCode) (s : Codes)
    → refusal limits now new.requester s ≡ none
    → (create_code limits now new s).1.requests
      ≡ record { requester = new.requester; created_at = now } ∷ s.requests
unfolding create_code
create_code-requests limits now new s e =
    elim (Option-cases (find (is_resendable new now) s.codes)) [
      | inl fresh ↦ rw (e, fresh, create_code) refl
      | inr (c, old) ↦ rw (e, old, create_code) refl
    ]

-- A request never leaves the window with more requests than the account may make in it.
pub create_code-window :
    (limits : CodeLimits) (now : Timestamp) (new : NewCode) (s : Codes)
    → requests_since (seconds limits.window_seconds) now s.requests ≤ limits.max_in_window
    → requests_since (seconds limits.window_seconds) now (create_code limits now new s).1.requests
      ≤ limits.max_in_window
unfolding create_code requests_since
create_code-window limits now new s h = elim (Option-cases (refusal limits now new.requester s)) [
  | inl served ↦
      let room = (refusal-none limits now new.requester s served).1.1.0 in
      rw (create_code-requests limits now new s served) (added room)
  | inr (wait, refused) ↦ rw (create_code-refused limits now new s wait refused) h
]
  where
    added :
        requests_since (seconds limits.window_seconds) now s.requests < limits.max_in_window
        → requests_since
            (seconds limits.window_seconds)
            now
            (record { requester = new.requester; created_at = now } ∷ s.requests)
          ≤ limits.max_in_window
    added room = ground arith

wait_of-last :
    (limits : CodeLimits) (now later : Timestamp) (requester : String) (rs : List CodeRequest)
    → later ≤ now + seconds limits.window_seconds
    → wait_of limits later (record { requester = requester; created_at = now } ∷ rs)
      ≡ limits.resend_seconds - num_seconds (later - now)
unfolding wait_of last_request
wait_of-last limits now later requester rs h = ground arith
  where
    recent : is_recent (seconds limits.window_seconds) later now ≡ true
    recent = ground arith

refusal-wait :
    (limits : CodeLimits) (now : Timestamp) (requester : String) (s : Codes)
    → 0 < wait_of limits now s.requests
    → refusal limits now requester s ≡ some (wait_of limits now s.requests)
unfolding refusal
refusal-wait limits now requester s h = rw (lt→ltb 0 (wait_of limits now s.requests) h) refl

-- After a request that was served, another one of the account within the resend interval is
-- refused with the seconds that are left, whoever makes it.
pub create_code_spaced :
    (limits : CodeLimits) (now later : Timestamp) (new next : NewCode) (s : Codes)
    → refusal limits now new.requester s ≡ none
    → now ≤ later
    → later ≤ now + seconds limits.window_seconds
    → num_seconds (later - now) < limits.resend_seconds
    → (create_code limits later next (create_code limits now new s).1).0
      ≡ limited (limits.resend_seconds - num_seconds (later - now))
create_code_spaced limits now later new next s h k l m =
    rw
      (create_code-refused limits later next (create_code limits now new s).1
        (limits.resend_seconds - num_seconds (later - now))
        (refusal-spaced (create_code-requests limits now new s h)))
      refl
  where
    refusal-spaced :
        (create_code limits now new s).1.requests
          ≡ record { requester = new.requester; created_at = now } ∷ s.requests
        → refusal limits later next.requester (create_code limits now new s).1
          ≡ some (limits.resend_seconds - num_seconds (later - now))
    refusal-spaced e =
        let wait =
          ap (wait_of limits later) e ∙ wait_of-last limits now later new.requester s.requests l in
        refusal-wait limits later next.requester (create_code limits now new s).1
          (rw wait (omega arith))
        ∙ ap some wait
