-- ===== src/Utils/RateLimit/Spec.antt =====
-- What the limiter promises: it remembers every hit that it let through, and lets one through as
-- long as fewer than `max` of its key are within the window.
use setlyst_api.Prelude.{
  ℕ, ◌-◌, ◌≤◌, ◌==◌, PartialEq, List, [], ◌∷◌, ◌++◌, Option, none, some, filter, length, unwrap_or,
  leb, ltb, if◌then◌else◌,
}
use setlyst_api.Utils.RateLimit.{SlidingWindowLimiter, Hits, front, check_at}

-- The hits within the window that ends now.
abbrev pub recent : ℕ → ℕ → List ℕ → List ℕ
recent window now = filter (λ t. ltb (now - t) window)

pub record Hit {ℓ} (K : Type ℓ) : Type ℓ where
  pub key : K
  pub at : ℕ

-- All hits of each key that were let through, oldest first.
abbrev pub Log {ℓ} : Type ℓ → Type ℓ
Log K = K → List ℕ

-- The clock is monotonic.
abbrev pub IsOrdered {ℓ} : {K : Type ℓ} → ℕ → List (Hit K) → Type 0
IsOrdered at [] = Unit
IsOrdered at (h ∷ hs) = (at ≤ h.at) × IsOrdered h.at hs

module _ {ℓ} {K : Type ℓ} ⦃same : PartialEq K⦄ where
  unfoldable pub allow : SlidingWindowLimiter → K → ℕ → Log K → Option ℕ × Log K
  allow l k now log =
      let hits = recent l.window now (log k) in
      if leb l.max (length hits)
      then (some (l.window - (now - unwrap_or (front hits) now)), log)
      else (none, λ j. if j == k then log j ++ (now ∷ []) else log j)

  -- The answers to a sequence of calls, by the limiter and by its promise.
  unfoldable pub answers : SlidingWindowLimiter → List (Hit K) → Hits K → List (Option ℕ)
  answers l [] s = []
  answers l (h ∷ hs) s =
      let (answer, after) = check_at l h.key h.at s in answer ∷ answers l hs after

  unfoldable pub promised : SlidingWindowLimiter → List (Hit K) → Log K → List (Option ℕ)
  promised l [] log = []
  promised l (h ∷ hs) log =
      let (answer, after) = allow l h.key h.at log in answer ∷ promised l hs after
