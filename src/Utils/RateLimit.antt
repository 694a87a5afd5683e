-- ===== src/Utils/RateLimit.antt =====
-- src/utils/rate_limit.rs: the sliding-window limiter. An instant and a duration are numbers of
-- microseconds, and `duration_since` stops at 0. The map is the list of its entries, and a queue
-- has its oldest hit first. Every call holds the mutex, so calls run one after another; a mutex
-- that a panic poisoned lets every hit pass, and is left out.
pub mod Spec
pub mod Queue
pub mod Map
pub mod Refines
use setlyst_api.Prelude.{
  ℕ, ◌+◌, ◌-◌, ◌*◌, Bool, true, false, not, ◌&&◌, ◌==◌, PartialEq, List, [], ◌∷◌, ◌++◌, Option,
  none, some, any, filter, length, update_where, is_some_and, is_none_or, unwrap_or, leb, ltb,
  if◌then◌else◌,
}

abbrev pub prune_interval : ℕ
prune_interval = 60 * 1_000_000

abbrev pub prune_threshold : ℕ
prune_threshold = 10_000

pub record Entry {ℓ} (K : Type ℓ) : Type ℓ where
  pub key : K
  pub queue : List ℕ

pub record Hits {ℓ} (K : Type ℓ) : Type ℓ where
  pub map : List (Entry K)
  pub last_prune : Option ℕ

-- `new` sets the limits.
pub record SlidingWindowLimiter : Type 0 where
  pub window : ℕ
  pub max : ℕ

abbrev pub front : List ℕ → Option ℕ
front [] = none
front (t ∷ ts) = some t

abbrev pub back : List ℕ → Option ℕ
back [] = none
back (t ∷ []) = some t
back (t ∷ u ∷ ts) = back (u ∷ ts)

-- The `while` loop over the front of a queue.
abbrev pub drop_old : ℕ → ℕ → List ℕ → List ℕ
drop_old window now [] = []
drop_old window now (t ∷ ts) =
    let rest = drop_old window now ts in if leb window (now - t) then rest else t ∷ ts

module _ {ℓ} {K : Type ℓ} where
  abbrev pub is_idle : ℕ → ℕ → Entry K → Bool
  is_idle window now e = not (is_some_and (λ t. ltb (now - t) window) (back e.queue))

  unfoldable pub prune : SlidingWindowLimiter → ℕ → Hits K → Hits K
  prune l now s =
      if ltb prune_threshold (length s.map)
        && is_none_or (λ at. leb prune_interval (now - at)) s.last_prune
      then record { map = filter (λ e. not (is_idle l.window now e)) s.map; last_prune = some now }
      else s

module _ {ℓ} {K : Type ℓ} ⦃same : PartialEq K⦄ where
  abbrev pub is_key : K → Entry K → Bool
  is_key k e = e.key == k

  -- `entry(key).or_default()`
  unfoldable pub queue_of : K → List (Entry K) → List ℕ
  queue_of k [] = []
  queue_of k (e ∷ es) = let rest = queue_of k es in if is_key k e then e.queue else rest

  unfoldable pub put : K → List ℕ → List (Entry K) → List (Entry K)
  put k q es =
      if any (is_key k) es
      then update_where (is_key k) (λ _. record { key = k; queue = q }) es
      else record { key = k; queue = q } ∷ es

  -- None where the hit is let through, or the time to wait.
  unfoldable pub check_at : SlidingWindowLimiter → K → ℕ → Hits K → Option ℕ × Hits K
  check_at l k now s =
      let swept = prune l now s in
      let queue = drop_old l.window now (queue_of k swept.map) in
      if leb l.max (length queue)
      then (
        some (l.window - (now - unwrap_or (front queue) now)),
        record swept { map = put k queue swept.map },
      )
      else (none, record swept { map = put k (queue ++ (now ∷ [])) swept.map })
