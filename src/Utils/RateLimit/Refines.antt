-- ===== src/Utils/RateLimit/Refines.antt =====
-- The limiter keeps its promise: the sweep of idle keys and the dropping of old hits are not seen.
use setlyst_api.Prelude.{
  ℕ, ◌≤◌, ◌==◌, PartialEq, List, [], ◌∷◌, ◌++◌, none, length, Bool-cases, inl, inr, ◌≡◌, refl, ap,
  ◌∙◌, leb, arith, if◌then◌else◌, ==-refl,
}
use setlyst_api.Utils.RateLimit.{SlidingWindowLimiter, Hits, prune, queue_of, check_at}
use setlyst_api.Utils.RateLimit.Spec.{recent, Hit, Log, IsOrdered, allow, answers, promised}
use setlyst_api.Utils.RateLimit.Queue.{drop_old-recent}
use setlyst_api.Utils.RateLimit.Map.{
  IsRefined, later-IsRefined, prune-IsRefined, queue_of-IsQueue, recent-IsQueue, append-IsQueue,
  put-IsRefined,
}

module _ {ℓ} {K : Type ℓ} ⦃same : PartialEq K⦄ where
  -- One call answers as promised, and what it leaves is refined again.
  check_at-allow :
      (l : SlidingWindowLimiter) (k : K) (at now : ℕ) (s : Hits K) (log : Log K)
      → at ≤ now
      → IsRefined l.window at s.map log
      → ((check_at l k now s).0 ≡ (allow l k now log).0)
        × IsRefined l.window now (check_at l k now s).1.map (allow l k now log).1
  unfolding check_at allow
  check_at-allow l k at now s log less h =
      let swept = prune-IsRefined l now s log (later-IsRefined l.window at now s.map log less h) in
      let q = queue_of k (prune l now s).map in
      let ok =
        queue_of-IsQueue l.window now (prune l now s).map log k swept.entries (swept.absent k) in
      let hits = recent l.window now (log k) in
      let same_hits = ok.agrees now (omega arith) in
      let shown = drop_old-recent l.window now q ok.ascending ∙ same_hits in
      let kept = rw same_hits at (recent-IsQueue l.window now q (log k) ok) in
      elim (Bool-cases (leb l.max (length hits))) [
        | inl full ↦
            rw (shown, full)
              (
                refl,
                put-IsRefined l.window now k hits log log (prune l now s).map (λ _ _. refl) kept
                    swept,
              )
        | inr room ↦
            rw (shown, room)
              (
                refl,
                put-IsRefined l.window now k (hits ++ (now ∷ [])) log
                    (λ j. if j == k then log j ++ (now ∷ []) else log j) (prune l now s).map
                    (λ j apart. rw apart refl)
                    (rw (==-refl k) (append-IsQueue l.window now hits (log k) kept)) swept,
              )
      ]

  answers-promised :
      (l : SlidingWindowLimiter) (hs : List (Hit K)) (at : ℕ) (s : Hits K) (log : Log K)
      → IsOrdered at hs
      → IsRefined l.window at s.map log
      → answers l hs s ≡ promised l hs log
  unfolding answers promised
  answers-promised l [] at s log ordered h = refl
  answers-promised l (h ∷ hs) at s log ordered refined =
      let (same_answer, after) = check_at-allow l h.key at h.at s log ordered.0 refined in
      rw same_answer (
        ap (λ rest. (allow l h.key h.at log).0 ∷ rest)
          (answers-promised l hs h.at (check_at l h.key h.at s).1 (allow l h.key h.at log).1
            ordered.1 after))

  -- From the empty map, whatever hits come in the order of a monotonic clock, the limiter, which
  -- drops old hits and sweeps idle keys, answers as its promise does, which remembers every hit: it
  -- lets a hit through exactly if fewer than `max` hits of its key that it let through are within
  -- the window, and else says how long it is until the oldest of them is not (a window if there is none).
  pub answers_refine :
      (l : SlidingWindowLimiter) (hs : List (Hit K))
      → IsOrdered 0 hs
      → answers l hs (record { map = []; last_prune = none }) ≡ promised l hs (λ _. [])
  answers_refine l hs ordered =
      answers-promised l hs 0 (record { map = []; last_prune = none }) (λ _. []) ordered
        (record { entries = tt; absent = λ k gone now more. refl })
