-- ===== src/Utils/RateLimit/Queue.antt =====
-- One queue of hits, oldest first, and what of it is within the window.
use setlyst_api.Prelude.{
  ℕ, ◌-◌, ◌≤◌, true, false, List, [], ◌∷◌, ◌++◌, All, Bool-cases, inl, inr, ◌≡◌, refl, arith, ltb,
  leb, is_some_and,
}
use setlyst_api.Utils.RateLimit.{back, drop_old}
use setlyst_api.Utils.RateLimit.Spec.{recent}

abbrev pub IsAscending : List ℕ → Type 0
IsAscending [] = Unit
IsAscending (t ∷ ts) = All (λ u. t ≤ u) ts × IsAscending ts

recent-All :
    (w now t : ℕ) (ts : List ℕ)
    → ltb (now - t) w ≡ true
    → All (λ u. t ≤ u) ts
    → recent w now ts ≡ ts
recent-All w now t [] new h = refl
recent-All w now t (u ∷ us) new h =
    let fresh : ltb (now - u) w ≡ true = ground (arith, new, h.0) in
    rw (fresh, recent-All w now t us new h.1) refl

stale_lem : (w now t : ℕ) → leb w (now - t) ≡ true → ltb (now - t) w ≡ false
stale_lem w now t h = ground arith

fresh_lem : (w now t : ℕ) → leb w (now - t) ≡ false → ltb (now - t) w ≡ true
fresh_lem w now t h = ground arith

pub drop_old-recent : (w now : ℕ) (q : List ℕ) → IsAscending q → drop_old w now q ≡ recent w now q
drop_old-recent w now [] h = refl
drop_old-recent w now (t ∷ ts) h = elim (Bool-cases (leb w (now - t))) [
  | inl old ↦ rw (old, stale_lem w now t old) (drop_old-recent w now ts h.1)
  | inr new ↦
      let fresh = fresh_lem w now t new in rw (new, fresh, recent-All w now t ts fresh h.0) refl
]

pub recent-recent :
    (w now later : ℕ) (q : List ℕ)
    → now ≤ later
    → recent w later (recent w now q) ≡ recent w later q
recent-recent w now later [] h = refl
recent-recent w now later (t ∷ ts) h = elim (Bool-cases (ltb (now - t) w)) [
  | inl fresh ↦ elim (Bool-cases (ltb (later - t) w)) [
    | inl still ↦ rw (fresh, still, recent-recent w now later ts h) refl
    | inr over ↦ rw (fresh, over, recent-recent w now later ts h) refl
  ]
  | inr old ↦
      let over : ltb (later - t) w ≡ false = ground (arith, old, h) in
      rw (old, over) (recent-recent w now later ts h)
]

pub recent-++ :
    (w now : ℕ) (q r : List ℕ) → recent w now (q ++ r) ≡ recent w now q ++ recent w now r
recent-++ w now [] r = refl
recent-++ w now (t ∷ ts) r = elim (Bool-cases (ltb (now - t) w)) [
  | inl fresh ↦ rw (fresh, recent-++ w now ts r) refl
  | inr old ↦ rw (old, recent-++ w now ts r) refl
]

pub All-recent {κ} : (P : ℕ → Type κ) (w now : ℕ) (q : List ℕ) → All P q → All P (recent w now q)
All-recent P w now [] h = tt
All-recent P w now (t ∷ ts) h = elim (Bool-cases (ltb (now - t) w)) [
  | inl fresh ↦ rw fresh (h.0, All-recent P w now ts h.1)
  | inr old ↦ rw old (All-recent P w now ts h.1)
]

pub recent-IsAscending : (w now : ℕ) (q : List ℕ) → IsAscending q → IsAscending (recent w now q)
recent-IsAscending w now [] h = tt
recent-IsAscending w now (t ∷ ts) h = elim (Bool-cases (ltb (now - t) w)) [
  | inl fresh ↦ rw fresh (All-recent (λ u. t ≤ u) w now ts h.0, recent-IsAscending w now ts h.1)
  | inr old ↦ rw old (recent-IsAscending w now ts h.1)
]

-- A hit now goes behind the others.
pub append-IsAscending :
    (q : List ℕ) (now : ℕ)
    → IsAscending q
    → All (λ t. t ≤ now) q
    → IsAscending (q ++ (now ∷ [])) × All (λ t. t ≤ now) (q ++ (now ∷ []))
append-IsAscending [] now h below = ((tt, tt), (omega arith, tt))
append-IsAscending (t ∷ ts) now h below =
    let (sorted, all) = append-IsAscending ts now h.1 below.1 in
    ((above ts h.0, sorted), (below.0, all))
  where
    above : (us : List ℕ) → All (λ u. t ≤ u) us → All (λ u. t ≤ u) (us ++ (now ∷ []))
    above [] a = (below.0, tt)
    above (u ∷ us) a = (a.0, above us a.1)

head_stale : (w now t : ℕ) (ts : List ℕ) → recent w now (t ∷ ts) ≡ [] → ltb (now - t) w ≡ false
head_stale w now t ts h = elim (Bool-cases (ltb (now - t) w)) [
  | inl fresh ↦ absurd (ground (arith, rw fresh at h))
  | inr old ↦ old
]

-- Nothing of an idle queue is within the window.
pub idle-recent :
    (w now : ℕ) (q : List ℕ)
    → IsAscending q
    → is_some_and (λ t. ltb (now - t) w) (back q) ≡ false
    → recent w now q ≡ []
idle-recent w now [] h idle = refl
idle-recent w now (t ∷ []) h idle = rw idle refl
idle-recent w now (t ∷ u ∷ ts) h idle =
    let rest = idle-recent w now (u ∷ ts) h.1 idle in
    let last = head_stale w now u ts rest in
    let old : ltb (now - t) w ≡ false = ground (arith, last, h.0.0) in rw old rest
