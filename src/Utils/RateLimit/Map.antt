-- ===== src/Utils/RateLimit/Map.antt =====
-- The map of the limiter against the log of all hits: a sweep and a changed queue keep it true.
use setlyst_api.Prelude.{
  ℕ, ◌≤◌, true, false, not, ◌==◌, PartialEq, nat_eq, List, [], ◌∷◌, ◌++◌, filter, any, All, All-map,
  update_where, Bool-cases, inl, inr, ◌≡◌, refl, sym, ap, ◌∙◌, arith, ==→≡, ==-refl, if-both,
}
use setlyst_api.Utils.RateLimit.{
  SlidingWindowLimiter, Entry, Hits, is_idle, prune, is_key, queue_of, put,
}
use setlyst_api.Utils.RateLimit.Spec.{recent, Log}
use setlyst_api.Utils.RateLimit.Queue.{
  IsAscending, recent-recent, recent-IsAscending, recent-++, All-recent, append-IsAscending,
  idle-recent,
}

-- From `at` on, the queue and the log show the same hits.
abbrev Agrees : ℕ → ℕ → List ℕ → List ℕ → Type 0
Agrees w at q l = (now : ℕ) → at ≤ now → recent w now q ≡ recent w now l

pub record IsQueue (w at : ℕ) (q l : List ℕ) : Type 0 where
  pub ascending : IsAscending q
  pub past : All (λ t. t ≤ at) q
  pub agrees : (now : ℕ) → at ≤ now → recent w now q ≡ recent w now l

later-IsQueue : (w at now : ℕ) (q l : List ℕ) → at ≤ now → IsQueue w at q l → IsQueue w now q l
later-IsQueue w at now q l less h = record {
  ascending = h.ascending;
  past = All-map (λ t below. omega arith) q h.past;
  agrees = λ later more. h.agrees later (omega arith);
}

pub recent-IsQueue :
    (w now : ℕ) (q l : List ℕ) → IsQueue w now q l → IsQueue w now (recent w now q) l
recent-IsQueue w now q l h = record {
  ascending = recent-IsAscending w now q h.ascending;
  past = All-recent (λ t. t ≤ now) w now q h.past;
  agrees = λ later more. recent-recent w now later q more ∙ h.agrees later more;
}

pub append-IsQueue :
    (w now : ℕ) (q l : List ℕ)
    → IsQueue w now q l
    → IsQueue w now (q ++ (now ∷ [])) (l ++ (now ∷ []))
append-IsQueue w now q l h =
    let (sorted, all) = append-IsAscending q now h.ascending h.past in
    record {
      ascending = sorted;
      past = all;
      agrees = λ later more.
          recent-++ w later q (now ∷ [])
          ∙ ap (λ r. r ++ recent w later (now ∷ [])) (h.agrees later more)
          ∙ sym (recent-++ w later l (now ∷ []));
    }

module _ {ℓ} {K : Type ℓ} ⦃same : PartialEq K⦄ where
  ==-sym : (x y : K) → (x == y) ≡ true → (y == x) ≡ true
  ==-sym x y h = rw (==→≡ x y h) (==-refl y)

  ==-apart : (x y : K) → (x == y) ≡ false → (y == x) ≡ false
  ==-apart x y h = elim (Bool-cases (y == x)) [
    | inl e ↦ absurd (ground (arith, ==-sym y x e, h))
    | inr e ↦ e
  ]

  abbrev pub IsEntry : ℕ → ℕ → Log K → Entry K → Type 0
  IsEntry w at log e = IsQueue w at e.queue (log e.key)

  -- The map holds what still counts of the log.
  pub record IsRefined (w at : ℕ) (m : List (Entry K)) (log : Log K) : Type ℓ where
    pub entries : All (IsEntry w at log) m
    pub absent :
        (k : K) → any (is_key k) m ≡ false → (now : ℕ) → at ≤ now → [] ≡ recent w now (log k)

  pub queue_of-IsQueue :
      (w at : ℕ) (m : List (Entry K)) (log : Log K) (k : K)
      → All (IsEntry w at log) m
      → (any (is_key k) m ≡ false → Agrees w at [] (log k))
      → IsQueue w at (queue_of k m) (log k)
  unfolding queue_of
  queue_of-IsQueue w at [] log k entries absent = record {
    ascending = tt;
    past = tt;
    agrees = absent refl;
  }
  queue_of-IsQueue w at (e ∷ es) log k entries absent = elim (Bool-cases (is_key k e)) [
    | inl here ↦ rw here (rw (==→≡ e.key k here) at entries.0)
    | inr other ↦
        rw other
          (queue_of-IsQueue w at es log k entries.1 (λ none_left. absent (rw other none_left)))
  ]

  idle-Agrees :
      (w now : ℕ) (e : Entry K) (l : List ℕ)
      → IsQueue w now e.queue l
      → not (is_idle w now e) ≡ false
      → Agrees w now [] l
  idle-Agrees w now e l h idle later more =
      let over = idle-recent w now e.queue h.ascending (ground (arith, idle)) in
      ap (recent w later) (sym over) ∙ recent-recent w now later e.queue more ∙ h.agrees later more

  filter-entries :
      (w now : ℕ) (m : List (Entry K)) (log : Log K)
      → All (IsEntry w now log) m
      → All (IsEntry w now log) (filter (λ e. not (is_idle w now e)) m)
  filter-entries w now [] log h = tt
  filter-entries w now (e ∷ es) log h = elim (Bool-cases (not (is_idle w now e))) [
    | inl kept ↦ rw kept (h.0, filter-entries w now es log h.1)
    | inr gone ↦ rw gone (filter-entries w now es log h.1)
  ]

  filter-absent :
      (w now : ℕ) (m : List (Entry K)) (log : Log K) (k : K)
      → All (IsEntry w now log) m
      → (any (is_key k) m ≡ false → Agrees w now [] (log k))
      → any (is_key k) (filter (λ e. not (is_idle w now e)) m) ≡ false
      → Agrees w now [] (log k)
  filter-absent w now [] log k h absent gone = absent refl
  filter-absent w now (e ∷ es) log k h absent gone = elim (Bool-cases (not (is_idle w now e))) [
    | inl kept ↦ elim (Bool-cases (is_key k e)) [
      | inl here ↦ absurd (ground (arith, rw (kept, here) at gone))
      | inr other ↦
          filter-absent w now es log k h.1 (λ n. absent (rw other n)) (rw (kept, other) at gone)
    ]
    | inr idle ↦ elim (Bool-cases (is_key k e)) [
      | inl here ↦ rw (==→≡ e.key k here) at (idle-Agrees w now e (log e.key) h.0 idle)
      | inr other ↦ filter-absent w now es log k h.1 (λ n. absent (rw other n)) (rw idle at gone)
    ]
  ]

  pub later-IsRefined :
      (w at now : ℕ) (m : List (Entry K)) (log : Log K)
      → at ≤ now
      → IsRefined w at m log
      → IsRefined w now m log
  later-IsRefined w at now m log less h = record {
    entries =
        All-map (λ (e : Entry K) ok. later-IsQueue w at now e.queue (log e.key) less ok) m
          h.entries;
    absent = λ k none_of later more. h.absent k none_of later (omega arith);
  }

  pub prune-IsRefined :
      (l : SlidingWindowLimiter) (now : ℕ) (s : Hits K) (log : Log K)
      → IsRefined l.window now s.map log
      → IsRefined l.window now (prune l now s).map log
  unfolding prune
  prune-IsRefined l now s log h =
      if-both (λ (t : Hits K). IsRefined l.window now t.map log) _ _ s
        (λ _. record {
          entries = filter-entries l.window now s.map log h.entries;
          absent = λ k. filter-absent l.window now s.map log k h.entries (h.absent k);
        })
        (λ _. h)

  -- The log with the hits of one key changed.
  module _ (w now : ℕ) (k : K) (q : List ℕ) (log after : Log K)
      (others : (j : K) → (j == k) ≡ false → after j ≡ log j) (ok : IsQueue w now q (after k)) where
    other_entries :
        (m : List (Entry K))
        → any (is_key k) m ≡ false
        → All (IsEntry w now log) m
        → All (IsEntry w now after) m
    other_entries [] none_of h = tt
    other_entries (e ∷ es) none_of h = elim (Bool-cases (is_key k e)) [
      | inl here ↦ absurd (ground (arith, rw here at none_of))
      | inr other ↦ (rw (others e.key other) h.0, other_entries es (rw other at none_of) h.1)
    ]

    updated_entries :
        (m : List (Entry K))
        → All (IsEntry w now log) m
        → All (IsEntry w now after) (update_where (is_key k) (λ _. record { key = k; queue = q }) m)
    updated_entries [] h = tt
    updated_entries (e ∷ es) h = elim (Bool-cases (is_key k e)) [
      | inl here ↦ rw here (ok, updated_entries es h.1)
      | inr other ↦ rw other (rw (others e.key other) h.0, updated_entries es h.1)
    ]

  updated_absent :
      (j k : K) (q : List ℕ) (m : List (Entry K))
      → any (is_key j) (update_where (is_key k) (λ _. record { key = k; queue = q }) m) ≡ false
      → any (is_key j) m ≡ false
  updated_absent j k q [] gone = refl
  updated_absent j k q (e ∷ es) gone = elim (Bool-cases (is_key k e)) [
    | inl here ↦ elim (Bool-cases (k == j)) [
      | inl same_key ↦ absurd (ground (arith, rw (here, same_key) at gone))
      | inr apart ↦
          let rest = updated_absent j k q es (rw (here, apart) at gone) in
          rw (==→≡ e.key k here, apart) rest
    ]
    | inr other ↦ elim (Bool-cases (is_key j e)) [
      | inl mine ↦ absurd (ground (arith, rw (other, mine) at gone))
      | inr not_mine ↦ rw not_mine (updated_absent j k q es (rw (other, not_mine) at gone))
    ]
  ]

  updated_present :
      (k : K) (q : List ℕ) (m : List (Entry K))
      → any (is_key k) m ≡ true
      → any (is_key k) (update_where (is_key k) (λ _. record { key = k; queue = q }) m) ≡ true
  updated_present k q [] h = absurd (ground arith)
  updated_present k q (e ∷ es) h = elim (Bool-cases (is_key k e)) [
    | inl here ↦ rw (here, ==-refl k) refl
    | inr other ↦ rw (other, other) (updated_present k q es (rw other at h))
  ]

  put-absent :
      (j k : K) (q : List ℕ) (m : List (Entry K))
      → any (is_key j) (put k q m) ≡ false
      → ((j == k) ≡ false) × (any (is_key j) m ≡ false)
  unfolding put
  put-absent j k q m gone = elim (Bool-cases (any (is_key k) m)) [
    | inl known ↦
        let gone_there = rw known at gone in
        (
          elim (Bool-cases (j == k)) [
            | inl mine ↦
                absurd
                  (ground (arith, updated_present k q m known, rw (==→≡ j k mine) at gone_there))
            | inr other ↦ other
          ],
          updated_absent j k q m gone_there,
        )
    | inr new ↦ elim (Bool-cases (k == j)) [
      | inl mine ↦ absurd (ground (arith, rw (new, mine) at gone))
      | inr other ↦ (==-apart k j other, rw (new, other) at gone)
    ]
  ]

  put-entries :
      (w now : ℕ) (k : K) (q : List ℕ) (log after : Log K)
      → ((j : K) → (j == k) ≡ false → after j ≡ log j)
      → IsQueue w now q (after k)
      → (m : List (Entry K)) → All (IsEntry w now log) m
      → All (IsEntry w now after) (put k q m)
  unfolding put
  put-entries w now k q log after others ok m h = elim (Bool-cases (any (is_key k) m)) [
    | inl known ↦ rw known (updated_entries w now k q log after others ok m h)
    | inr new ↦ rw new (ok, other_entries w now k q log after others ok m new h)
  ]

  pub put-IsRefined :
      (w now : ℕ) (k : K) (q : List ℕ) (log after : Log K) (m : List (Entry K))
      → ((j : K) → (j == k) ≡ false → after j ≡ log j)
      → IsQueue w now q (after k)
      → IsRefined w now m log
      → IsRefined w now (put k q m) after
  put-IsRefined w now k q log after m others ok h = record {
    entries = put-entries w now k q log after others ok m h.entries;
    absent = λ j gone later more.
        let (apart, before) = put-absent j k q m gone in
        rw (others j apart) (h.absent j before later more);
  }
