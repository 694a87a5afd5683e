-- ===== src/Access/Entitlements/Laws.antt =====
-- What verifying an address gives, and which plan is proposed.
use setlyst_api.Prelude.{
  ◌≡◌, refl, ◌⊎◌, inl, inr, Bool, true, false, none, some, List, [], ◌∷◌, ◌&&◌, arith, filter, All,
  Bool-cases, In, All-map, In-filter, All-filter,
}
use setlyst_api.Access.Entitlements.{
  Feature, create_bands, Plan, Entitlements, has, is_unverified, is_free, is_cheaper, cheapest,
  cheapest_plan_with,
}

unverified_le_free : (f : Feature) → is_unverified f ≡ true → is_free f ≡ true
unfolding is_unverified is_free
unverified_le_free create_bands h = cc
unverified_le_free _ h = ground arith

-- Verifying the e-mail address never takes a feature away.
pub has-verified :
    (e : Entitlements) (f : Feature)
    → has (record e { email_verified = false }) f ≡ true
    → has (record e { email_verified = true }) f ≡ true
unfolding has
has-verified e f h = ground (arith, unverified_le_free f)

none_pass :
    (test : Plan → Bool) (ps : List Plan) → filter test ps ≡ [] → All (λ q. test q ≡ false) ps
none_pass test [] h = tt
none_pass test (q ∷ ps) h = elim (Bool-cases (test q)) [
  | inl passes ↦ absurd (ground arith)
  | inr fails ↦ (fails, none_pass test ps (ground arith))
]

-- `p` is one of the plans, and none of them is cheaper.
abbrev pub IsCheapest : Plan → List Plan → Type 0
IsCheapest p ps = In p ps × All (λ q. is_cheaper q p ≡ false) ps

still_cheapest :
    (p q : Plan)
    → is_cheaper q p ≡ false
    → (r : Plan) → is_cheaper r q ≡ false
    → is_cheaper r p ≡ false
still_cheapest p q h r k = ground arith

not_cheaper_back : (p q : Plan) → is_cheaper q p ≡ true → is_cheaper p q ≡ false
not_cheaper_back p q h = ground arith

not_cheaper_self : (p : Plan) → is_cheaper p p ≡ false
not_cheaper_self p = ground arith

cheapest-IsCheapest :
    (ps : List Plan)
    → ((cheapest ps ≡ none) × (ps ≡ [])) ⊎ ((p : Plan) × (cheapest ps ≡ some p) × IsCheapest p ps)
unfolding cheapest
cheapest-IsCheapest [] = inl (refl, refl)
cheapest-IsCheapest (p ∷ ps) = elim (cheapest-IsCheapest ps) [
  | inl (nothing, alone) ↦ inr (p, rw nothing refl, (inl refl, (not_cheaper_self p, rw alone tt)))
  | inr (q, least, (at, rest)) ↦ elim (Bool-cases (is_cheaper q p)) [
    | inl below ↦ inr (q, ground arith, (inr at, (not_cheaper_back p q below, rest)))
    | inr above ↦ inr (
      p,
      ground arith,
      (inl refl, (not_cheaper_self p, All-map (still_cheapest p q above) ps rest)),
    )
  ]
]

or_not :
    (test : Plan → Bool) (p q : Plan)
    → (test q ≡ true → is_cheaper q p ≡ false)
    → (test q ≡ false) ⊎ (is_cheaper q p ≡ false)
or_not test p q h = elim (Bool-cases (test q)) [ inl t ↦ inr (h t) | inr f ↦ inl f ]

-- The plan that a refusal proposes is public, includes the feature, and no public plan that
-- includes it is cheaper (by price, then by the sort order); where none is proposed, no public
-- plan includes the feature.
pub cheapest_plan_with_least :
    (plans : List Plan) (f : Feature)
    → ((cheapest_plan_with plans f ≡ none) × All (λ q. (q.is_public && q.has f) ≡ false) plans)
      ⊎ ((p : Plan) × (cheapest_plan_with plans f ≡ some p)
          × ((p.is_public && p.has f) ≡ true)
          × In p plans
          × All (λ q. ((q.is_public && q.has f) ≡ false) ⊎ (is_cheaper q p ≡ false)) plans)
unfolding cheapest_plan_with
cheapest_plan_with_least plans f =
    let test = λ (q : Plan). q.is_public && q.has f in
    elim (cheapest-IsCheapest (filter test plans)) [
      | inl (nothing, alone) ↦ inl (nothing, none_pass test plans alone)
      | inr (p, least, (at, rest)) ↦
          let (passes, listed) = In-filter test p plans at in
          let dear = All-filter (λ q. is_cheaper q p ≡ false) test plans rest in
          inr (p, least, passes, listed, All-map (or_not test p) plans dear)
    ]
