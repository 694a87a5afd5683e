-- ===== src/Billing/Payment/Ending.antt =====
-- How a paid subscription ends here, and the complimentary plan that it replaced.
use setlyst_api.Prelude.{
  ℕ, ◌≡◌, refl, ◌⊎◌, inl, inr, String, true, Option, some, Timestamp, ◌∷◌, Option-cases, arith,
  Bool-cases, ◌&&◌,
}
use setlyst_api.ApiError.{ok}
use setlyst_api.Billing.Subscription.{Subscription, canceled, is_live}
use setlyst_api.Billing.Account.{Account, EventKind, ended, Replaced}
use setlyst_api.Billing.Payment.{
  restore_complimentary_grant, PaymentChange, mirrors, ended_row, end_paid_subscription,
  find_replaced, false, restored_row, Bool, is_some_and, none,
}
use setlyst_api.Billing.Payment.Laws.{given_back, restore_cases}

-- The account once the end and its event are written.
abbrev pub closed : Account → Subscription → Timestamp → String → EventKind → Option ℕ → Account
closed a c now reference kind actor_id = record a {
  subscription = some (ended_row c now actor_id);
  events =
      record {
        kind = kind;
        from_plan = some c.plan_code;
        to_plan = some c.plan_code;
        from_status = some c.status;
        to_status = some canceled;
        details = ended reference;
        actor_id = actor_id;
      }
      ∷ a.events;
}

abbrev pub end_of : Subscription → Timestamp → EventKind → PaymentChange
end_of c now kind = record {
  kind = kind;
  plan_code = c.plan_code;
  status = canceled;
  current_period_end = some now;
}

-- Ending the current subscription: the row is closed, then a plan may come back.
pub end_cases :
    (a : Account) (c : Subscription) (now : Timestamp) (reference : String) (kind : EventKind)
    (actor_id : Option ℕ)
    → a.subscription ≡ some c
    → mirrors reference c ≡ true
    → is_live c.status ≡ true
    → let m = closed a c now reference kind actor_id in
      (end_paid_subscription now reference kind actor_id a ≡ ok (some (end_of c now kind), m))
      ⊎ ((r : Replaced) × (find_replaced reference m.events ≡ some r)
          × (end_paid_subscription now reference kind actor_id a
              ≡ ok (
                some (end_of c now kind),
                given_back m (ended_row c now actor_id) r now reference,
              )))
unfolding end_paid_subscription restore_complimentary_grant find_replaced
end_cases a c now reference kind actor_id at same live =
    elim (restore_cases now reference (closed a c now reference kind actor_id)
      (ended_row c now actor_id) refl) [
        | inl e ↦ inl (rw (at, same, live, e) refl)
        | inr (r, found, runs, e) ↦ inr (r, found, rw (at, same, live, e) refl)
      ]

-- The row that mirrors a live paid subscription.
abbrev pub is_charging : String → Option Subscription → Bool
is_charging reference = is_some_and (λ t. mirrors reference t && is_live t.status)

given_back_not_charging :
    (s : Subscription) (r : Replaced) (now : Timestamp) (reference : String)
    → is_charging reference (some (restored_row s r now)) ≡ false
unfolding mirrors
given_back_not_charging s r now reference = refl

ended_row_not_charging :
    (c : Subscription) (now : Timestamp) (actor_id : Option ℕ) (reference : String)
    → is_charging reference (some (ended_row c now actor_id)) ≡ false
unfolding is_live
ended_row_not_charging c now actor_id reference = ground arith

-- Ending a paid subscription always goes through; afterwards no live row of the account mirrors
-- it, and the account is as it was unless one did before.
pub end_paid_subscription_ends :
    (a : Account) (now : Timestamp) (reference : String) (kind : EventKind) (actor_id : Option ℕ)
    → (b : Account) × (change : Option PaymentChange) × (end_paid_subscription now reference kind
          actor_id a
        ≡ ok (change, b))
      × (is_charging reference b.subscription ≡ false)
      × ((b ≡ a) ⊎ (is_charging reference a.subscription ≡ true))
unfolding end_paid_subscription
end_paid_subscription_ends a now reference kind actor_id = elim (Option-cases a.subscription) [
  | inl nothing ↦ (a, none, ground (arith, nothing), ground (arith, nothing), inl refl)
  | inr (c, at) ↦ elim (Bool-cases (mirrors reference c && is_live c.status)) [
    | inr other ↦ (a, none, ground (arith, at, other), ground (arith, at, other), inl refl)
    | inl current ↦
        elim (end_cases a c now reference kind actor_id at (ground arith) (ground arith)) [
          | inl e ↦
              (_, _, e, ended_row_not_charging c now actor_id reference, inr (ground (arith, at)))
          | inr (r, found, e) ↦ (
            _,
            _,
            e,
            given_back_not_charging (ended_row c now actor_id) r now reference,
            inr (ground (arith, at)),
          )
        ]
  ]
]
