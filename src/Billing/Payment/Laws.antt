-- ===== src/Billing/Payment/Laws.antt =====
-- The cases of a change: what is written, and the plan that may come back.
use setlyst_api.Prelude.{
  ◌≡◌, refl, ◌⊎◌, inl, inr, String, true, false, Option, none, some, arith, Timestamp, ==-refl,
  option_eq, text_eq, nat_eq, Bool-cases, Option-cases, ltb, leb, is_none_or, is_some_and, ◌∷◌,
}
use setlyst_api.ApiError.{ok}
use setlyst_api.Billing.Subscription.{
  Subscription, SubscriptionStatus, active, canceled, expired, is_live,
}
use setlyst_api.Billing.Account.{Account, EventKind, grant_restored, restored, Replaced, paid}
use setlyst_api.Billing.Payment.{
  PaymentSnapshot, PaymentChange, changed, mirrors, is_later, period_end_of, trial_end_of,
  interval_of, change_kind, mirrored_row, apply_change, restore_complimentary_grant, restore_if,
  is_canceled, restored_row, find_replaced, map_option, replaced_of, live_change, is_other_plan,
  is_updated,
}

is_later_irrefl : (t : Option Timestamp) → is_later t t ≡ false
is_later_irrefl none = refl
is_later_irrefl (some t) = ground arith

-- The row that mirrors a snapshot has nothing more to learn from it.
pub change_kind-mirrored_row :
    (current : Option Subscription) (p : PaymentSnapshot) (status : SubscriptionStatus)
    (now later : Timestamp)
    → is_live status ≡ true
    → change_kind (mirrored_row current p status now) p status later ≡ none
unfolding change_kind live_change is_other_plan is_updated is_live
change_kind-mirrored_row current p canceled now later h = cc
change_kind-mirrored_row current p expired now later h = cc
change_kind-mirrored_row current p _ now later h = ground (
  arith,
  ==-refl p.plan_code,
  ==-refl (interval_of p),
  is_later_irrefl p.current_period_end,
  ==-refl p.provider_status,
  ==-refl p.unit_amount,
  ==-refl (trial_end_of p),
)

-- Once ended, a snapshot that says so again has nothing to say.
pub change_kind_dead :
    (c : Subscription) (p : PaymentSnapshot) (status : SubscriptionStatus) (now : Timestamp)
    → is_live c.status ≡ false
    → is_live status ≡ false
    → change_kind c p status now ≡ none
unfolding change_kind
change_kind_dead c p status now dead over = ground arith

pub mirrors-mirrored_row :
    (current : Option Subscription) (p : PaymentSnapshot) (status : SubscriptionStatus)
    (now : Timestamp)
    → mirrors p.external_ref (mirrored_row current p status now) ≡ true
unfolding mirrors
mirrors-mirrored_row current p status now = ==-refl (some p.external_ref)

-- The account after a complimentary plan came back.
abbrev pub given_back : Account → Subscription → Replaced → Timestamp → String → Account
given_back a s r now reference = record a {
  subscription = some (restored_row s r now);
  events =
      record {
        kind = grant_restored;
        from_plan = none;
        to_plan = some r.plan_code;
        from_status = none;
        to_status = some active;
        details = restored reference;
        actor_id = none;
      }
      ∷ a.events;
}

pub restore_cases :
    (now : Timestamp) (reference : String) (a : Account) (s : Subscription)
    → a.subscription ≡ some s
    → (restore_complimentary_grant now reference a ≡ ok (false, a))
      ⊎ ((r : Replaced) × (find_replaced reference a.events ≡ some r)
          × (is_none_or (λ end. ltb now end) r.current_period_end ≡ true)
          × (restore_complimentary_grant now reference a
              ≡ ok (true, given_back a s r now reference)))
unfolding restore_complimentary_grant
restore_cases now reference a s e = elim (Option-cases (find_replaced reference a.events)) [
  | inl missing ↦ inl (rw (missing, restore_complimentary_grant))
  | inr (r, found) ↦ elim (Bool-cases (is_some_and (λ end. leb end now) r.current_period_end)) [
    | inl over ↦ inl (ground arith)
    | inr runs ↦ inr (r, found, ground arith, ground arith)
  ]
]

-- The account once the mirror and its event are written.
abbrev pub mirrored :
    Option Subscription
    → PaymentSnapshot
    → SubscriptionStatus
    → Timestamp
    → EventKind
    → Account
    → Account
mirrored current p status now kind a = record a {
  subscription = some (mirrored_row current p status now);
  events =
      record {
        kind = kind;
        from_plan = map_option (λ s. s.plan_code) current;
        to_plan = some p.plan_code;
        from_status = map_option (λ s. s.status) current;
        to_status = some status;
        details =
            paid p.external_ref (interval_of p) p.provider_status (replaced_of current p kind now);
        actor_id = none;
      }
      ∷ a.events;
}

abbrev pub change_of : PaymentSnapshot → SubscriptionStatus → Timestamp → EventKind → PaymentChange
change_of p status now kind = record {
  kind = kind;
  plan_code = p.plan_code;
  status = status;
  current_period_end = period_end_of p status now;
}

-- A change writes the mirror; if the subscription ended, the plan it replaced may come back.
pub apply_change_cases :
    (current : Option Subscription) (p : PaymentSnapshot) (status : SubscriptionStatus)
    (now : Timestamp) (kind : EventKind) (a : Account)
    → let m = mirrored current p status now kind a in
      let s = mirrored_row current p status now in
      (apply_change current p status now kind a ≡ ok (changed (change_of p status now kind), m))
      ⊎ ((r : Replaced) × (is_canceled kind ≡ true)
          × (find_replaced p.external_ref m.events ≡ some r)
          × (apply_change current p status now kind a
              ≡ ok (changed (change_of p status now kind), given_back m s r now p.external_ref)))
unfolding apply_change restore_complimentary_grant find_replaced is_live replaced_of
apply_change_cases current p status now kind a = elim (Bool-cases (is_canceled kind)) [
  | inr other ↦ inl (rw (other, restore_if) refl)
  | inl over ↦
      elim (restore_cases now p.external_ref (mirrored current p status now kind a)
        (mirrored_row current p status now) refl) [
          | inl e ↦ inl (rw (over, e) refl)
          | inr (r, found, runs, e) ↦ inr (r, over, found, rw (over, e) refl)
        ]
]
