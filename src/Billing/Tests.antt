-- ===== src/Billing/Tests.antt =====
-- The billing theorems at concrete accounts.
use setlyst_api.Billing.Payment.PastDue.{here, next, past_due_since_first}
use setlyst_api.Billing.Payment.{changed}
use setlyst_api.Billing.Payment.Journal
use setlyst_api.Prelude.{
  ◌+◌, ◌≡◌, refl, Option, none, some, [], ◌∷◌, true, false, days, bind_option, ◌↔◌, ◌⊎◌,
  is_some_and, arith, String, ℕ,
}
use setlyst_api.ApiError.{ok, err, Tx}
use setlyst_api.Access.Role.{user, is_staff}
use setlyst_api.Billing.Subscription.{
  SubscriptionStatus, Subscription, active, admin, past_due, is_live, monthly, is_effective,
  is_paid_and_effective, subscription_in_effect, grace,
}
use setlyst_api.Billing.Account.{
  Account, subscribed, record_event, ensure_plan_exists, extended, withdrawn, renewed,
  ensure_not_staff, plan_exists, payment_failed,
}
use setlyst_api.Billing.Grants.{blank, GrantOutcome, grant_plan_time, apply_grant, is_same_plan}
use setlyst_api.Billing.Payment.{
  PaymentSnapshot, PaymentChange, unchanged, apply_payment_subscription, apply_change, apply_other,
  apply_current, standing_ref, change_kind, live_change, is_other_plan, is_updated, replaced_of,
  mirrors, end_paid_subscription, restore_complimentary_grant, find_replaced,
}
use setlyst_api.Billing.Payment.Mirror.{apply_payment_subscription_twice}
use setlyst_api.Billing.Payment.Ending.{is_charging, end_paid_subscription_ends}
use setlyst_api.Billing.Payment.Returns.{complimentary_plan_returns}
use setlyst_api.Billing.Grants.Laws.{
  grant_plan_time_iff, grant_plan_time_covers, grant_plan_time_extends, gives,
}
use setlyst_api.Billing.Withdrawal.Laws.{
  IsTimely, invoices_to_refund-IsTimely, RefundsOnly, invoices_to_refund-RefundsOnly,
}
use setlyst_api.Billing.Withdrawal.{invoices_to_refund, GatewayInvoice}

abbrev free_account : Account
free_account = record {
  role = user;
  plans = "pro" ∷ "basic" ∷ [];
  subscription = none;
  events = [];
  ledger = [];
}

abbrev pro_snapshot : PaymentSnapshot
pro_snapshot = record {
  external_ref = "sub_1";
  plan_code = "pro";
  interval = some monthly;
  status = some active;
  provider_status = "active";
  current_period_end = some (days 40);
  cancel_at_period_end = false;
  ended_at = none;
  trial_end = none;
  unit_amount = some 1990;
  currency = some "BRL";
}

abbrev run : {A : Type 0} → Tx Account A → Account → Account
run m a = elim (m a) [ ok (_, b) ↦ b | err _ ↦ a ]

abbrev pro_account : Account
pro_account = run (apply_payment_subscription (days 10) pro_snapshot) free_account

abbrev pro_change : PaymentChange
pro_change = record {
  kind = subscribed;
  plan_code = "pro";
  status = active;
  current_period_end = some (days 40);
}

apply_payment_subscription_twice_example :
    apply_payment_subscription (days 11) pro_snapshot pro_account ≡ ok (unchanged, pro_account)
unfolding apply_payment_subscription apply_change apply_other apply_current standing_ref change_kind
    live_change is_other_plan is_updated replaced_of mirrors record_event ensure_plan_exists
    is_effective is_paid_and_effective subscription_in_effect is_live grace
apply_payment_subscription_twice_example =
    apply_payment_subscription_twice pro_snapshot (days 10) (days 11) free_account pro_account
      {change = pro_change} refl

abbrev failing_snapshot : PaymentSnapshot
failing_snapshot = record pro_snapshot { status = some past_due; provider_status = "past_due" }

abbrev failing_account : Account
failing_account = run (apply_payment_subscription (days 41) failing_snapshot) pro_account

abbrev renewed_snapshot : PaymentSnapshot
renewed_snapshot = record failing_snapshot { current_period_end = some (days 70) }

abbrev still_failing : Account
still_failing = run (apply_payment_subscription (days 45) renewed_snapshot) failing_account

past_due_since_first_example :
    bind_option still_failing.subscription (λ t. t.past_due_since) ≡ some (days 41)
unfolding apply_payment_subscription apply_change apply_other apply_current standing_ref change_kind
    live_change is_other_plan is_updated replaced_of mirrors record_event ensure_plan_exists
    is_effective is_paid_and_effective subscription_in_effect is_live grace
past_due_since_first_example =
    past_due_since_first failing_snapshot (days 41) pro_account failing_account still_failing
      {change = record {
        kind = payment_failed;
        plan_code = "pro";
        status = past_due;
        current_period_end = some (days 40);
      }}
      refl refl refl
      (next renewed_snapshot (days 45)
        (changed (record {
          kind = renewed;
          plan_code = "pro";
          status = past_due;
          current_period_end = some (days 70);
        }))
        here refl refl refl)

abbrev gift : Subscription
gift = record (blank "basic" active admin (days 1)) { current_period_end = some (days 100) }

abbrev gift_account : Account
gift_account = record free_account { subscription = some gift }

abbrev bought_account : Account
bought_account = run (apply_payment_subscription (days 10) pro_snapshot) gift_account

abbrev next_year : PaymentSnapshot
next_year = record pro_snapshot { current_period_end = some (days 90) }

abbrev extended_account : Account
extended_account = run (apply_payment_subscription (days 12) next_year) bought_account

abbrev returned_account : Account
returned_account = run (end_paid_subscription (days 15) "sub_1" withdrawn none) extended_account

complimentary_plan_returns_example :
    (t : Subscription) × (returned_account.subscription ≡ some t)
    × (t.plan_code ≡ "basic")
    × (t.source ≡ admin)
    × (t.status ≡ active)
    × (t.current_period_end ≡ some (days 100))
unfolding apply_payment_subscription apply_change apply_other apply_current standing_ref change_kind
    live_change is_other_plan is_updated replaced_of mirrors record_event ensure_plan_exists
    is_effective is_paid_and_effective subscription_in_effect is_live grace end_paid_subscription
    restore_complimentary_grant find_replaced
complimentary_plan_returns_example =
    complimentary_plan_returns gift_account gift pro_snapshot active (days 10) (days 15) refl refl
      refl refl refl refl refl bought_account extended_account returned_account pro_change refl
      (Journal.next next_year active (days 12)
        (changed (record {
          kind = renewed;
          plan_code = "pro";
          status = active;
          current_period_end = some (days 90);
        }))
        Journal.here refl refl refl refl)
      (Journal.by_request withdrawn none
        (some (record {
          kind = withdrawn;
          plan_code = "pro";
          status = SubscriptionStatus.canceled;
          current_period_end = some (days 15);
        }))
        refl)

end_paid_subscription_ends_example :
    (b : Account) × (change : Option PaymentChange) × (end_paid_subscription
        (days 15)
        "sub_1"
        withdrawn
        none
        bought_account
      ≡ ok (change, b))
    × (is_charging "sub_1" b.subscription ≡ false)
    × ((b ≡ bought_account) ⊎ (is_charging "sub_1" bought_account.subscription ≡ true))
end_paid_subscription_ends_example =
    end_paid_subscription_ends bought_account (days 15) "sub_1" withdrawn none

grant_plan_time_iff_example :
    ((g : GrantOutcome) × (b : Account) × (grant_plan_time
          (days 20)
          "basic"
          (some 30)
          admin
          none
          none
          gift_account
        ≡ ok (g, b)))
    ↔ ((is_staff user ≡ false)
        × (plan_exists "basic" ("pro" ∷ "basic" ∷ []) ≡ true)
        × (is_paid_and_effective gift (days 20) ≡ false))
grant_plan_time_iff_example =
    grant_plan_time_iff gift_account (days 20) "basic" (some 30) admin none none

abbrev longer_account : Account
longer_account = run (grant_plan_time (days 20) "basic" (some 30) admin none none) gift_account

abbrev longer_outcome : GrantOutcome
longer_outcome = record {
  kind = extended;
  plan_code = "basic";
  status = active;
  current_period_end = some (days 130);
}

grant_plan_time_covers_example :
    is_some_and (gives "basic" (days 49)) longer_account.subscription ≡ true
unfolding grant_plan_time apply_grant is_same_plan ensure_not_staff ensure_plan_exists record_event
    is_staff is_effective is_paid_and_effective subscription_in_effect is_live grace
grant_plan_time_covers_example =
    grant_plan_time_covers gift_account longer_account (days 20) "basic" 30 admin none none
      (days 49) {g = longer_outcome} refl (omega arith)

grant_plan_time_extends_example :
    is_some_and (gives "basic" (days 99 + days 30)) longer_account.subscription ≡ true
unfolding grant_plan_time apply_grant is_same_plan ensure_not_staff ensure_plan_exists record_event
    is_staff is_effective is_paid_and_effective subscription_in_effect is_live grace
grant_plan_time_extends_example =
    grant_plan_time_extends gift_account longer_account gift (days 20) "basic" 30 admin none none
      (days 99) {g = longer_outcome} refl refl refl refl refl

abbrev invoice : String → ℕ → GatewayInvoice
invoice id day = record { id = id; paid_at = some (days day); amount_paid = 1990 }

invoices_to_refund-IsTimely_example :
    IsTimely
      (invoice "in_2" 366 ∷ invoice "in_1" 1 ∷ [])
      true
      (days 380)
      (invoices_to_refund (invoice "in_2" 366 ∷ invoice "in_1" 1 ∷ []) true (days 380) false)
invoices_to_refund-IsTimely_example =
    invoices_to_refund-IsTimely (invoice "in_2" 366 ∷ invoice "in_1" 1 ∷ []) true (days 380)

invoices_to_refund-RefundsOnly_example :
    RefundsOnly
      (λ i. i.amount_paid ≡ 1990)
      (invoices_to_refund (invoice "in_2" 40 ∷ invoice "in_1" 10 ∷ []) false (days 90) true)
invoices_to_refund-RefundsOnly_example =
    invoices_to_refund-RefundsOnly (λ i. i.amount_paid ≡ 1990)
      (invoice "in_2" 40 ∷ invoice "in_1" 10 ∷ []) false (days 90) (refl, (refl, tt))
