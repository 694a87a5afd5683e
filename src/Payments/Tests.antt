-- ===== src/Payments/Tests.antt =====
-- The theorems on mirrored subscriptions at a second subscription of an account.
use setlyst_api.Prelude.{
  refl, ◌≡◌, text_eq, option_eq, nat_eq, none, some, [], ◌∷◌, String, Option, false, true,
}
use setlyst_api.Prelude.Int.{pos}
use setlyst_api.Access.Role.{user}
use setlyst_api.Billing.Subscription.{
  active, monthly, Subscription, SubscriptionStatus, is_live, canceled, is_paid_and_effective,
  is_effective, subscription_in_effect,
}
use setlyst_api.Billing.Payment.{
  mirrored_row, map_provider_status, PaymentSnapshot, mirrors, apply_payment_subscription,
  apply_current, apply_other, standing_ref,
}
use setlyst_api.Payments.{answered, Gateway, String, PaidInvoice, GatewaySubscription, Option}
use setlyst_api.Finance.{
  PaidInvoice, record_invoice, upsert_refund, store_refund, recompute_refunded, refunds_of,
  new_payment,
}
use setlyst_api.Payments.Mirror.{
  MirrorOptions, snapshot_of, Session, mirror_in, unix_to_naive, is_applied, resolve_duplicate,
  cancel_duplicate, note_duplicate, sync_subscription,
}
use setlyst_api.Payments.Mirror.Late.{done_outside, mirror_in_over}
use setlyst_api.Billing.Account.{canceled, ensure_plan_exists, record_event}
use setlyst_api.Payments.Mirror.Deliveries.{sync_subscription_again}

abbrev pro_subscription : String → String → GatewaySubscription
pro_subscription id status = record {
  id = id;
  customer_id = "cus_1";
  status = status;
  plan_code = some "pro";
  interval = some monthly;
  current_period_end = some 1_000_000;
  cancel_at_period_end = false;
  ended_at = none;
  trial_end = none;
  unit_amount = some 1_900;
  currency = some "BRL";
  latest_invoice_id = some "in_2";
}

abbrev pro_snapshot : String → String → Option SubscriptionStatus → PaymentSnapshot
pro_snapshot id provider_status status = record {
  external_ref = id;
  plan_code = "pro";
  interval = some monthly;
  status = status;
  provider_status = provider_status;
  current_period_end = some 1_000_000_000_000;
  cancel_at_period_end = false;
  ended_at = none;
  trial_end = none;
  unit_amount = some 1_900;
  currency = some "BRL";
}

abbrev first_row : Subscription
first_row = mirrored_row none (pro_snapshot "sub_1" "active" (some active)) active 0

abbrev subscriber : Session
subscriber = record {
  account = record {
    role = user;
    plans = "pro" ∷ [];
    subscription = some first_row;
    events = [];
    ledger = [];
  };
  customer = some "cus_1";
  others = [];
  received = [];
  redemptions = [];
  books = record { payments = []; refunds = [] };
  calls = [];
}

abbrev invoice : PaidInvoice
invoice = record {
  id = "in_2";
  payment_intent_id = some "pi_2";
  subscription_id = some "sub_2";
  account = some 1;
  plan_code = some "pro";
  amount_paid = pos 1_900;
  currency = "BRL";
  paid_at = some 10;
}

abbrev provider : Gateway
provider = record {
  get_subscription = λ id. answered (pro_subscription id "active");
  cancel_now = λ id. answered tt;
  get_paid_invoice = λ id. answered (some invoice);
  refund = λ intent key. answered (record {
    id = "re_2";
    payment_intent_id = some intent;
    amount = pos 1_900;
    status = "succeeded";
  });
  invoice_for_payment = λ intent. answered none;
}

abbrev event_1 : MirrorOptions
event_1 = record { event = some "evt_1"; redemption_id = none; terms_version = none }

abbrev after_second : Session
after_second = (mirror_in provider 20 (pro_subscription "sub_2" "active") event_1 subscriber).1

mirror_in_over_example :
    done_outside (mirror_in provider 20 (pro_subscription "sub_2" "canceled") event_1 subscriber).1
    ≡ done_outside subscriber
unfolding snapshot_of unix_to_naive map_provider_status is_live mirrors
mirror_in_over_example =
    mirror_in_over provider 20 (pro_subscription "sub_2" "canceled") event_1
      (pro_snapshot "sub_2" "canceled" (some canceled)) canceled subscriber first_row refl refl refl
      refl refl refl

abbrev after_sync : Session
after_sync = (sync_subscription provider 20 true "sub_2" event_1 subscriber).1

sync_subscription_again_example :
    (sync_subscription provider 30 true "sub_2" event_1 after_sync).1 ≡ after_sync
unfolding sync_subscription mirror_in is_applied snapshot_of unix_to_naive map_provider_status
    is_live resolve_duplicate cancel_duplicate apply_payment_subscription apply_current apply_other
    standing_ref mirrors is_paid_and_effective is_effective subscription_in_effect
    ensure_plan_exists note_duplicate record_event record_invoice upsert_refund store_refund
    recompute_refunded refunds_of new_payment
sync_subscription_again_example =
    sync_subscription_again provider provider 20 30 true "sub_2" "sub_2" event_1 event_1
      (pro_subscription "sub_2" "active") (pro_snapshot "sub_2" "active" (some active)) "evt_1"
      subscriber after_sync refl refl refl refl refl
