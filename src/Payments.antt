-- ===== src/Payments.antt =====
-- src/payments/mod.rs: what the server asks of the payment provider. The provider itself (behind
-- the trait `PaymentGateway`) is a parameter: what it answers while one request is served, by a
-- server that has one. Of its answers there is what is read here. Its
-- times are seconds from 1970 on, and an invoice comes with the account that it belongs to.
pub mod Mirror
mod Tests
use setlyst_api.Prelude.{
  ℕ, String, Bool, Option, none, some, List, ◌==◌, text_eq, option_eq, Timestamp, seconds, leb,
  if◌then◌else◌,
}
use setlyst_api.ApiError.{Result, ok, err, payment_provider_error, ApiError}
use setlyst_api.Billing.Subscription.{BillingInterval}
use setlyst_api.Billing.Payment.{PaymentSnapshot, map_provider_status}
use setlyst_api.Finance.{PaidInvoice, GatewayRefund}

pub record PaymentError : Type 0 where
  pub status : Option ℕ
  pub code : Option String

unfoldable pub is_missing : PaymentError → Bool
is_missing e = e.code == some "resource_missing"

-- The answer to a call.
pub data Answer (A : Type 0) : Type 0 where
  answered : A → Answer A
  failed : PaymentError → Answer A

-- Every failure is shown as the same error.
abbrev pub from_error : PaymentError → ApiError
from_error e = payment_provider_error

pub record GatewaySubscription : Type 0 where
  pub id : String
  pub customer_id : String
  pub status : String
  pub plan_code : Option String
  pub interval : Option BillingInterval
  pub current_period_end : Option ℕ
  pub cancel_at_period_end : Bool
  pub ended_at : Option ℕ
  pub trial_end : Option ℕ
  pub unit_amount : Option ℕ
  pub currency : Option String
  pub latest_invoice_id : Option String

-- The calls that a mirror makes; a refund is of the whole payment.
pub record Gateway : Type 0 where
  pub get_subscription : String → Answer GatewaySubscription
  pub cancel_now : String → Answer (Unit {0})
  pub get_paid_invoice : String → Answer (Option PaidInvoice)
  pub refund : (payment_intent key : String) → Answer GatewayRefund
  pub invoice_for_payment : String → Answer (Option String)
