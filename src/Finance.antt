-- ===== src/Finance.antt =====
-- src/services/finance.rs: the ledger of payments and their refunds (the tables `payments` and
-- `refunds`, newest first). What a payment keeps of the provider's other ids and of its update
-- time is left out, and currencies are upper-case already; `account` is the account that `account_of` finds by SQL. Amounts are in cents.
pub mod Sound
pub mod Replays
mod Tests
use setlyst_api.Prelude.{
  ℕ, ◌+◌, min, max, String, Bool, true, false, ◌&&◌, ◌||◌, ◌==◌, text_eq, nat_eq, option_eq, Option,
  none, some, List, [], ◌∷◌, any, count, update_where, is_none, leb, ltb, if◌then◌else◌, Timestamp,
  unwrap_or,
}
use setlyst_api.Prelude.Int.{ℤ, pos, pos_part, leb_ℤ}

-- A row of `payments`.
pub record Payment : Type 0 where
  pub invoice_id : String
  pub payment_intent_id : Option String
  pub subscription_id : Option String
  pub user_id : Option ℕ
  pub plan_code : Option String
  pub amount_cents : ℕ
  pub currency : String
  pub paid_at : Timestamp
  pub refunded_cents : ℕ
  pub disputed_cents : ℕ
  pub dispute_status : Option String
  pub fee_cents : Option ℤ
  pub net_cents : Option ℤ

-- A row of `refunds`, and what the provider says of a refund.
pub record Refund : Type 0 where
  pub id : String
  pub payment_intent_id : Option String
  pub amount_cents : ℕ
  pub status : String

pub record GatewayRefund : Type 0 where
  pub id : String
  pub payment_intent_id : Option String
  pub amount : ℤ
  pub status : String

-- What the provider says of an invoice.
pub record PaidInvoice : Type 0 where
  pub id : String
  pub payment_intent_id : Option String
  pub subscription_id : Option String
  pub account : Option ℕ
  pub plan_code : Option String
  pub amount_paid : ℤ
  pub currency : String
  pub paid_at : Option Timestamp

pub record Books : Type 0 where
  pub payments : List Payment
  pub refunds : List Refund

-- SQL's COALESCE of two values.
abbrev pub coalesce : {A : Type 0} → Option A → Option A → Option A
coalesce none b = b
coalesce (some a) b = some a

abbrev pub is_invoice : String → Payment → Bool
is_invoice id p = p.invoice_id == id

abbrev pub settled_by : String → Payment → Bool
settled_by intent p = p.payment_intent_id == some intent

unfoldable pub new_payment : Timestamp → PaidInvoice → Payment
new_payment now i = record {
  invoice_id = i.id;
  payment_intent_id = i.payment_intent_id;
  subscription_id = i.subscription_id;
  user_id = i.account;
  plan_code = i.plan_code;
  amount_cents = pos_part i.amount_paid;
  currency = i.currency;
  paid_at = unwrap_or i.paid_at now;
  refunded_cents = 0;
  disputed_cents = 0;
  dispute_status = none;
  fee_cents = none;
  net_cents = none;
}

-- `ON CONFLICT (provider, invoice_id) DO UPDATE`
unfoldable pub filled_in : PaidInvoice → Payment → Payment
filled_in i p = record p {
  payment_intent_id = coalesce p.payment_intent_id i.payment_intent_id;
  subscription_id = coalesce p.subscription_id i.subscription_id;
  user_id = coalesce p.user_id i.account;
  plan_code = coalesce p.plan_code i.plan_code;
}

-- Whether the invoice is new; the payout of a referral that follows it is in Billing.Referrals.
unfoldable pub record_invoice : Timestamp → PaidInvoice → Books → Bool × Books
record_invoice now i s =
    if leb_ℤ i.amount_paid (pos 0)
    then (false, s)
    else if any (is_invoice i.id) s.payments
    then (false, record s { payments = update_where (is_invoice i.id) (filled_in i) s.payments })
    else (true, record s { payments = new_payment now i ∷ s.payments })

unfoldable pub set_fees : String → ℤ → ℤ → Books → Books
set_fees invoice_id fee net s = record s {
  payments =
      update_where (is_invoice invoice_id)
        (λ p. record p { fee_cents = some fee; net_cents = some net }) s.payments;
}

-- The refunds that count (`succeeded` or `pending`), summed up.
abbrev pub counts : String → Refund → Bool
counts intent r =
    r.payment_intent_id == some intent && (r.status == "succeeded" || r.status == "pending")

unfoldable pub refunds_of : String → List Refund → ℕ
refunds_of intent [] = 0
refunds_of intent (r ∷ rs) = (if counts intent r then r.amount_cents else 0) + refunds_of intent rs

abbrev pub raised : ℕ → ℕ → Payment → Payment
raised refunded recorded p = record p {
  refunded_cents = min p.amount_cents (max (max p.refunded_cents refunded) recorded);
}

-- The rows updated, and the books.
unfoldable pub set_refunded : String → ℤ → Books → ℕ × Books
set_refunded intent refunded s = (
  count (settled_by intent) s.payments,
  record s {
    payments =
        update_where (settled_by intent) (raised (pos_part refunded) (refunds_of intent s.refunds))
          s.payments;
  },
)

abbrev pub derived : ℕ → Payment → Payment
derived recorded p = record p { refunded_cents = min p.amount_cents recorded }

unfoldable pub recompute_refunded : String → Books → ℕ × Books
recompute_refunded intent s = (
  count (settled_by intent) s.payments,
  record s {
    payments = update_where (settled_by intent) (derived (refunds_of intent s.refunds)) s.payments;
  },
)

abbrev pub is_refund : String → Refund → Bool
is_refund id r = r.id == id

unfoldable pub updated_refund : GatewayRefund → Refund → Refund
updated_refund g r = record r {
  payment_intent_id = coalesce r.payment_intent_id g.payment_intent_id;
  amount_cents = pos_part g.amount;
  status = g.status;
}

abbrev pub new_refund : GatewayRefund → Refund
new_refund g = record {
  id = g.id;
  payment_intent_id = g.payment_intent_id;
  amount_cents = pos_part g.amount;
  status = g.status;
}

unfoldable pub store_refund : GatewayRefund → Books → Books
store_refund g s =
    if any (is_refund g.id) s.refunds
    then record s { refunds = update_where (is_refund g.id) (updated_refund g) s.refunds }
    else record s { refunds = new_refund g ∷ s.refunds }

-- `found` is the invoice that the provider has for the payment; a call that fails ends the whole
-- operation, and is left out.
unfoldable pub import_invoice_of : Timestamp → Option PaidInvoice → Books → Bool × Books
import_invoice_of now none s = (false, s)
import_invoice_of now (some i) s = (true, (record_invoice now i s).1)

abbrev pub recompute_imported : String → Bool × Books → Books
recompute_imported intent (true, s) = (recompute_refunded intent s).1
recompute_imported intent (false, s) = s

abbrev pub recompute_or_import : Timestamp → Option PaidInvoice → String → Books → Books
recompute_or_import now found intent s =
    let (rows, done) = recompute_refunded intent s in
    if rows == 0 then recompute_imported intent (import_invoice_of now found done) else done

abbrev pub settle_refund : Timestamp → Option PaidInvoice → Option String → Books → Books
settle_refund now found none s = s
settle_refund now found (some intent) s = recompute_or_import now found intent s

unfoldable pub upsert_refund : Timestamp → Option PaidInvoice → GatewayRefund → Books → Books
upsert_refund now found g s = settle_refund now found g.payment_intent_id (store_refund g s)

unfoldable pub store_refunds : List GatewayRefund → Books → Books
store_refunds [] s = s
store_refunds (g ∷ gs) s = store_refunds gs (store_refund g s)

abbrev pub set_imported : String → ℤ → Bool × Books → Bool × Books
set_imported intent refunded (true, s) = (true, (set_refunded intent refunded s).1)
set_imported intent refunded (false, s) = (false, s)

-- A `charge.refunded` event with its payment and amount: `listed` are the refunds that the provider
-- lists, none where it fails. Whether the ledger has the payment.
unfoldable pub apply_refund_event :
    Timestamp → Option PaidInvoice → List GatewayRefund → String → ℤ → Books → Bool × Books
apply_refund_event now found listed intent refunded s =
    let (rows, done) = set_refunded intent refunded (store_refunds listed s) in
    if rows == 0
    then set_imported intent refunded (import_invoice_of now found done)
    else (true, done)

-- The UPDATE; the account and the subscription that it returns are left out.
unfoldable pub mark_disputed : String → ℤ → String → Books → Books
mark_disputed intent amount status s = record s {
  payments =
      update_where (settled_by intent)
        (λ p. record p {
          disputed_cents = min p.amount_cents (pos_part amount);
          dispute_status = some status;
        })
        s.payments;
}
