-- ===== src/Billing/Withdrawal.antt =====
-- src/services/payments.rs and src/services/billing.rs: until when a paid subscription can be
-- withdrawn from, and which of its paid invoices are refunded then.
pub mod Laws
use setlyst_api.Prelude.{
  ℕ, ◌+◌, max, String, Bool, true, false, Option, none, some, List, [], ◌∷◌, leb, filter,
  if◌then◌else◌, unwrap_or, Timestamp, days,
}
use setlyst_api.Billing.Subscription.{withdrawal_days}

-- A paid invoice of the payment provider, with the fields that are read; `paid_at` is the point in
-- time that its Unix time stands for, if it does for one.
pub record GatewayInvoice : Type 0 where
  pub id : String
  pub paid_at : Option Timestamp
  pub amount_paid : ℕ

-- The invoices that are refunded, or the deadline that is over.
pub data Refund : Type 0 where
  refunds : List GatewayInvoice → Refund
  not_allowed : Option Timestamp → Refund

unfoldable pub withdrawal_deadline : Timestamp → Timestamp → Bool → Timestamp
withdrawal_deadline first_paid latest_paid yearly =
    let first = first_paid + days withdrawal_days in
    if yearly then max first (latest_paid + days withdrawal_days) else first

abbrev pub paid : Timestamp → GatewayInvoice → Timestamp
paid at i = unwrap_or i.paid_at at

-- `sort_by_key`, which keeps the order of invoices paid at once.
abbrev pub insert : Timestamp → GatewayInvoice → List GatewayInvoice → List GatewayInvoice
insert at i [] = i ∷ []
insert at i (j ∷ js) =
    let rest = insert at i js in if leb (paid at i) (paid at j) then i ∷ j ∷ js else j ∷ rest

abbrev pub sort : Timestamp → List GatewayInvoice → List GatewayInvoice
sort at [] = []
sort at (i ∷ is) = insert at i (sort at is)

abbrev pub latest_of : GatewayInvoice → List GatewayInvoice → GatewayInvoice
latest_of i [] = i
latest_of i (j ∷ js) = latest_of j js

-- The rest of the function, on the sorted invoices.
unfoldable pub refund_of : List GatewayInvoice → Bool → Timestamp → Bool → Refund
refund_of [] yearly at staff = if staff then refunds [] else not_allowed none
refund_of (first ∷ rest) yearly at staff =
    let latest = latest_of first rest in
    let deadline = withdrawal_deadline (paid at first) (paid at latest) yearly in
    if leb at (paid at first + days withdrawal_days)
    then refunds (first ∷ rest)
    else if leb at deadline
    then refunds (filter (λ i. leb at (paid at i + days withdrawal_days)) (first ∷ rest))
    else if staff
    then refunds (latest ∷ [])
    else not_allowed (some deadline)

unfoldable pub invoices_to_refund : List GatewayInvoice → Bool → Timestamp → Bool → Refund
invoices_to_refund invoices yearly at staff = refund_of (sort at invoices) yearly at staff
