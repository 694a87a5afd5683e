-- ===== src/Payments/Mirror.antt =====
-- src/services/payments.rs: mirroring a subscription of the provider in the account that bought it,
-- and what becomes of a second one. `Session` is what one request sees; the request is served while
-- the provider's answers (`Gateway`) stay as they are, with one reading of the clock. The tables
-- are those of the account: `received` are the ids of `stripe_events`, `others` the customers of the
-- other accounts, `calls` what the provider was made to do. Notices after the change are left out.
pub mod Runs
pub mod TakeOver
pub mod Calls
pub mod Once
pub mod Late
pub mod Keeps
pub mod Deliveries
use Prim.Native.String.{◌++◌}
use setlyst_api.Prelude.{
  ℕ, String, Bool, true, false, not, ◌&&◌, ◌||◌, ◌==◌, text_eq, nat_eq, option_eq, Option, none,
  some, List, [], ◌∷◌, any, update_where, is_none, bind_option, map_option, keep_if, leb,
  if◌then◌else◌, Timestamp, seconds,
}
use setlyst_api.Prelude.Int.{ℤ, pos}
use setlyst_api.ApiError.{ApiError, Result, ok, err, Tx, payment_provider_error}
use setlyst_api.Billing.Subscription.{Subscription}
use setlyst_api.Billing.Account.{
  Account, EventKind, duplicate_canceled, canceled, kept, record_event,
}
use setlyst_api.Billing.Payment.{
  PaymentSnapshot, PaymentChange, Applied, changed, unchanged, duplicate, map_provider_status,
  mirrors, apply_payment_subscription, end_paid_subscription,
}
use setlyst_api.Finance.{Books, PaidInvoice, GatewayRefund, record_invoice, upsert_refund, coalesce}
use setlyst_api.Payments.{
  PaymentError, is_missing, Answer, answered, failed, from_error, GatewaySubscription, Gateway,
}

-- chrono has no time past its year 262142.
abbrev pub last_second : ℕ
last_second = 8_210_266_876_799

unfoldable pub unix_to_naive : ℕ → Option Timestamp
unix_to_naive s = if leb s last_second then some (seconds s) else none

-- A subscription without a plan was not made here.
unfoldable pub snapshot_of : GatewaySubscription → Option PaymentSnapshot
snapshot_of s =
    map_option
      (λ plan_code. record {
        external_ref = s.id;
        plan_code = plan_code;
        interval = s.interval;
        status = map_provider_status s.status;
        provider_status = s.status;
        current_period_end = bind_option s.current_period_end unix_to_naive;
        cancel_at_period_end = s.cancel_at_period_end;
        ended_at = bind_option s.ended_at unix_to_naive;
        trial_end = bind_option s.trial_end unix_to_naive;
        unit_amount = s.unit_amount;
        currency = s.currency;
      })
      s.plan_code

-- What the provider was made to do.
pub data Call : Type 0 where
  subscription_canceled : (id : String) → Call
  payment_refunded : (payment_intent : String) → Call

-- A promo code that was spent on a checkout (`promo_redemptions`).
pub record Spent : Type 0 where
  pub id : ℕ
  pub applied_at : Option Timestamp

pub record Session : Type 0 where
  pub account : Account
  pub customer : Option String
  pub others : List String
  pub received : List String
  pub redemptions : List Spent
  pub books : Books
  pub calls : List Call

-- A handler that keeps what it did when it fails; `sync_subscription` rolls back.
abbrev pub Handler : Type 0 → Type 0
Handler A = Session → Result A × Session

module _ {A : Type 0} where
  abbrev pub done : A → Handler A
  done a s = (ok a, s)

  abbrev pub give_up : ApiError → Handler A
  give_up e s = (err e, s)

  abbrev pub stored : Session → Result (A × Account) → Result A × Session
  stored s (ok (a, account)) = (ok a, record s { account = account })
  stored s (err e) = (err e, s)

  -- A part of the transaction over the account.
  abbrev pub on_account : Tx Account A → Handler A
  on_account t s = stored s (t s.account)

  abbrev pub answer : Answer A → Handler A
  answer (answered a) s = (ok a, s)
  answer (failed e) s = (err (from_error e), s)

abbrev pub change : (Session → Session) → Handler (Unit {0})
change f s = (ok tt, f s)

infixl 5 ◌>>=◌ ◌>>◌
abbrev pub ◌>>=◌ : {A B : Type 0} → Handler A → (A → Handler B) → Handler B
◌>>=◌ m f s = let (r, t) = m s in elim r [ ok a ↦ f a t | err e ↦ (err e, t) ]

abbrev pub ◌>>◌ : {A B : Type 0} → Handler A → Handler B → Handler B
m >> k = m >>= λ _. k

unfoldable pub already_refunded : PaymentError → Bool
already_refunded e = e.code == some "charge_already_refunded"

abbrev pub is_counted : GatewayRefund → Bool
is_counted r = r.status == "succeeded" || r.status == "pending"

abbrev pub called : Call → Session → Session
called c s = record s { calls = c ∷ s.calls }

abbrev pub is_running : GatewaySubscription → Bool
is_running s = s.status == "active" || s.status == "trialing" || s.status == "past_due"

-- A subscription that the provider no longer knows is none.
abbrev pub current_of : Answer GatewaySubscription → Handler (Option GatewaySubscription)
current_of (answered s) = done (some s)
current_of (failed e) = if is_missing e then done none else give_up (from_error e)

abbrev pub change_of : Applied → Option PaymentChange
change_of (changed c) = some c
change_of unchanged = none
change_of (duplicate _) = none

unfoldable pub note_duplicate :
    GatewaySubscription → PaymentSnapshot → GatewaySubscription → ℤ → Tx Account (Unit {0})
unfolding record_event
note_duplicate d p current refunded =
    record_event duplicate_canceled none (some p.plan_code) none (kept d.id current.id refunded)
      none

-- The customer is the account's if it has none and no other account has that one.
abbrev pub link_customer : String → Session → Session
link_customer id s =
    if is_none s.customer && not (any (λ c. c == id) s.others)
    then record s { customer = some id }
    else s

abbrev pub apply_redemption : Timestamp → Option ℕ → Session → Session
apply_redemption now none s = s
apply_redemption now (some id) s = record s {
  redemptions =
      update_where (λ r. r.id == id && is_none r.applied_at)
        (λ r. record r { applied_at = some now }) s.redemptions;
}

abbrev pub accepted : Timestamp → String → String → Subscription → Subscription
accepted now id version c =
    if mirrors id c
    then record c {
      terms_version = some version;
      terms_accepted_at = coalesce c.terms_accepted_at (some now);
    }
    else c

-- A version of the terms has at most 40 characters, to which the source cuts it.
abbrev pub accept_terms : Timestamp → String → Option String → Session → Session
accept_terms now id none s = s
accept_terms now id (some version) s = record s {
  account = record s.account {
    subscription = map_option (accepted now id version) s.account.subscription;
  };
}

module _ (now : Timestamp) where
  -- What the mirror of the current subscription changes.
  abbrev pub end_by_mirror : Option PaymentSnapshot → Handler (Option PaymentChange)
  end_by_mirror none = done none
  end_by_mirror (some p) = do done (change_of (← on_account (apply_payment_subscription now p)))

  abbrev pub end_if_left : String → Option PaymentChange → Handler (Unit {0})
  end_if_left reference (some _) = done tt
  end_if_left reference none =
      on_account (end_paid_subscription now reference canceled none) >> done tt

  -- The current subscription is over at the provider: it is ended here, and the new one applied.
  abbrev pub take_over :
      PaymentSnapshot → String → Option GatewaySubscription → Handler (Option PaymentChange)
  take_over p reference current = do
    end_if_left reference (← end_by_mirror (bind_option current snapshot_of))
    done (change_of (← on_account (apply_payment_subscription now p)))

module _ (g : Gateway) (now : Timestamp) where
  -- `finance::import_invoice_of` asks for the invoice only when the ledger lacks the payment.
  abbrev pub invoice_of : String → Option PaidInvoice
  invoice_of intent = elim (g.invoice_for_payment intent) [
    | answered (some id) ↦ elim (g.get_paid_invoice id) [ answered found ↦ found | failed _ ↦ none ]
    | _ ↦ none
  ]

  -- The ledger's part of a refund, whose failures are only logged.
  abbrev pub book : PaidInvoice → GatewayRefund → Session → Session
  book i r s = record s {
    books =
        upsert_refund now (bind_option r.payment_intent_id invoice_of) r
          (record_invoice now i s.books).1;
  }

  abbrev pub after_refund : PaidInvoice → String → Answer GatewayRefund → Handler ℤ
  after_refund i intent (answered r) = do
    change (called (payment_refunded intent))
    change (book i r)
    done (if is_counted r then r.amount else pos 0)
  after_refund i intent (failed e) =
      if already_refunded e then done (pos 0) else give_up (from_error e)

  abbrev pub refund_payment : PaidInvoice → Option String → Handler ℤ
  refund_payment i none = done (pos 0)
  refund_payment i (some intent) =
      after_refund i intent (g.refund intent ("setlyst-duplicate-" ++ i.id))

  abbrev pub refund_invoice : Option PaidInvoice → Handler ℤ
  refund_invoice none = done (pos 0)
  refund_invoice (some i) = refund_payment i i.payment_intent_id

  abbrev pub refund_latest : Option String → Handler ℤ
  refund_latest none = done (pos 0)
  refund_latest (some id) = do refund_invoice (← answer (g.get_paid_invoice id))

  -- What was refunded.
  unfoldable pub cancel_duplicate : GatewaySubscription → Handler ℤ
  cancel_duplicate d = do
    answer (g.cancel_now d.id)
    change (called (subscription_canceled d.id))
    refund_latest d.latest_invoice_id

  abbrev pub refuse_duplicate :
      GatewaySubscription → PaymentSnapshot → GatewaySubscription → Handler (Option PaymentChange)
  refuse_duplicate d p current = do
    refunded ← cancel_duplicate d
    on_account (note_duplicate d p current refunded)
    done none

  abbrev pub decide :
      GatewaySubscription
      → PaymentSnapshot
      → String
      → Option GatewaySubscription
      → Handler (Option PaymentChange)
  decide d p reference none = take_over now p reference none
  decide d p reference (some current) =
      if is_running current
      then refuse_duplicate d p current
      else take_over now p reference (some current)

  unfoldable pub resolve_duplicate :
      GatewaySubscription → PaymentSnapshot → String → Handler (Option PaymentChange)
  resolve_duplicate d p reference = do
    decide d p reference (← current_of (g.get_subscription reference))

  abbrev pub after_apply :
      GatewaySubscription → PaymentSnapshot → Applied → Handler (Option PaymentChange)
  after_apply d p (changed c) = done (some c)
  after_apply d p unchanged = done none
  after_apply d p (duplicate reference) = resolve_duplicate d p reference

pub record MirrorOptions : Type 0 where
  pub event : Option String
  pub redemption_id : Option ℕ
  pub terms_version : Option String

-- The webhook event was applied before.
unfoldable pub is_applied : Option String → Session → Bool
is_applied none s = false
is_applied (some id) s = any (λ e. e == id) s.received

abbrev pub receive : Option String → Session → Session
receive none s = s
receive (some id) s = record s { received = id ∷ s.received }

abbrev pub finish_mirror :
    Timestamp
    → GatewaySubscription
    → MirrorOptions
    → Option PaymentChange
    → Handler (Option PaymentChange)
finish_mirror now subscription options outcome = do
  change (apply_redemption now options.redemption_id)
  change (accept_terms now subscription.id options.terms_version)
  done outcome

-- An error rolls back what the transaction did, but not the ledger and the calls.
abbrev pub commit : Session → Result (Option PaymentChange) × Session → Result Bool × Session
commit s (ok _, t) = (ok true, t)
commit s (err e, t) = (err e, record s { books = t.books; calls = t.calls })

module _ (g : Gateway) (now : Timestamp) where
  abbrev pub mirror_new :
      GatewaySubscription → MirrorOptions → PaymentSnapshot → Handler (Option PaymentChange)
  mirror_new subscription options p = do
    change (receive options.event)
    change (link_customer subscription.customer_id)
    applied ← on_account (apply_payment_subscription now p)
    finish_mirror now subscription options (← after_apply g now subscription p applied)

  abbrev pub mirror_snapshot :
      GatewaySubscription → MirrorOptions → Option PaymentSnapshot → Handler (Option PaymentChange)
  mirror_snapshot subscription options none s = done none s
  mirror_snapshot subscription options (some p) s =
      if is_applied options.event s then done none s else mirror_new subscription options p s

  unfoldable pub mirror_in : GatewaySubscription → MirrorOptions → Handler (Option PaymentChange)
  mirror_in subscription options = mirror_snapshot subscription options (snapshot_of subscription)

  abbrev pub sync_found :
      (is_owner : Bool) → MirrorOptions → Answer GatewaySubscription → Handler Bool
  sync_found is_owner options (failed e) s = (err (from_error e), s)
  sync_found false options (answered subscription) s = (ok false, s)
  sync_found true options (answered subscription) s = commit s (mirror_in subscription options s)

  -- Whether the subscription belongs to the account; `is_owner` is what `owner_of` finds.
  unfoldable pub sync_subscription : (is_owner : Bool) → String → MirrorOptions → Handler Bool
  sync_subscription is_owner id options = sync_found is_owner options (g.get_subscription id)
