-- ===== src/Finance/Tests.antt =====
-- The theorems on the ledger of payments at concrete books.
use setlyst_api.Prelude.{
  text_eq, nat_eq, option_eq, none, some, false, [], ◌∷◌, days, ◌≡◌, refl, arith,
}
use setlyst_api.Prelude.Int.{pos}
use setlyst_api.Finance.{
  GatewayRefund, PaidInvoice, Books, record_invoice, set_refunded, upsert_refund, mark_disputed,
}
use setlyst_api.Finance.Sound.{
  IsSound, BooksRun-IsSound, start, step, invoice_paid, refund_changed, disputed,
}
use setlyst_api.Finance.Replays.{
  deliver, deliver-set_refunded, IsSettled, upsert_refund-IsSettled, record_invoice_again,
}

abbrev empty_books : Books
empty_books = record { payments = []; refunds = [] }

empty_books-IsSound : IsSound empty_books
empty_books-IsSound = record {
  payments = tt;
  invoice_once = λ id. omega arith;
  refund_once = λ id. omega arith;
}

abbrev invoice : PaidInvoice
invoice = record {
  id = "in_1";
  payment_intent_id = some "pi_1";
  subscription_id = some "sub_1";
  account = some 1;
  plan_code = some "pro";
  amount_paid = pos 1990;
  currency = "BRL";
  paid_at = some (days 3);
}

abbrev refund : GatewayRefund
refund = record {
  id = "re_1";
  payment_intent_id = some "pi_1";
  amount = pos 500;
  status = "succeeded";
}

abbrev paid_books : Books
paid_books = (record_invoice (days 3) invoice empty_books).1

abbrev refunded_books : Books
refunded_books = upsert_refund (days 4) none refund paid_books

BooksRun-IsSound_example : IsSound (mark_disputed "pi_1" (pos 1990) "lost" refunded_books)
BooksRun-IsSound_example =
    BooksRun-IsSound empty_books (mark_disputed "pi_1" (pos 1990) "lost" refunded_books)
      empty_books-IsSound
      (step
        (step (step start (invoice_paid (days 3) invoice)) (refund_changed (days 4) none refund))
        (disputed "pi_1" (pos 1990) "lost"))

deliver-set_refunded_example :
    deliver "pi_1" (pos 700 ∷ pos 300 ∷ pos 700 ∷ []) paid_books
    ≡ (set_refunded "pi_1" (pos 700) paid_books).1
deliver-set_refunded_example =
    deliver-set_refunded "pi_1" (pos 700) (pos 300 ∷ pos 700 ∷ []) paid_books

upsert_refund-IsSettled_example :
    IsSettled "pi_1" (upsert_refund (days 4) (some invoice) refund empty_books)
upsert_refund-IsSettled_example =
    upsert_refund-IsSettled (days 4) (some invoice) refund "pi_1" empty_books refl

record_invoice_again_example : record_invoice (days 5) invoice paid_books ≡ (false, paid_books)
record_invoice_again_example = record_invoice_again (days 3) (days 5) invoice empty_books
