-- ===== src/Lib.antt =====
-- Setlyst API: the billing, payment, entitlement, quota, security, e-mail and music rules of the
-- server.
--
-- The program is an HTTP API over PostgreSQL. Handlers call services, which read and write rows in
-- transactions. The parts modelled here decide what an account may do:
--
-- * Access (src/models/user.rs, src/models/billing.rs, src/services/entitlements.rs): roles,
--   suspensions, the access tier of an account, its features, the plan a refusal proposes.
-- * Billing (src/services/billing.rs, src/models/billing.rs): the subscription of an account, plan
--   time that is granted, trials, and the mirror of a paid subscription. Billing.Account is what a
--   transaction sees (role, plans, the row of `subscriptions`, the journal `subscription_events`,
--   the ledger), Billing.Grants has `grant_plan_time`, `start_trial` and `extend_trial`,
--   Billing.Payment has `apply_payment_subscription`, `end_paid_subscription` and
--   `restore_complimentary_grant`, Billing.Withdrawal (src/services/payments.rs too) has
--   `withdrawal_deadline` and `invoices_to_refund`, Billing.Credits the credit ledger of an
--   account and `redeem_reward`, Billing.Referrals what a referral pays and takes back,
--   Billing.Promo `redeem_promo_code`.
-- * Quota (src/models/quota.rs, src/database/repositories/quota_repository.rs): limits, overrides,
--   the limits in force, and the guard that each creation runs in its own transaction.
-- * Security (src/database/repositories/security_repository.rs, src/services/account.rs):
--   Security.Codes has the e-mailed codes of one account and purpose, one request after another
--   (Guesses) and with the statements of concurrent requests interleaved (Interleaved),
--   Security.Limiter the fixed-window counters, `require_second_factor` and the daily sign-out.
-- * Finance (src/services/finance.rs): the ledger of payments, refunds and disputes, with the
--   events of the provider that change it.
-- * Payments (src/payments/mod.rs, src/services/payments.rs): Payments.Mirror is `mirror_in`,
--   which applies a provider's subscription to the account, `resolve_duplicate`,
--   `cancel_duplicate` and `sync_subscription`, over Billing.Payment and Finance.
-- * Email (src/email): Email.Outbox is the queue `email_outbox` with `enqueue`, its daily caps and
--   its priorities, Email.Worker the worker: `process_batch` with the hourly cap, the retries and
--   the recovery of messages that a dead worker left.
-- * Music (src/music/transpose.rs, src/models/song.rs): the keys and their transposition.
-- * Utils (src/utils): Utils.RateLimit is the sliding-window limiter and the promise it is
--   measured against, Utils.Csv has the writer of CSV exports and the reader that it is measured
--   against, Utils.Totp the one-time passwords with `check_totp` (src/services/account.rs) and
--   `claim_totp_step` (src/database/repositories/user_repository.rs).
--
-- Payments runs the transactions of Billing.Payment and the ledger of Finance. Billing and Quota
-- read the tiers and roles of Access; entitlements and quotas read the plan in effect that Billing
-- decides. Each operation bears the name of its function, and its guards stand in the order of the
-- source.
--
-- How the source is read:
-- * A point in time is a number of microseconds, the resolution of the database; `now` is a
--   parameter. An operation that reads the clock twice is given one reading. Days, seconds and
--   prices are natural numbers, as the validation of the payloads has them.
-- * A transaction is a function of the state whose errors carry no state: it rolls back. Locks on
--   the account make its transactions run one after another. A statement is atomic: messages are
--   enqueued one after another, since the INSERT that counts takes no lock and concurrent ones are
--   outside the model. An operation that is not one transaction answers with its result and the
--   state that it leaves, errors included.
-- * A table is a list, newest first; an update by id changes one row. Ids are numbers or texts.
-- * The free-form JSON of an event keeps what is read back.
-- * Every definition is total and no fuel is used: the loops are over lists.
--
-- Not modelled: the SQL counts behind a quota, hashing and encryption of codes (whether a code is
-- right is a parameter), HMAC-SHA1 (a parameter), the text of e-mails and SMTP, notifications and
-- the audit log, HTTP and JSON, the payment provider (a parameter), the check of a webhook and the
-- refunds of a withdrawal, the resumable sync of the ledger and its figures, the administration of
-- rewards and codes, and the other music parts of the program (songs, setlists, chords and charts,
-- PDF).
pub mod Prelude
pub mod ApiError
pub mod Access
pub mod Billing
pub mod Quota
pub mod Utils
pub mod Finance
pub mod Payments
pub mod Music
pub mod Email
pub mod Security
