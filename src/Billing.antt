-- ===== src/Billing.antt =====
-- src/services/billing.rs, src/models/billing.rs and the parts of src/services/payments.rs that
-- decide what becomes of a subscription.
pub mod Subscription
pub mod Account
pub mod Grants
pub mod Payment
pub mod Withdrawal
pub mod Credits
pub mod Referrals
pub mod Promo
mod Tests
mod LedgerTests
