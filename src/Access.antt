-- ===== src/Access.antt =====
-- src/models/user.rs (roles and suspensions), src/models/billing.rs (`AccessTier`) and
-- src/services/entitlements.rs: who may do what.
pub mod Role
pub mod Tier
pub mod Entitlements
mod Tests
