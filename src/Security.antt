-- ===== src/Security.antt =====
-- The security bookkeeping of one account: the counters behind sensitive confirmations, and the
-- e-mailed codes.
pub mod Limiter
pub mod Codes
mod Tests
