-- ===== src/Utils.antt =====
-- src/utils: the modules that compute without a database.
pub mod Csv
pub mod Totp
pub mod RateLimit
mod Tests
