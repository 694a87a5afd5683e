-- ===== src/Email.antt =====
-- src/email: the outbox, and the worker that delivers it.
pub mod Outbox
pub mod Worker
mod Tests
