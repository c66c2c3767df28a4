-- ===== src/Misc.antt =====
-- Package misc: redaction for logs, mail addresses, rate limits.
pub mod Validate
pub mod Headers
pub mod ClientSh
pub mod Redact
pub mod RateLimit
mod Tests
