-- ===== src/Log.antt =====
-- The log (log/logger.h and .cpp).
pub mod Pattern
pub mod Items
pub mod Scanning
pub mod RoundTrip
pub mod Defs
pub mod Loggers
pub mod Managed
pub mod Made
pub mod Runs
