-- ===== src/Hooks.antt =====
-- The hooked system calls (util/hook.h, util/hook.cpp).
pub mod Defs
pub mod Io
pub mod Flags
pub mod Timeouts
pub mod Close
pub mod Calls
pub mod Connecting
pub mod Runs
