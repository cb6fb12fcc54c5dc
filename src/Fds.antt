-- ===== src/Fds.antt =====
-- The descriptor table (socket/fdManager.h, socket/fdManager.cpp).
pub mod Defs
pub mod Slots
pub mod Runs
