-- ===== src/Poller.antt =====
-- eventpoller/eventpoller.h and eventpoller/eventpoller.cpp: one-shot events on file descriptors.
pub mod Locks
pub mod Defs
pub mod Contexts
pub mod Resize
pub mod Steps
pub mod Remove
pub mod Deliver
pub mod Stopping
pub mod Runs
