-- ===== src/Timer.antt =====
-- timer/timer.h and timer/timer.cpp: timers and the ordered set of those that are armed.
pub mod Defs
pub mod Order
pub mod Sets
pub mod Due
pub mod Expire
pub mod Manage
pub mod Runs
