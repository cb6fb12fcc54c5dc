-- ===== src/Sched.antt =====
-- The scheduler (fiber/scheduler.h, fiber/scheduler.cpp, and `FiberTask` of fiber/fiber.h).
pub mod Load
pub mod Defs
pub mod Pick
pub mod Step
pub mod Runs
