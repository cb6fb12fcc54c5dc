-- ===== src/Fibers.antt =====
-- Fibers and the contexts they run in (fiber/fiber.h, fiber/fiber.cpp).
pub mod Defs
pub mod Switch
pub mod Runs
