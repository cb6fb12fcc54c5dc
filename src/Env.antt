-- ===== src/Env.antt =====
-- The environment of the program (util/env.h and env.cc).
pub mod Defs
pub mod Arguments
pub mod Runs
