-- ===== src/Sock.antt =====
-- `Socket` (socket/socket.h and .cpp).
pub mod Defs
pub mod Steps
pub mod Transfers
pub mod Timeouts
pub mod States
pub mod Accepting
pub mod Descriptors
pub mod Connecting
pub mod Runs
