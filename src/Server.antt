-- ===== src/Server.antt =====
-- `TcpServer` (server/TCPserver.h and .cpp).
pub mod Defs
pub mod Bound
pub mod Clients
pub mod Runs
