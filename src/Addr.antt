-- ===== src/Addr.antt =====
-- `Address` and its subclasses (socket/address.h and .cpp).
pub mod Defs
pub mod Octets
pub mod Host
pub mod Subnets
pub mod V6
pub mod Groups
pub mod Text
pub mod Lookup
pub mod HostPort
pub mod Digits
pub mod Printed
pub mod Order
pub mod Sorted
pub mod Unix
pub mod Prefix6
pub mod Runs
