-- ===== src/Ipam.antt =====
-- pkg/ipam and the address arithmetic of the services that use it.
pub mod Addr
pub mod Broadcast
pub mod Hosts
pub mod Utilization
mod Tests
