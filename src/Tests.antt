-- ===== src/Tests.antt =====
-- The theorems at concrete inputs.
pub mod Data
pub mod Buffers
pub mod Disks
pub mod Caches
pub mod Files
pub mod Requests
pub mod Servers
pub mod Clients
pub mod Contents
pub mod Updates
