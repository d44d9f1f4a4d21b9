-- ===== src/Network.antt =====
-- Networks: src/core/network.
pub mod BitVec
pub mod Ipam
pub mod Bridge
pub mod Link
pub mod Networks
