-- ===== src/MsgDistributor.antt =====
-- server/MsgDistributor.cpp and its copy client/MsgDistributor.cpp: sockets that share one GUID.
pub mod State
pub mod Frames
pub mod Methods
pub mod Connections
pub mod Transfer
pub mod Protocol
pub mod Handshake
pub mod Effects
pub mod Invariant
pub mod Ids
pub mod Delivery
pub mod Channels
pub mod Refinement
