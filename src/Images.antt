-- ===== src/Images.antt =====
-- How a picture travels from the client (`transmit_child` of client/client-OpenCV.cpp) to the server
-- (`server_transmit` of server/server-OpenCV.cpp): over a stream, over MsgDistributor, or in one
-- message of MFPackager.
pub mod Info
pub mod Blocks
pub mod Tcp
pub mod Orbit
pub mod Packager
pub mod Child
pub mod Packed
pub mod Transmit
