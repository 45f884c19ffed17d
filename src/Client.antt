-- ===== src/Client.antt =====
-- The threads of client/client-OpenCV.cpp around the transfer of a picture.
pub mod Stop
pub mod Receiver
pub mod Display
pub mod Connect
pub mod TestLoop
pub mod Run
