-- ===== src/Storm.antt =====
-- The mode with Storm: storm/src/jvm/storm/winlab/cps matches the pictures, and the server passes its
-- answers on.
pub mod Match
pub mod Location
pub mod Relay
pub mod Answers
pub mod Spout
