-- ===== src/ImgMatch.antt =====
-- server/ImgMatch.cpp: the image database and the vote that picks the matching image.
pub mod Vision
pub mod Database
pub mod Counting
pub mod Vote
pub mod Winner
pub mod Match
pub mod Verdict
pub mod Info
pub mod InfoDb
pub mod Location
