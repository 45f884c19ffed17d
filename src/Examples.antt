-- ===== src/Examples.antt =====
-- The theorems at concrete values.
mod Sockets
mod Pictures
mod Votes
mod Users
mod Threads
mod Runs
mod Storms
mod Clients
mod Spouts
mod Copies
mod Servers
