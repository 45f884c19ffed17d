-- ===== src/Options.antt =====
-- The command lines of the two programs: what `getopt_long_only` gives is a parameter, a list of
-- option indices with their arguments, and what `main` makes of it up to the start of the threads.
pub mod Server
pub mod Client
