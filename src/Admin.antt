-- ===== src/Admin.antt =====
-- Instructions of the protocol's authority: the creation of the configuration, and the growth of
-- accounts that an older version of the program has written.
pub mod Initialize
pub mod Migrate
pub mod Grown
pub mod Configured
