-- ===== src/Randomness.antt =====
-- request_seed.rs and reveal_seed.rs: the randomness account that the bracket's seed comes from.
pub mod Handler
pub mod Sealed
