-- ===== src/Start.antt =====
-- programs/bracket-chain/src/instructions/start_tournament.rs. Seed holds the first chunk, which
-- fixes the seed and the size of the bracket; Descriptor the checks of a match against the seed;
-- Handler the loop that creates the matches.
pub mod Seed
pub mod Descriptor
pub mod Handler
pub mod Size
pub mod Seeded
pub mod Node
pub mod Created
pub mod Outcome
