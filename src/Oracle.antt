-- ===== src/Oracle.antt =====
-- Settlement by an oracle: the instructions that commit a match to a game lobby, bind a feed to it,
-- propose the feed's winner, and set the bounds of feeds.
pub mod Config
pub mod Lobby
pub mod Propose
pub mod Outcome
pub mod Window
pub mod Bounds
