-- ===== src/Registration.antt =====
-- The creation of tournaments and the registration of participants.
pub mod Init
pub mod Create
pub mod Attestation
pub mod Join
pub mod Fresh
pub mod Created
pub mod Gate
pub mod Joined
pub mod Solvent
pub mod Encoding
