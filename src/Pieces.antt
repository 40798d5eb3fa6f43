-- ===== src/Pieces.antt =====
-- bt/src/pieces.rs: which pieces a peer has, and how many peers have each piece.
pub mod Bitfield
pub mod Availability
