-- ===== src/Engine.antt =====
-- bt/src/engine.rs: the download engine.
--
-- An engine takes one input at a time: `Engine.Message` is what it does with the message of a peer,
-- `Engine.Rounds` the work between two inputs, `Engine.Main` its main loop, `Engine.Download` a whole
-- download.
pub mod State
pub mod Tally
pub mod Counted
pub mod Message
pub mod Rounds
pub mod Main
pub mod Download
