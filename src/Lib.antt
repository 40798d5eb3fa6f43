-- ===== src/Lib.antt =====
-- A verification library of btget, a command-line torrent downloader written in Rust.
--
-- btget reads a torrent file or a magnet link, finds peers through trackers and the DHT, and
-- downloads the content. The core is the crate bt.
--
-- Prelude holds the shared names: tests on numbers, lists measured by native numbers, Rust's
-- Result, byte strings, decimal text, big-endian words, and the bits of a byte.
--
-- Bencode is bt/src/bencode.rs. A parser's input and position are the bytes still to be read. The
-- recursion of value, list and dict takes fuel; two units for each byte of the input and one more
-- are enough, and the error out_of_fuel, which the program does not have, never comes up.
-- Pieces is bt/src/pieces.rs: Bitfield, a bit for each piece, and Availability, a count for each.
-- Requests is bt/src/requests.rs: the blocks of a piece (one unit of fuel for each byte of the piece
-- is enough) and the pipeline of requests under way.
-- Picker is bt/src/picker.rs: the choice of the next piece.
-- Peer is bt/src/peer.rs: handshakes, messages and their frames, where a stream is the bytes that are
-- still to come; Peer/State is bt/src/peer_state.rs.
-- Metainfo is bt/src/metainfo.rs: torrent files. SHA-1 and the test for UTF-8 are parameters.
-- Extensions is bt/src/extensions.rs: extension messages. The loop that finds the end of the dictionary
-- in front takes a unit of fuel for each byte, which is enough.
-- Resume is bt/src/resume.rs: the contents of the file that keeps the pieces we have.
-- Storage is bt/src/storage.rs: blocks over files. A disk is the contents of the files. Which writes fail,
-- and behind how many bytes, is a parameter; a read fails only where a file ends too early.
-- Choke is bt/src/choke.rs: the unchoke slots and the optimistic unchoke.
-- Trackers is bt/src/tracker_set.rs: the order in which trackers are asked, and when. What one announce
-- does is a parameter with a state.
-- Tracker is bt/src/tracker.rs: the url of an announce, and the response. The exchange over HTTP is left out.
-- TrackerUdp is bt/src/tracker_udp.rs: the packets and the attempts, over an abstract socket.
-- Magnet is bt/src/magnet.rs: magnet links; the test for UTF-8 is a parameter.
-- Engine is bt/src/engine.rs: Engine/State its state, Engine/Message what it does with an input,
-- Engine/Rounds what it does between two inputs, Engine/Main its main loop, Engine/Download a whole download. A
-- thread that connects to a peer is known by its id and its address until it reports; what the threads of
-- the peers send are the inputs, in any order. A run of the loop takes a list of turns, the times and the
-- inputs that its rounds meet. The announce to one tracker, SHA-1, and what the allocation of the files
-- leaves on the disk are parameters, and nothing but the engine writes to the files. The number of pieces
-- is cut to 32 bits, as in the program. A failed allocation and a failed write end the download; a failure to
-- save the resume file changes nothing.
-- The DHT, the metadata exchange, the retries of the main program and the command line are left out; threads,
-- sockets and the file system are not modelled at all.
-- Tests holds runs of the model, and the theorems at concrete inputs.
--
-- A usize is 64 bits wide, and an Instant or a Duration is a number of one unit of time.
pub mod Prelude
pub mod Bencode
pub mod Pieces
pub mod Requests
pub mod Picker
pub mod Peer
pub mod Choke
pub mod Trackers
pub mod Tracker
pub mod TrackerUdp
pub mod Magnet
pub mod Storage
pub mod Metainfo
pub mod Extensions
pub mod Resume
pub mod Engine
mod Tests
