-- ===== src/Lib.antt =====
-- PathForge, a BGP-4 daemon in Rust: its message codecs, path attributes, origin validation, state
-- machine, timers, routing information base and management interface.
--
-- How the parts interact. Bytes from a peer go through the frame (src/message/mod.rs), which cuts off
-- one message at a time; the parser of its type reads the body, for an UPDATE with the parser of path
-- attributes (src/attr.rs). The session (src/peer.rs) moves its state machine (src/fsm.rs) and its
-- timers (src/timer.rs) on each message and hands the routes of an UPDATE to the RIB (src/rib.rs),
-- which validates their origin (src/rpki.rs), asks the dampening table (src/dampening.rs) and decides on
-- the best route for each prefix. The server (src/server.rs) runs a session for each connection over one
-- RIB, with what src/main.rs takes from the options or from a valid file (src/config.rs); the management
-- interface (src/mgmt.rs) shows the RIB, the peers and the counters (src/metrics.rs) as text.
--
--   Base                the library's names, passed on, with lists, tests, machine words, bit facts,
--                       maps, and what a call of a fallible function comes to (Base/Outcomes)
--   Bytes               the crate bytes: an interface with its documented behaviour, one value of it
--                       that runs, and the fact that the documentation fixes every operation
--   Message             src/message/mod.rs: Header, Frame; and open.rs, notification.rs, keepalive.rs,
--                       route_refresh.rs, update.rs of src/message (Prefix and Update are update.rs)
--   Attr                src/attr.rs: the types, Parse and Serialize
--   Rpki                src/rpki.rs
--   Session             src/fsm.rs with Peer::transition of src/peer.rs (Fsm), src/timer.rs (Timers),
--                       and src/peer.rs: Peer with the handlers of messages (Peer/Messages) and of a
--                       disconnect (Peer/Disconnect, Restart), and its loop (Loop), turn by turn
--   Server              src/server.rs: the sessions of all connections over one RIB, its steps (Moves),
--                       what holds after them (Worlds, Held), and what an operator is shown (Shown,
--                       Listed)
--   Main                src/main.rs: with what the servers are started
--   Metrics             src/metrics.rs: the counters, and their text (Text)
--   Text                text and its formatting, and the implementations of Display (Shown); Digits,
--                       Parses, Communities and Splits are on reading back what is printed
--   Mgmt                src/mgmt.rs: the commands and a connection; Tables, Detail and Peers are the
--                       commands that show something, Rows what their tables share
--   Mp                  src/mp.rs: Prefix, Reach and Unreach
--   Rib                 src/rib.rs: Routes, Decision (the comparison and the sort), the operations,
--                       Query (lookups and counts); Fresh, Upkeep, Reach and Reachable are on what
--                       every operation keeps, as is Unique; Announced and Withdrawn are on what an
--                       UPDATE does to a peer's routes, and Query/Longest on the longest match
--   Damping             src/dampening.rs; Marks and Period are on how long a route is suppressed
--   Config              src/config.rs: the types and the validation (Accept)
--   Policy              src/policy.rs, with the text that it parses (Text)
--   Reflector           src/rr.rs
--   Capabilities        src/capabilities.rs, and OpenMessage::new_with_capabilities of
--                       src/message/open.rs
--
-- State and operations. A function that changes a buffer or an object takes it as an argument and
-- returns it changed. A byte and every other unsigned integer is the number that it stands for; a cast
-- is written out (u8, u16), and so is arithmetic that overflows, which panics or wraps with the build
-- (Base/Machine). A Result is an Outcome with a third case for a panic. An Ipv4Addr is its u32, a
-- SocketAddr a number that is compared, an Instant a reading of the clock, which is an argument of the
-- functions that read it. A HashMap is the list of its entries in the order of its iteration, which
-- nothing is assumed of. A text is the list of its characters' code points; where a configuration's
-- text is measured in bytes, the list of its bytes.
--
-- Loops. The parsers' loops are recursions on fuel, started with the number of bytes in the buffer or
-- of the count that they run down; a round takes one byte at least, so the fuel is enough, and the
-- outcome `stuck`, which stands for its end, is excluded where it is said that a parser comes back. A
-- number is printed with fuel for twenty digits, which the largest u64 has.
--
-- Parameters. The crate bytes (third-party) is a record of operations with the behaviour that its
-- documentation states. The text of an AttrError, which thiserror derives, is a function. The
-- arithmetic of f64 is a record of operations. To the RIB the dampening table is an interface; Damping
-- models the table by itself. The texts of a SocketAddr and of its address, the versions that the build knows,
-- and the loading of a configuration file are functions and values that the model takes.
--
-- The session. Clock and stream answer a turn of its loop from a record of answers; the RIB that it
-- shares behind a lock is in its state, and changes between its turns as other sessions change it. An
-- error stands beside the state that it leaves.
--
-- The server. A world is what the sessions share, the sessions' tasks and the purges to come; its steps
-- are a connection, a turn of a task, a purge, and the panic of a task, with the lock of the RIB in its
-- hands, which leaves any RIB and poisons the lock, or without. They come in any order; a turn is one
-- step.
--
-- Not modelled: logging, sockets, the runtime of the tasks and the lock itself, the listener of
-- src/mgmt.rs, and the reading of configuration files and options.
pub mod Base
pub mod Bytes
pub mod Message
pub mod Attr
pub mod Rpki
pub mod Policy
pub mod Config
pub mod Damping
pub mod Metrics
pub mod Session
pub mod Text
pub mod Mgmt
pub mod Server
pub mod Main
pub mod Rib
pub mod Reflector
pub mod Capabilities
pub mod Mp
