-- ===== src/Lib.antt =====
-- CoreSplitter: a proxy that lets several MeshCore clients share one companion radio.
--
-- Frames come in from each client and from the radio; the core passes one request at a time to the radio,
-- hands each reply to the client that asked, serves what it can from a cache, and replays messages that a
-- client missed. The model is a shallow embedding: each part is a state and functions on it.
--
-- Base: shared helpers. Numbers are native; a byte is a number below 256, a string its UTF-8 bytes
--   (Base/Bytes, Base/Utf8 for String::from_utf8_lossy); tests into Bool and the ruleset `tests` (Base/Tests);
--   lists (Base/Lists); maps under number keys (Base/Maps); signed integers and floats (Base/Int).
-- Protocol/Frame: src/protocol/frame.rs. `encode`, `encode_response`, `encode_command` and
--   `FrameParser::feed`, whose loop is `rounds` on fuel: a round takes a byte off the buffer or completes a
--   frame, so two more than the bytes held are enough (Frame/Loop).
-- Protocol/Types: src/protocol/types.rs, the codes of commands and responses.
-- Protocol/Decode: src/protocol/decode.rs, `decode_command_payload` and `decode_response_payload`, where an
--   index out of range is a panic; the crate hex is a parameter.
-- Transport: the read and write tasks of src/frontend/tcp.rs, src/backend/tcp.rs and src/backend/serial.rs.
--   Transport/Frontend is `TcpFrontend`: a step is one turn of the frontend's task or of a client's handler, and
--   a run takes them in any order.
-- Node: src/node/state.rs. `Db` is the database, each method of `NodeState` a query on it; SQLite is taken as
--   its SQL says, except that any statement may fail (`outcomes`), which ends the method there and keeps what
--   was done before. Node/Sql has the clauses used, Node/State the methods,
--   Node/Contacts the map that the contact table stands for, Node/Backlog the parser of `Backlog`.
-- Core: src/core.rs. Core/State has `Core`, whose channels keep what was sent on them; Core/Awaiting what a
--   request waits for; Core/Frames the frames built; Core/Clients the sends; Core/Queue the request queue;
--   Core/Sessions the identified clients; Core/Reply the routing of frames from the radio; Core/Steps the
--   events of the loop of `run`. Core/Cached the responses from the cache, Core/Cache what a frame of the radio
--   leaves there, Core/Log the event log, Core/Receive a frame from the radio as a whole, Core/Commands the
--   commands of clients, Core/Connect how the core connects to the radio and connects again, and
--   Core/Connect/Restore what it loads when it starts without one. Instants and wall-clock times are an argument
--   (`Clock`), constant in a step. A panic is `none`.
--
-- Cli: src/cli.rs, the level of src/logging.rs, and the choice of the backend in `connect_backend`.
--
-- Calls: the socket tasks feed `FrameParser` and hand payloads to the core; the core calls `NodeState` and
-- sends payloads to the write tasks. An event of Core/Steps runs to its end before the next one, as the core is
-- one task.
--
-- Waiting for the radio: what arrives while the core waits is a list with the time of each arrival, and the
-- attempts of the retry loop are a list with what became of each; the loops are recursions on these, so no fuel
-- is needed, and a run that uses its list up before it ends says so in its result (`waiting`, `trying`).
-- Whether a new link still takes a command is given for each time that the core sends one (`Writes`). Whether
-- the log shows warnings (`warns`) is a parameter there, as the environment decides it too: a warning that is
-- not shown is not evaluated.
--
-- Left out: the texts of the event log (how a value is spelled in JSON or in a line), the task that passes the
-- backend's frames on, the BLE backend, which only calls its library, opening and migrating the database file.
--
-- Floats: a coordinate is an integer over a constant, as the program makes it; Base/Float rounds as IEEE 754
-- does where the program multiplies it again. 84 exponents reach 53 bits for any 32-bit integer over a
-- million, and 54 shifts take its product with a million back to 53 bits.
pub mod Base
pub mod Protocol
pub mod Node
pub mod Transport
pub mod Core
pub mod Cli
