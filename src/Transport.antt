-- ===== src/Transport.antt =====
-- The tasks between a socket and the core: the read and write loops of src/frontend/tcp.rs
-- (`handle_client`), src/backend/tcp.rs and src/backend/serial.rs (`connect`). A socket is the list of
-- what its reads return, and the bytes written to it. The start and end of the frontend's
-- tasks are in Transport/Frontend.antt; the backends' and the logging are left out.
pub mod Link
pub mod Frontend
mod Tests
use coresplitter.Base.{
  ◌≡◌, refl, sym, ap, ◌∙◌, List, [], ◌∷◌, ◌++◌, append_assoc, append-nil, arith,
}
use coresplitter.Base.Bytes.{Bytes}
use coresplitter.Protocol.Frame.{FrameParser, new, feed, encode_response, encode_command}

-- What one `read` returns: `Ok(0)`, `Ok(n)` with the n bytes, or `Err`.
pub data Read : Type 0 where
  eof : Read
  got : Bytes → Read
  failed : Read

-- The payloads that the read task hands on, in order.
pub read_loop : FrameParser → List Read → List Bytes
read_loop p [] = []
read_loop p (eof ∷ reads) = []
read_loop p (failed ∷ reads) = []
read_loop p (got bytes ∷ reads) = let (frames, q) = feed p bytes in frames ++ read_loop q reads

-- The bytes that the frontend's write task puts on the socket.
pub write_responses : List Bytes → Bytes
write_responses [] = []
write_responses (payload ∷ rest) = encode_response payload ++ write_responses rest

-- The bytes that a backend's write task puts on the link.
pub write_commands : List Bytes → Bytes
write_commands [] = []
write_commands (payload ∷ rest) = encode_command payload ++ write_commands rest
