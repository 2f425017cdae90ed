-- ===== src/Transport/Link.antt =====
-- Both ends of a connection: the write tasks of src/frontend/tcp.rs and src/backend put payloads on a
-- socket, the read tasks take them off it, whatever the sizes of the reads.
use coresplitter.Base.{
  ℕ, ◌^◌, ◌<◌, ◌≡◌, refl, sym, ap, ◌∙◌, List, [], ◌∷◌, ◌++◌, map, append-nil, length,
}
use coresplitter.Base.Bytes.{Bytes, All}
use coresplitter.Protocol.Frame.{
  FrameParser, new, feed, frame_header_server, frame_header_client, encode_response, encode_command,
}
use coresplitter.Protocol.Frame.Chunks.{feed-append}
use coresplitter.Protocol.Frame.RoundTrip.{Item, frame, IsSendable, wire, payloads, feed-wire}
use coresplitter.Transport.{Read, eof, got, read_loop, write_responses, write_commands}

abbrev pub flatten : List Bytes → Bytes
flatten [] = []
flatten (c ∷ cs) = c ++ flatten cs

-- Every payload fits the 16-bit length field.
abbrev pub AllFit : List Bytes → Type 0
AllFit = All (λ payload. length payload < 2 ^ 16)

-- The reads of one connection that ends after the chunks `cs`.
abbrev pub reads_of : List Bytes → List Read → List Read
reads_of cs after = map got cs ++ eof ∷ after

read_loop-reads :
    (p : FrameParser) (c : Bytes) (cs : List Bytes) (after : List Read)
    → read_loop p (reads_of (c ∷ cs) after) ≡ (feed p (c ++ flatten cs)).0
unfolding read_loop
read_loop-reads p c [] after = rw (append-nil c, append-nil (feed p c).0) refl
read_loop-reads p c (d ∷ ds) after =
    rw (read_loop-reads (feed p c).1 d ds after, feed-append p c (d ++ flatten ds)) refl

feed-new_nil : feed new [] ≡ ([], new)
feed-new_nil = feed-wire [] tt

read_loop-new :
    (cs : List Bytes) (after : List Read)
    → read_loop new (reads_of cs after) ≡ (feed new (flatten cs)).0
unfolding read_loop
read_loop-new [] after = rw feed-new_nil refl
read_loop-new (c ∷ cs) after = read_loop-reads new c cs after

-- The payloads of a list as one sender's stream.
abbrev items : ℕ → List Bytes → List Item
items h [] = []
items h (p ∷ ps) = frame h p ∷ items h ps

payloads-items : (h : ℕ) (ps : List Bytes) → payloads (items h ps) ≡ ps
payloads-items h [] = refl
payloads-items h (p ∷ ps) = ap (◌∷◌ p) (payloads-items h ps)

responses-IsSendable : (ps : List Bytes) → AllFit ps → IsSendable (items frame_header_server ps)
responses-IsSendable [] h = tt
responses-IsSendable (p ∷ ps) h = (refl, h.0, responses-IsSendable ps h.1)

commands-IsSendable : (ps : List Bytes) → AllFit ps → IsSendable (items frame_header_client ps)
commands-IsSendable [] h = tt
commands-IsSendable (p ∷ ps) h = (refl, h.0, commands-IsSendable ps h.1)

wire-responses : (ps : List Bytes) → wire (items frame_header_server ps) ≡ write_responses ps
unfolding write_responses encode_response
wire-responses [] = refl
wire-responses (p ∷ ps) = ap (◌++◌ (encode_response p)) (wire-responses ps)

wire-commands : (ps : List Bytes) → wire (items frame_header_client ps) ≡ write_commands ps
unfolding write_commands encode_command
wire-commands [] = refl
wire-commands (p ∷ ps) = ap (◌++◌ (encode_command p)) (wire-commands ps)

feed-responses : (ps : List Bytes) → AllFit ps → feed new (write_responses ps) ≡ (ps, new)
feed-responses ps fit = rw (← wire-responses ps) (
    feed-wire (items frame_header_server ps) (responses-IsSendable ps fit)
    ∙ rw (payloads-items frame_header_server ps) refl)

feed-commands : (ps : List Bytes) → AllFit ps → feed new (write_commands ps) ≡ (ps, new)
feed-commands ps fit = rw (← wire-commands ps) (
    feed-wire (items frame_header_client ps) (commands-IsSendable ps fit)
    ∙ rw (payloads-items frame_header_client ps) refl)

-- However the bytes of the backend's write task fall into reads, the peer's read task hands on exactly
-- the payloads that were written, in order, where each fits the length field.
pub read_loop-write_commands :
    (ps cs : List Bytes) (after : List Read)
    → AllFit ps
    → flatten cs ≡ write_commands ps
    → read_loop new (reads_of cs after) ≡ ps
read_loop-write_commands ps cs after fit e =
    read_loop-new cs after ∙ rw (e, feed-commands ps fit) refl

-- A connection to a client that is cut after any number of bytes has delivered a prefix of the payloads
-- written to it, none of them damaged, where each fits the length field.
pub read_loop-cut :
    (ps cs : List Bytes) (lost : Bytes) (after : List Read)
    → AllFit ps
    → flatten cs ++ lost ≡ write_responses ps
    → (missing : List Bytes) × (read_loop new (reads_of cs after) ++ missing ≡ ps)
read_loop-cut ps cs lost after fit e =
    let p = (feed new (flatten cs)).1 in
    (
      (feed p lost).0,
      rw (read_loop-new cs after) (
          ap (λ t. t.0)
            (sym (feed-append new (flatten cs) lost) ∙ ap (feed new) e ∙ feed-responses ps fit)),
    )
