-- ===== src/Core/Clients/Laws.antt =====
-- What reaches the clients (src/core.rs, `send_to_client` and `broadcast_to_others`).
use coresplitter.Base.{
  ℕ, ◌≡◌, refl, ap, ◌∙◌, Bool, false, Option, none, some, List, [], ◌∷◌, arith, ◌==◌, if◌then◌else◌,
}
use coresplitter.Base.Bytes.{Bytes}
use coresplitter.Base.Maps.{lookup, apply_to, lookup-update}
use coresplitter.Core.Frames.{message_frame_for}
use coresplitter.Core.State.{Core}
use coresplitter.Core.Clients.{
  send_to_client, broadcast_to_others, broadcast_all, protocol_version, push, is_excluded,
  fail_request, error_frame,
}

-- What a connected client was sent so far.
abbrev pub outbox : ℕ → Core → Option (List Bytes)
outbox id c = lookup id c.client_channels

abbrev pub frame_to : Core → ℕ → Bytes → Bytes
frame_to c id payload = message_frame_for (protocol_version c id) payload

-- One connected client gets the frame, in the layout of the version it asked for; the others get nothing.
pub outbox-send_to_client :
    (id j : ℕ) (payload : Bytes) (c : Core)
    → outbox j (send_to_client id payload c)
      ≡ (if id == j then apply_to (push (frame_to c j payload)) (outbox j c) else outbox j c)
unfolding send_to_client
outbox-send_to_client id j payload c =
    lookup-update id j (push (frame_to c id payload)) c.client_channels ∙ ground arith

broadcast_all_lem :
    (c : Core) (exclude : Option ℕ) (j : ℕ) (payload : Bytes) (l : List (ℕ × List Bytes))
    → lookup j (broadcast_all c exclude payload l) ≡ (
        if is_excluded exclude j
        then lookup j l
        else apply_to (push (frame_to c j payload)) (lookup j l))
unfolding broadcast_all
broadcast_all_lem c exclude j payload [] = ground arith
broadcast_all_lem c exclude j payload ((id, log) ∷ l) =
    ground (arith, broadcast_all_lem c exclude j payload l)

-- Every connected client but the excluded one gets the frame, each in the layout of the version that it
-- asked for.
pub outbox-broadcast_to_others :
    (exclude : Option ℕ) (j : ℕ) (payload : Bytes) (c : Core)
    → outbox j (broadcast_to_others exclude payload c) ≡ (
        if is_excluded exclude j
        then outbox j c
        else apply_to (push (frame_to c j payload)) (outbox j c))
unfolding broadcast_to_others
outbox-broadcast_to_others exclude j payload c =
    broadcast_all_lem c exclude j payload c.client_channels

error_lem : (v : ℕ) → message_frame_for v error_frame ≡ error_frame
unfolding message_frame_for
error_lem v = ground arith

abbrev pub is_client_of : Option ℕ → ℕ → Bool
is_client_of none j = false
is_client_of (some id) j = id == j

-- ERROR has one layout.
pub outbox-fail_request :
    (id : Option ℕ) (j : ℕ) (c : Core)
    → outbox j (fail_request id c)
      ≡ (if is_client_of id j then apply_to (push error_frame) (outbox j c) else outbox j c)
unfolding fail_request
outbox-fail_request none j c = refl
outbox-fail_request (some id) j c =
    outbox-send_to_client id j error_frame c
    ∙ ap (λ e. if id == j then apply_to (push e) (outbox j c) else outbox j c)
        (error_lem (protocol_version c j))
