-- ===== src/Transport/Frontend.antt =====
-- src/frontend/tcp.rs: `TcpFrontend::run` with the clients that it lets in, as steps of one state. A step is what
-- one task does at its next turn; which turn comes next is not fixed. The watch channels are their values.
pub mod Clients
mod Tests
use Prim.Native.String.{String}
use coresplitter.Base.{
  ℕ, ◌+◌, ◌%◌, ◌^◌, Bool, true, false, Option, none, some, List, [], ◌∷◌, if◌then◌else◌,
}
use coresplitter.Base.Maps.{insert, remove}

-- Waiting for the radio, accepting on these listeners, or returned.
pub data Phase : Type 0 where
  closed : Phase
  listening : List String → Phase
  ended : Phase

pub record Frontend : Type 0 where
  pub bind_addrs : List String
  pub phase : Phase
  -- `radio_up_rx` and `shutdown_rx`.
  pub radio_up : Bool
  pub stopping : Bool
  -- `NEXT_CLIENT_ID`, an `AtomicU64`.
  pub next_client_id : ℕ
  -- The clients of `direct_map`, with their local ports.
  pub clients : List (ℕ × ℕ)

abbrev pub add_listener : String → Option (List String) → Option (List String)
add_listener addr none = none
add_listener addr (some listeners) = some (addr ∷ listeners)

-- `binds` is what `TcpListener::bind` returns for an address.
unfoldable pub bind_all : (String → Bool) → List String → Option (List String)
bind_all binds [] = some []
bind_all binds (addr ∷ addrs) =
    let rest = bind_all binds addrs in if binds addr then add_listener addr rest else none

pub data Event : Type 0 where
  -- The core sets the flag; the shutdown flag is set.
  radio : Bool → Event
  stop : Event
  -- The task of the frontend sees the radio up and binds, sees it down, or sees the shutdown.
  saw_up : (String → Bool) → Event
  saw_down : Event
  saw_stop : Event
  -- A connection is accepted on this local port, or the accept fails.
  accepted : ℕ → Event
  accept_failed : Event
  -- A read or a write task of the client ends, or its handler sees the radio down.
  finished : ℕ → Event
  dropped : ℕ → Event

abbrev pub listen_on : Option (List String) → Phase
listen_on none = closed
listen_on (some listeners) = listening listeners

-- `ClientId::new` and the start of `handle_client`.
unfoldable pub handle_client : ℕ → Frontend → Frontend
handle_client local_port f = record f {
  next_client_id = (f.next_client_id + 1) % 2 ^ 64;
  clients = insert f.next_client_id local_port f.clients;
}

abbrev pub close_client : ℕ → Frontend → Frontend
close_client client_id f = record f { clients = remove client_id f.clients }

abbrev pub when_closed : Phase → Frontend → Frontend → Frontend
when_closed closed f g = g
when_closed (listening listeners) f g = f
when_closed ended f g = f

abbrev pub when_listening : Phase → Frontend → Frontend → Frontend
when_listening closed f g = f
when_listening (listening listeners) f g = g
when_listening ended f g = f

-- A turn that its task cannot take leaves the state as it is.
unfoldable pub step : Event → Frontend → Frontend
step (radio up) f = record f { radio_up = up }
step stop f = record f { stopping = true }
step (saw_up binds) f =
    if f.radio_up
    then when_closed f.phase f (record f { phase = listen_on (bind_all binds f.bind_addrs) })
    else f
step saw_down f = if f.radio_up then f else when_listening f.phase f (record f { phase = closed })
step saw_stop f = if f.stopping then record f { phase = ended } else f
step (accepted local_port) f = when_listening f.phase f (handle_client local_port f)
step accept_failed f = f
step (finished client_id) f = close_client client_id f
step (dropped client_id) f = if f.radio_up then f else close_client client_id f

unfoldable pub run : List Event → Frontend → Frontend
run [] f = f
run (event ∷ events) f = run events (step event f)
