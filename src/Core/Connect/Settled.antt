-- ===== src/Core/Connect/Settled.antt =====
-- How connecting to the radio ends (src/core.rs, `reconnect_radio`).
use coresplitter.Base.{
  ℕ, zero, suc, ◌+◌, ◌<◌, ap, ◌⊎◌, inl, inr, Bool, arith, length, get_elem?, ◌≡◌, ◌≢◌, refl, sym,
  ◌∙◌, subst, true, false, Option, none, some, List, [], ◌∷◌,
}
use coresplitter.Base.Bytes.{Bytes}
use coresplitter.Core.State.{Core, Queued, Clock, InFlight}
use coresplitter.Core.Frames.{build_appstart}
use coresplitter.Core.Clients.{fail_request, send_to_client, send_to_radio}
use coresplitter.Core.Queue.{
  channel_requests, fail_queue, client_of, sync_from_radio, advance_queue_sync, advance_sync,
  fail_requests,
}
use coresplitter.Core.Queue.Frozen.{sent}
use coresplitter.Core.Queue.Failure.{fail_requests-answered}
use coresplitter.Core.Connect.{
  Wait, ready, failed, waiting, panicked, Connection, refused, connected, Attempt, Reconnection, up,
  aborted, trying, hanging, crashed, connect_backend, set_up, as_now, after_init, after_connect,
  after_pause, reconnection_loop, reconnect_radio, start, next_delay, Pause, slept, stopped,
}
use coresplitter.Core.Connect.Ends.{IsCalm, Asked, Ends, hello, initialize_radio-Ends}

-- GET_CHANNEL for each index below `n`, in order, for no client.
abbrev pub IsChannelSync : ℕ → List Queued → Type 0
IsChannelSync n queue =
    (length queue ≡ n)
    × ((i : ℕ)
        → i < n
        → get_elem? queue i ≡ some (record { client_id = none; payload = 0x1F ∷ i ∷ [] }))

-- Clients are let in, the blob of SELF_INFO is there, and the channels are asked for.
abbrev IsOpen : Core → Type 0
IsOpen c =
    (c.radio_up ≡ true) × (c.self_info_raw ≢ none) × IsChannelSync c.max_channels c.pending_queue

-- The core works with the radio: the three first commands were sent, and GET_CONTACTS is in flight.
abbrev pub IsUp : Core → Type 0
IsUp c =
    IsOpen c
    × (sent c ≡ build_appstart ∷ (0x16 ∷ 3 ∷ []) ∷ (0x04 ∷ []) ∷ [])
    × ((f : InFlight) × (c.in_flight ≡ some f) × (f.client_id ≡ none) × (f.payload ≡ 0x04 ∷ []))

-- The link stopped taking commands before the sync: GET_CONTACTS is lost, and no request is in flight.
abbrev pub IsLost : Core → Type 0
IsLost c =
    IsOpen c
    × (c.radio_send_tx ≡ some (record { is_open = false; sent = hello }))
    × (c.in_flight ≡ none)

channel_requests-IsChannelSync :
    (idx n : ℕ)
    → (length (channel_requests idx n) ≡ n)
      × ((i : ℕ)
          → i < n
          → get_elem? (channel_requests idx n) i
            ≡ some (record { client_id = none; payload = 0x1F ∷ (idx + i) ∷ [] }))
channel_requests-IsChannelSync idx zero = (refl, λ i h. absurd (omega arith))
channel_requests-IsChannelSync idx (suc n) =
    let rest = channel_requests-IsChannelSync (suc idx) n in (ap suc rest.0, λ i h. go rest.1 i h)
  where
    go :
        ((i : ℕ)
          → i < n
          → get_elem? (channel_requests (suc idx) n) i
            ≡ some (record { client_id = none; payload = 0x1F ∷ (suc idx + i) ∷ [] }))
        → (i : ℕ) → i < suc n
        → get_elem? (channel_requests idx (suc n)) i
          ≡ some (record { client_id = none; payload = 0x1F ∷ (idx + i) ∷ [] })
    go later zero h =
        let e : idx ≡ idx + 0 = omega arith in
        ap (λ k. some (record { client_id = none; payload = 0x1F ∷ k ∷ [] })) e
    go later (suc i) h =
        let e : suc idx + i ≡ idx + suc i = omega arith in
        later i (omega arith)
        ∙ ap (λ k. some (record { client_id = none; payload = 0x1F ∷ k ∷ [] })) e

channels-IsChannelSync : (n : ℕ) → IsChannelSync n (channel_requests 0 n)
channels-IsChannelSync n =
    let sync = channel_requests-IsChannelSync 0 n in
    (
      sync.0,
      λ i h.
          let e : 0 + i ≡ i = omega arith in
          sync.1 i h ∙ ap (λ k. some (record { client_id = none; payload = 0x1F ∷ k ∷ [] })) e,
    )

-- The same state, its fields spelled out.
abbrev asked_state : Core → Core
asked_state c = record c {
  in_flight = none;
  pending_queue = [];
  radio_send_tx = some (record { is_open = true; sent = hello });
}

asked_state-same : (c : Core) → Asked hello c → c ≡ asked_state c
asked_state-same c h =
    λ i. record c { in_flight = h.0.0.0 i; pending_queue = h.0.0.1 i; radio_send_tx = h.0.1 i }

pub set_up-IsUp : (clock : Clock) (c : Core) → Asked hello c → IsUp (set_up true clock c)
unfolding set_up as_now sync_from_radio advance_queue_sync advance_sync send_to_radio
set_up-IsUp clock c h =
    subst (λ x. IsUp (set_up true clock x)) (sym (asked_state-same c h))
      ((refl, h.1, channels-IsChannelSync c.max_channels), refl, (_, refl, refl, refl))

set_up-IsLost : (clock : Clock) (c : Core) → Asked hello c → IsLost (set_up false clock c)
unfolding set_up as_now sync_from_radio advance_queue_sync advance_sync send_to_radio fail_request
set_up-IsLost clock c h =
    subst (λ x. IsLost (set_up false clock x)) (sym (asked_state-same c h))
      ((refl, h.1, channels-IsChannelSync c.max_channels), refl, refl)

-- How an attempt to connect may end.
abbrev pub IsSettled : Reconnection → Type 0
IsSettled (up c) = IsUp c ⊎ IsLost c
IsSettled (aborted c) = IsCalm c
IsSettled (trying delay c) = IsCalm c
IsSettled (hanging c) = IsCalm c
IsSettled crashed = Unit

after_init-IsSettled :
    (again : Core → Reconnection) (takes : Bool) (w : Wait)
    → ((c : Core) → IsCalm c → IsSettled (again c))
    → Ends (Asked hello) IsCalm w
    → IsSettled (after_init again takes w)
after_init-IsSettled again true (ready clock later c) k h = inl (set_up-IsUp clock c h)
after_init-IsSettled again false (ready clock later c) k h = inr (set_up-IsLost clock c h)
after_init-IsSettled again takes (failed c) k h = k (record c { radio_send_tx = none }) h
after_init-IsSettled again takes (waiting c) k h = h
after_init-IsSettled again takes panicked k h = tt

fail_request-radio_up : (id : Option ℕ) (c : Core) → (fail_request id c).radio_up ≡ c.radio_up
unfolding fail_request send_to_client
fail_request-radio_up none c = refl
fail_request-radio_up (some id) c = refl

fail_queue-radio_up : (queue : List Queued) (c : Core) → (fail_queue queue c).radio_up ≡ c.radio_up
unfolding fail_queue
fail_queue-radio_up [] c = refl
fail_queue-radio_up (q ∷ queue) c =
    fail_queue-radio_up queue (fail_request q.client_id c) ∙ fail_request-radio_up q.client_id c

pub fail_requests-IsCalm : (c : Core) → IsCalm (fail_requests c)
unfolding fail_requests
fail_requests-IsCalm c =
    let answered = fail_requests-answered 0 c in
    let dropped = record c { radio_send_tx = none; radio_up = false; in_flight = none } in
    let d = fail_request (client_of c.in_flight) dropped in
    (
      answered.1,
      answered.2,
      fail_queue-radio_up d.pending_queue d ∙ fail_request-radio_up (client_of c.in_flight) dropped,
    )

module _ (hex_encode : Bytes → Bytes) (warns : Bool) where
  after_connect-IsSettled :
      (again : Core → Reconnection) (c : Core) (connection : Connection)
      → ((d : Core) → IsCalm d → IsSettled (again d))
      → IsCalm c
      → IsSettled (after_connect hex_encode warns again c connection)
  unfolding connect_backend
  after_connect-IsSettled again c refused k h = k c h
  after_connect-IsSettled again c (connected now writes arrivals) k h =
      after_init-IsSettled again writes.sync _ k
        (initialize_radio-Ends hex_encode warns now writes arrivals (connect_backend c) (h, refl))

  after_pause-IsSettled :
      (again : Core → Reconnection) (c : Core) (connection : Connection) (pause : Pause)
      → ((d : Core) → IsCalm d → IsSettled (again d))
      → IsCalm c
      → IsSettled (after_pause hex_encode warns again c connection pause)
  after_pause-IsSettled again c connection slept k h =
      after_connect-IsSettled again c connection k h
  after_pause-IsSettled again c connection stopped k h = h

  reconnection_loop-IsSettled :
      (attempts : List Attempt) (delay : ℕ) (c : Core)
      → IsCalm c
      → IsSettled (reconnection_loop hex_encode warns attempts delay c)
  unfolding reconnection_loop
  reconnection_loop-IsSettled [] delay c h = h
  reconnection_loop-IsSettled (attempt ∷ attempts) delay c h =
      after_pause-IsSettled (reconnection_loop hex_encode warns attempts (next_delay delay)) c
        attempt.connection attempt.pause (reconnection_loop-IsSettled attempts (next_delay delay)) h

  -- However the attempts go: clients are let in only with a radio that told who it is, on a link on which APP_START
  -- and DEVICE_QUERY were sent, with GET_CHANNEL queued for each channel from 0 on and nothing else. GET_CONTACTS was
  -- sent before them and is in flight; or the link no longer took it, and then no request is in flight. As long as
  -- clients are not let in, after the shutdown too, no request is open.
  pub reconnect_radio-IsSettled :
      (attempts : List Attempt) (c : Core) → IsSettled (reconnect_radio hex_encode warns attempts c)
  unfolding reconnect_radio
  reconnect_radio-IsSettled attempts c =
      reconnection_loop-IsSettled attempts 1 (fail_requests c) (fail_requests-IsCalm c)

  -- The same holds of the start of the program, where no request is open.
  pub start-IsSettled :
      (connection : Connection) (attempts : List Attempt) (c : Core)
      → IsCalm c
      → IsSettled (start hex_encode warns connection attempts c)
  unfolding start
  start-IsSettled connection attempts c h =
      after_connect-IsSettled (reconnect_radio hex_encode warns attempts) c connection
        (λ d k. reconnect_radio-IsSettled attempts d) h
