-- ===== src/Core/Connect/Ends.antt =====
-- What holds at each end of asking the radio who it is (src/core.rs, `initialize_radio`).
use coresplitter.Base.{
  ℕ, ◌≡◌, ◌≢◌, refl, sym, ap, subst, Bool, true, false, Option, none, some, List, [], ◌∷◌, ◌++◌,
  leb, ◌==◌, if◌then◌else◌,
}
use coresplitter.Base.Bytes.{Bytes}
use coresplitter.Protocol.Decode.{◌>>=◌}
use coresplitter.Protocol.Decode.Response.{decode_response_payload}
use coresplitter.Core.State.{Core, Clock}
use coresplitter.Core.Frames.{build_appstart}
use coresplitter.Core.Clients.{send_to_radio, link_send}
use coresplitter.Core.Cache.{cache_response, extract_radio_identity, extract_max_channels}
use coresplitter.Core.Connect.{
  Signal, stop, closed, frame, Arrival, Wait, ready, failed, waiting, panicked, wait_for_self_info,
  wait_for_device_info, initialize_radio, query_device, device_query, and_then, sent_or_failed,
  Writes, as_now, still_taken, ready_with, on_self_signal, on_device_signal,
}

-- No request is open, and clients are kept out.
abbrev pub IsCalm : Core → Type 0
IsCalm c = (c.in_flight ≡ none) × (c.pending_queue ≡ []) × (c.radio_up ≡ false)

-- The link is there, and this was sent on it.
abbrev pub IsLinked : List Bytes → Core → Type 0
IsLinked l c = IsCalm c × (c.radio_send_tx ≡ some (record { is_open = true; sent = l }))

-- What holds where a wait is over, and where it failed or goes on.
abbrev pub Ends : (Core → Type 0) → (Core → Type 0) → Wait → Type 0
Ends P Q (ready clock later c) = P c
Ends P Q (failed c) = Q c
Ends P Q (waiting c) = Q c
Ends P Q panicked = Unit

if-Ends :
    (P Q : Core → Type 0) (test : Bool) (w v : Wait)
    → Ends P Q w
    → Ends P Q v
    → Ends P Q (if test then w else v)
if-Ends P Q true w v h k = h
if-Ends P Q false w v h k = k

chained :
    {A : Type 0} (P Q : Core → Type 0) (clock : Clock) (later : List Arrival) (m : Option A)
    (f : A → Core) (g : Core → Core)
    → ((a : A) → P (g (f a)))
    → Ends P Q (ready_with clock later (m >>= (λ a. some (f a)) >>= λ b. some (g b)))
chained P Q clock later none f g h = tt
chained P Q clock later (some a) f g h = h a

and_then-Ends :
    (P Q R : Core → Type 0) (w : Wait) (next : Clock → List Arrival → Core → Wait)
    → Ends P Q w
    → ((clock : Clock) (later : List Arrival) (c : Core) → P c → Ends R Q (next clock later c))
    → Ends R Q (and_then w next)
and_then-Ends P Q R (ready clock later c) next h k = k clock later c h
and_then-Ends P Q R (failed c) next h k = h
and_then-Ends P Q R (waiting c) next h k = h
and_then-Ends P Q R panicked next h k = tt

-- The radio told who it is.
abbrev pub Asked : List Bytes → Core → Type 0
Asked l c = IsLinked l c × (c.self_info_raw ≢ none)

module _ (hex_encode : Bytes → Bytes) (warns : Bool) (l : List Bytes) where
  self_info-Ends :
      (clock : Clock) (later : List Arrival) (payload : Bytes) (c : Core)
      → IsLinked l c
      → Ends
          (Asked l)
          IsCalm
          (ready_with clock later (cache_response hex_encode clock 0x05 payload c))
  unfolding cache_response extract_radio_identity
  self_info-Ends clock later payload c h =
      chained (Asked l) IsCalm clock later (decode_response_payload hex_encode 0x05 payload) _ _
        λ decoded. (h, λ e. cc)

  device_info-Ends :
      (clock : Clock) (later : List Arrival) (payload : Bytes) (c : Core)
      → Asked l c
      → Ends
          (Asked l)
          IsCalm
          (ready_with clock later (cache_response hex_encode clock 0x0D payload c))
  unfolding cache_response extract_max_channels
  device_info-Ends clock later payload c h =
      chained (Asked l) IsCalm clock later (decode_response_payload hex_encode 0x0D payload) _ _
        λ decoded. h

  self_signal-Ends :
      (clock : Clock) (later : List Arrival) (signal : Signal) (c : Core) (again : Wait)
      → IsLinked l c
      → Ends (Asked l) IsCalm again
      → Ends (Asked l) IsCalm (on_self_signal hex_encode warns clock later signal c again)
  self_signal-Ends clock later stop c again h k = h.0
  self_signal-Ends clock later closed c again h k = h.0
  self_signal-Ends clock later (frame []) c again h k =
      if-Ends (Asked l) IsCalm warns panicked again tt k
  self_signal-Ends clock later (frame (code ∷ rest)) c again h k =
      if-Ends (Asked l) IsCalm (code == 0x05) _ again (self_info-Ends clock later (code ∷ rest) c h)
        k

  pub wait_for_self_info-Ends :
      (deadline : ℕ) (now : Clock) (arrivals : List Arrival) (c : Core)
      → IsLinked l c
      → Ends (Asked l) IsCalm (wait_for_self_info hex_encode warns deadline now arrivals c)
  unfolding wait_for_self_info
  wait_for_self_info-Ends deadline now [] c h =
      if-Ends (Asked l) IsCalm (leb deadline now.instant) (failed c) (waiting c) h.0 h.0
  wait_for_self_info-Ends deadline now (a ∷ later) c h =
      let again = wait_for_self_info hex_encode warns deadline a.clock later c in
      if-Ends (Asked l) IsCalm (leb deadline now.instant) (failed c) _ h.0 (
        self_signal-Ends a.clock later a.signal c again h
          (wait_for_self_info-Ends deadline a.clock later c h))

  device_signal-Ends :
      (clock : Clock) (later : List Arrival) (signal : Signal) (c : Core) (again : Wait)
      → Asked l c
      → Ends (Asked l) IsCalm again
      → Ends (Asked l) IsCalm (on_device_signal hex_encode warns clock later signal c again)
  device_signal-Ends clock later stop c again h k = h.0.0
  device_signal-Ends clock later closed c again h k = h.0.0
  device_signal-Ends clock later (frame []) c again h k =
      if-Ends (Asked l) IsCalm warns panicked again tt k
  device_signal-Ends clock later (frame (code ∷ rest)) c again h k =
      if-Ends (Asked l) IsCalm (code == 0x0D) _ _ (device_info-Ends clock later (code ∷ rest) c h)
        (if-Ends (Asked l) IsCalm (code == 0x01) (ready clock later c) again h k)

  wait_for_device_info-Ends :
      (deadline : ℕ) (now : Clock) (arrivals : List Arrival) (c : Core)
      → Asked l c
      → Ends (Asked l) IsCalm (wait_for_device_info hex_encode warns deadline now arrivals c)
  unfolding wait_for_device_info
  wait_for_device_info-Ends deadline now [] c h =
      if-Ends (Asked l) IsCalm (leb deadline now.instant) (ready now [] c) (waiting c) h h.0.0
  wait_for_device_info-Ends deadline now (a ∷ later) c h =
      let again = wait_for_device_info hex_encode warns deadline a.clock later c in
      if-Ends (Asked l) IsCalm (leb deadline now.instant) (ready now (a ∷ later) c) _ h (
        device_signal-Ends a.clock later a.signal c again h
          (wait_for_device_info-Ends deadline a.clock later c h))

-- The commands that the core sends first on a new link.
abbrev pub hello : List Bytes
hello = build_appstart ∷ device_query ∷ []

abbrev pub linked : List Bytes → Core → Core
linked l c = record c { radio_send_tx = some (record { is_open = true; sent = l }) }

abbrev pub cut : List Bytes → Core → Core
cut l c = record c { radio_send_tx = some (record { is_open = false; sent = l }) }

module _ (l : List Bytes) (payload : Bytes) (c : Core)
    (link : c.radio_send_tx ≡ some (record { is_open = true; sent = l })) where
  pub send_to_radio-taken :
      send_to_radio payload (as_now true c) ≡ (true, linked (l ++ payload ∷ []) c)
  unfolding send_to_radio as_now
  send_to_radio-taken =
      ap
        (λ tx.
          let (is_sent, tx') = link_send payload (still_taken true tx) in
          (is_sent, record c { radio_send_tx = tx' }))
        link

  send_to_radio-cut : send_to_radio payload (as_now false c) ≡ (false, cut l c)
  unfolding send_to_radio as_now
  send_to_radio-cut =
      ap
        (λ tx.
          let (is_sent, tx') = link_send payload (still_taken false tx) in
          (is_sent, record c { radio_send_tx = tx' }))
        link

-- A command is sent, or the link no longer takes it and the wait fails.
sent_or_failed-Ends :
    (P : Core → Type 0) (takes : Bool) (l : List Bytes) (payload : Bytes) (c : Core)
    (next : Core → Wait)
    → IsLinked l c
    → Ends P IsCalm (next (linked (l ++ payload ∷ []) c))
    → Ends P IsCalm (sent_or_failed next (send_to_radio payload (as_now takes c)))
sent_or_failed-Ends P true l payload c next h k =
    subst (λ r. Ends P IsCalm (sent_or_failed next r)) (sym (send_to_radio-taken l payload c h.1)) k
sent_or_failed-Ends P false l payload c next h k =
    subst (λ r. Ends P IsCalm (sent_or_failed next r)) (sym (send_to_radio-cut l payload c h.1)) h.0

module _ (hex_encode : Bytes → Bytes) (warns : Bool) where
  query_device-Ends :
      (takes : Bool) (now : Clock) (arrivals : List Arrival) (c : Core)
      → Asked (build_appstart ∷ []) c
      → Ends (Asked hello) IsCalm (query_device hex_encode warns takes now arrivals c)
  query_device-Ends takes now arrivals c h =
      sent_or_failed-Ends (Asked hello) takes (build_appstart ∷ []) device_query c _ h.0 (
        wait_for_device_info-Ends hex_encode warns hello _ now arrivals (linked hello c)
          ((h.0.0, refl), h.1))

  pub initialize_radio-Ends :
      (now : Clock) (writes : Writes) (arrivals : List Arrival) (c : Core)
      → IsLinked [] c
      → Ends (Asked hello) IsCalm (initialize_radio hex_encode warns now writes arrivals c)
  unfolding initialize_radio
  initialize_radio-Ends now writes arrivals c h =
      let first = build_appstart ∷ [] in
      sent_or_failed-Ends (Asked hello) writes.hello [] build_appstart c _ h (
        and_then-Ends (Asked first) IsCalm (Asked hello) _
          (query_device hex_encode warns writes.query)
          (wait_for_self_info-Ends hex_encode warns first _ now arrivals (linked first c)
            (h.0, refl))
          (query_device-Ends writes.query))
