-- ===== src/Core/Steps/Serial.antt =====
-- The radio is asked one request at a time (src/core.rs).
use coresplitter.Base.{
  ℕ, ◌+◌, ◌≤◌, arith, ◌≡◌, refl, sym, ap, subst, ◌∙◌, Bool, true, false, not, ◌&&◌, ◌||◌, ◌⊎◌, inl,
  inr, Option, none, some, [], ◌∷◌, ◌++◌, Bool-cases, ltb, leb, ◌==◌, length,
}
use coresplitter.Base.Bytes.{Bytes, byte_at, slice}
use coresplitter.Core.Awaiting.Last.{IsLastFrame, classify-IsLastFrame}
use coresplitter.Core.Awaiting.{classify, is_push_event}
use coresplitter.Core.State.{Core, InFlight, Clock, ClientCommand}
use coresplitter.Core.Queue.{
  advance_queue, enqueue_or_dispatch, check_in_flight_timeout, run_maintenance, is_overdue,
  client_of, unless_busy, when_idle, push_back, dispatch_or_enqueue, full_sync_pending,
  queue_contact_refresh,
}
use coresplitter.Core.Clients.{fail_request}
use coresplitter.Core.Queue.Frozen.{
  IsSent, sent, sent_on, dispatch_to_radio-cases, fail_request-IsFrozen,
}
use coresplitter.Core.Queue.Advance.{advance_queue-IsAdvanced}
use coresplitter.Core.Reply.{
  try_route_to_in_flight, try_route_ack, route_matched, route_classified, route_request, push_event,
  route_frame, accepted_unless_error, or_push, or_ack, reply_to, fan_out,
}
use coresplitter.Core.Reply.Still.{
  accepted-IsStill, replied-IsFrozen, freed, try_route_ack-IsFrozen,
}
use coresplitter.Protocol.Decode.Chain.{some-inner}
use coresplitter.Core.Receive.{handle_radio_rx}
use coresplitter.Core.Receive.Frozen.{handle_radio_rx-routed}
use coresplitter.Core.Commands.{forwarded, handle_client_command}
use coresplitter.Core.Commands.Forward.{handle_client_command-IsForwarded}
use coresplitter.Core.Steps.{Event, command, received, timeout_tick, maintenance_tick, handle}

-- The event ends the request in flight: it is the last frame of its reply, or the time limit has passed.
abbrev pub Closes : Clock → Event → InFlight → Type 0
Closes clock (command cmd) f = ⊥
Closes clock (received payload) f = IsLastFrame f.awaiting (byte_at payload 0)
Closes clock timeout_tick f = f.last_activity + 5000 ≤ clock.instant
Closes clock maintenance_tick f = ⊥

-- The step sent nothing, or one request that is now in flight, where this held.
abbrev Sends : Core → Core → Type 0 → Type 0
Sends c d P = (sent d ≡ sent c) ⊎ ((f : InFlight) × IsSent c d f × P)

abbrev IsSerial : Clock → Event → Core → Core → Type 0
IsSerial clock event c d = Sends c d ((g : InFlight) → c.in_flight ≡ some g → Closes clock event g)

Sends-map : (c d : Core) (P Q : Type 0) → (P → Q) → Sends c d P → Sends c d Q
Sends-map c d P Q k (inl e) = inl e
Sends-map c d P Q k (inr (f, s, p)) = inr (f, s, k p)

-- What came before the sends left the link as it was.
Sends-from :
    (b c d : Core) (P : Type 0) → c.radio_send_tx ≡ b.radio_send_tx → Sends c d P → Sends b d P
Sends-from b c d P e (inl s) = inl (s ∙ ap sent_on e)
Sends-from b c d P e (inr (f, s, p)) =
    inr (f, (s.0, s.1 ∙ ap (λ tx. sent_on tx ++ f.payload ∷ []) e), p)

same : (f g : InFlight) → some f ≡ some g → f ≡ g
same f g e = ap (λ o. elim o [ none ↦ f | some x ↦ x ]) e

module _ (clock : Clock) where
  advance_queue-Sends :
      (P : Type 0) (c : Core) → c.in_flight ≡ none → P → Sends c (advance_queue clock c) P
  advance_queue-Sends P c h p = elim (advance_queue-IsAdvanced clock c h).1 [
    | inl e ↦ inl e.0
    | inr (f, s) ↦ inr (f, s, p)
  ]

  unless_busy-Sends :
      (c : Core) (slot : Option InFlight)
      → c.in_flight ≡ slot
      → Sends c (unless_busy slot (advance_queue clock c) c) (c.in_flight ≡ none)
  unless_busy-Sends c none e = advance_queue-Sends (c.in_flight ≡ none) c e e
  unless_busy-Sends c (some f) e = inl refl

  when_idle-Sends : (c : Core) → Sends c (when_idle (advance_queue clock) c) (c.in_flight ≡ none)
  when_idle-Sends c = unless_busy-Sends c c.in_flight refl

  push_event-Sends :
      (code : ℕ) (payload : Bytes) (c : Core)
      → Sends c (push_event clock code payload c) (c.in_flight ≡ none)
  unfolding push_event
  push_event-Sends code payload c =
      elim (Bool-cases ((code == 0x80 || code == 0x81) && leb 33 (length payload))) [
        | inl e ↦ rw e (when_idle-Sends (queue_contact_refresh (slice 1 33 payload) c))
        | inr e ↦ rw e (inl refl)
      ]

  or_push-Sends :
      (code : ℕ) (payload : Bytes) (r : Bool × Core)
      → Sends r.1 (or_push clock code payload r) (r.1.in_flight ≡ none)
  or_push-Sends code payload (true, c) = inl refl
  or_push-Sends code payload (false, c) = elim (Bool-cases (is_push_event code)) [
    | inl e ↦ rw e (push_event-Sends code payload c)
    | inr e ↦ rw e (inl refl)
  ]

  unrouted-Sends :
      (code : ℕ) (payload : Bytes) (c : Core)
      → Sends c (or_ack clock code payload (false, c)) (c.in_flight ≡ none)
  unrouted-Sends code payload c =
      let r = try_route_ack code payload c in
      let frozen = try_route_ack-IsFrozen code payload c in
      Sends-from c r.1 (or_push clock code payload r) (c.in_flight ≡ none) frozen.0.1 (
        Sends-map r.1 (or_push clock code payload r) (r.1.in_flight ≡ none) (c.in_flight ≡ none)
          (λ e. sym frozen.0.0 ∙ e) (or_push-Sends code payload r))

  request-Sends :
      (id : Option ℕ) (payload : Bytes) (c : Core) (slot : Option InFlight)
      → c.in_flight ≡ slot
      → Sends c (dispatch_or_enqueue clock id payload c slot) (c.in_flight ≡ none)
  request-Sends id payload c none e = elim (dispatch_to_radio-cases clock id payload c) [
    | inl frozen ↦ inl (ap sent_on frozen.0.1)
    | inr (f, s, p, i, q) ↦ inr (f, s, e)
  ]
  request-Sends id payload c (some f) e = inl refl

  enqueue_or_dispatch-Sends :
      (id : Option ℕ) (payload : Bytes) (c : Core)
      → Sends c (enqueue_or_dispatch clock id payload c) (c.in_flight ≡ none)
  unfolding enqueue_or_dispatch
  enqueue_or_dispatch-Sends id payload c = request-Sends id payload c c.in_flight refl

  route_matched-Sends :
      (f : InFlight) (code : ℕ) (payload : Bytes) (is_terminator : Bool) (c : Core)
      → Sends c (route_matched clock f code payload is_terminator c) (is_terminator ≡ true)
  unfolding route_matched
  route_matched-Sends f code payload false c =
      inl (ap sent_on (replied-IsFrozen clock f code payload c).0.1)
  route_matched-Sends f code payload true c =
      let d = fan_out f code payload (reply_to clock.instant f.client_id code payload c) in
      let e = freed d in
      let a = accepted_unless_error clock code f e in
      let still = accepted-IsStill clock code f e in
      Sends-from c a (advance_queue clock a) (true ≡ true)
        (still.1 ∙ (replied-IsFrozen clock f code payload c).0.1)
        (advance_queue-Sends (true ≡ true) a still.0 refl)

  classified-Sends :
      (f : InFlight) (payload : Bytes) (c : Core) (r : Bool × Bool)
      → c.in_flight ≡ some f
      → let code = byte_at payload 0 in
        Sends c
          (or_ack clock code payload (route_classified clock f code payload c r))
          (r ≡ (true, true))
  classified-Sends f payload c (false, t) e =
      Sends-map c (or_ack clock (byte_at payload 0) payload (false, c)) (c.in_flight ≡ none)
        ((false, t) ≡ (true, true)) (λ h. cc) (unrouted-Sends (byte_at payload 0) payload c)
  classified-Sends f payload c (true, t) e =
      Sends-map c (route_matched clock f (byte_at payload 0) payload t c) (t ≡ true)
        ((true, t) ≡ (true, true)) (λ h. ap (λ b. (true, b)) h)
        (route_matched-Sends f (byte_at payload 0) payload t c)

  received-Sends :
      (payload : Bytes) (c : Core) (slot : Option InFlight)
      → c.in_flight ≡ slot
      → let code = byte_at payload 0 in
        Sends c
          (or_ack clock code payload (route_request clock code payload c slot))
          ((g : InFlight) → c.in_flight ≡ some g → Closes clock (received payload) g)
  received-Sends payload c none e =
      Sends-map c (or_ack clock (byte_at payload 0) payload (false, c)) (c.in_flight ≡ none) _
        (λ h g k. cc) (unrouted-Sends (byte_at payload 0) payload c)
  received-Sends payload c (some f) e =
      Sends-map c
        (or_ack clock (byte_at payload 0) payload
          (route_request clock (byte_at payload 0) payload c (some f)))
        (classify f.awaiting (byte_at payload 0) ≡ (true, true)) _
        (λ h g k. classify-IsLastFrame g.awaiting (byte_at payload 0) (
          subst (λ x. classify x.awaiting (byte_at payload 0) ≡ (true, true)) (same f g (sym e ∙ k))
            h))
        (classified-Sends f payload c (classify f.awaiting (byte_at payload 0)) e)

  overdue_lem :
      (g : InFlight)
      → is_overdue clock.instant (some g) ≡ true
      → g.last_activity + 5000 ≤ clock.instant
  overdue_lem g h = ground (arith, h)

  timeout-Sends :
      (c : Core)
      → Sends c
          (check_in_flight_timeout clock c)
          ((g : InFlight) → c.in_flight ≡ some g → g.last_activity + 5000 ≤ clock.instant)
  unfolding check_in_flight_timeout
  timeout-Sends c = elim (Bool-cases (is_overdue clock.instant c.in_flight)) [
    | inl e ↦
        let d = fail_request (client_of c.in_flight) (freed c) in
        let frozen = fail_request-IsFrozen (client_of c.in_flight) (freed c) in
        rw (e, check_in_flight_timeout)
          (Sends-from c d (advance_queue clock d) _ frozen.0.1 (
            advance_queue-Sends _ d frozen.0.0
              λ g k. overdue_lem g (subst (λ slot. is_overdue clock.instant slot ≡ true) k e)))
    | inr e ↦ rw (e, check_in_flight_timeout) (inl refl)
  ]

  maintenance-Sends : (c : Core) → Sends c (run_maintenance clock c) (c.in_flight ≡ none)
  unfolding run_maintenance
  maintenance-Sends c =
      elim (Bool-cases (ltb 0 c.config.retention.contacts_days && not (full_sync_pending c))) [
        | inl e ↦ rw (e, run_maintenance) (when_idle-Sends (push_back none (0x04 ∷ []) c))
        | inr e ↦ rw (e, run_maintenance) (inl refl)
      ]

  module _ (hex_encode : Bytes → Bytes) where
    command-Sends :
        (cmd : ClientCommand) (c d : Core)
        → handle_client_command hex_encode clock cmd c ≡ some d
        → Sends c d ((g : InFlight) → c.in_flight ≡ some g → ⊥)
    command-Sends cmd c d h = elim (handle_client_command-IsForwarded hex_encode clock cmd c d h) [
      | inl frozen ↦ inl (ap sent_on frozen.0.1)
      | inr (e, frozen, eq) ↦
          let id = some cmd.client_id in
          let payload = forwarded (byte_at cmd.payload 0) cmd.payload in
          let f = enqueue_or_dispatch clock id payload e in
          rw eq (
            Sends-from c e f _ frozen.0.1 (
              Sends-map e f (e.in_flight ≡ none) _ (λ h g k. cc)
                (enqueue_or_dispatch-Sends id payload e)))
    ]

    frame-Sends :
        (payload : Bytes) (c d : Core)
        → handle_radio_rx hex_encode clock payload c ≡ some d
        → Sends c d ((g : InFlight) → c.in_flight ≡ some g → Closes clock (received payload) g)
    unfolding route_frame try_route_to_in_flight
    frame-Sends payload c d h = elim (handle_radio_rx-routed hex_encode clock payload c d h) [
      | inl e ↦ inl (ap sent e)
      | inr (e, frozen, eq) ↦ rw eq (
          Sends-from c e (route_frame clock payload e) _ frozen.0.1 (
            Sends-map e (route_frame clock payload e) _ _ (λ k g l. k g (frozen.0.0 ∙ l))
              (received-Sends payload e e.in_flight refl)))
    ]

    -- Each step sends the radio at most one command, which is then the request in flight; and it sends one
    -- only if no request was in flight, or if the event ended that request: by the last frame of the reply that
    -- it waits for, or because 5 seconds had passed. The step is one that does not panic.
    pub handle-serial :
        (event : Event) (c d : Core)
        → handle hex_encode clock event c ≡ some d
        → (sent d ≡ sent c)
          ⊎ ((f : InFlight) × IsSent c d f
              × ((g : InFlight) → c.in_flight ≡ some g → Closes clock event g))
    unfolding handle
    handle-serial (command cmd) c d h = command-Sends cmd c d h
    handle-serial (received payload) c d h = frame-Sends payload c d h
    handle-serial timeout_tick c d h =
        subst (IsSerial clock timeout_tick c) (some-inner h) (timeout-Sends c)
    handle-serial maintenance_tick c d h =
        subst (IsSerial clock maintenance_tick c) (some-inner h) (
          Sends-map c (run_maintenance clock c) (c.in_flight ≡ none) _ (λ h g k. cc)
            (maintenance-Sends c))
