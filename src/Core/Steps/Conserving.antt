-- ===== src/Core/Steps/Conserving.antt =====
-- No request waits for an idle radio (src/core.rs).
use coresplitter.Base.{
  subst, ℕ, ◌≡◌, refl, sym, ◌∙◌, Bool, true, false, not, ◌&&◌, ◌||◌, inl, inr, Option, none, some,
  [], ◌∷◌, Bool-cases, ltb, leb, ◌==◌, length,
}
use coresplitter.Base.Bytes.{Bytes, byte_at, slice}
use coresplitter.Core.Awaiting.{classify, is_push_event}
use coresplitter.Core.State.{Core, InFlight, Clock, ClientCommand}
use coresplitter.Core.Queue.{
  advance_queue, dispatch_to_radio, enqueue_or_dispatch, check_in_flight_timeout, run_maintenance,
  is_overdue, client_of, unless_busy, when_idle, push_back, full_sync_pending,
  queue_contact_refresh, dispatch_or_enqueue,
}
use coresplitter.Core.Clients.{fail_request}
use coresplitter.Core.Queue.Frozen.{IsFrozen, dispatch_to_radio-cases, fail_request-IsFrozen}
use coresplitter.Core.Queue.Advance.{IsConserving, advance_queue-IsAdvanced}
use coresplitter.Core.Reply.{
  try_route_to_in_flight, try_route_ack, route_matched, route_classified, route_request, push_event,
  route_frame, accepted_unless_error, or_push, or_ack, reply_to, fan_out,
}
use coresplitter.Core.Reply.Still.{accepted-IsStill, freed, try_route_ack-IsFrozen}
use coresplitter.Protocol.Decode.Chain.{some-inner}
use coresplitter.Core.Receive.{handle_radio_rx}
use coresplitter.Core.Receive.Frozen.{handle_radio_rx-routed}
use coresplitter.Core.Commands.{forwarded, handle_client_command}
use coresplitter.Core.Commands.Forward.{handle_client_command-IsForwarded}
use coresplitter.Core.Steps.{Event, command, received, timeout_tick, maintenance_tick, handle}

-- An operation that touches neither the slot nor the queue keeps the invariant.
IsConserving-frozen : (c d : Core) → IsFrozen c d → IsConserving c → IsConserving d
IsConserving-frozen c d frozen inv e = frozen.1 ∙ inv (sym frozen.0.0 ∙ e)

module _ (clock : Clock) where
  -- With any queue: this is what lets an entry be queued first.
  when_idle-IsConserving : (c : Core) → IsConserving (when_idle (advance_queue clock) c)
  when_idle-IsConserving c = go c.in_flight refl
    where
      go :
          (slot : Option InFlight)
          → c.in_flight ≡ slot
          → IsConserving (unless_busy slot (advance_queue clock c) c)
      go none e = (advance_queue-IsAdvanced clock c e).0
      go (some f) e = λ h. cc

  push_event-IsConserving :
      (code : ℕ) (payload : Bytes) (c : Core)
      → IsConserving c
      → IsConserving (push_event clock code payload c)
  unfolding push_event
  push_event-IsConserving code payload c inv =
      elim (Bool-cases ((code == 0x80 || code == 0x81) && leb 33 (length payload))) [
        | inl e ↦ rw e (when_idle-IsConserving (queue_contact_refresh (slice 1 33 payload) c))
        | inr e ↦ rw e inv
      ]

  or_push-IsConserving :
      (code : ℕ) (payload : Bytes) (r : Bool × Core)
      → IsConserving r.1
      → IsConserving (or_push clock code payload r)
  or_push-IsConserving code payload (true, c) inv = inv
  or_push-IsConserving code payload (false, c) inv = elim (Bool-cases (is_push_event code)) [
    | inl e ↦ rw e (push_event-IsConserving code payload c inv)
    | inr e ↦ rw e inv
  ]

  route_matched-IsConserving :
      (f : InFlight) (code : ℕ) (payload : Bytes) (is_terminator : Bool) (c : Core)
      → IsConserving (route_matched clock f code payload is_terminator c)
  unfolding route_matched
  route_matched-IsConserving f code payload false c = λ h. cc
  route_matched-IsConserving f code payload true c =
      let d = freed (fan_out f code payload (reply_to clock.instant f.client_id code payload c)) in
      (advance_queue-IsAdvanced clock (accepted_unless_error clock code f d)
        (accepted-IsStill clock code f d).0).0

  unrouted-IsConserving :
      (code : ℕ) (payload : Bytes) (c : Core)
      → IsConserving c
      → IsConserving (or_ack clock code payload (false, c))
  unrouted-IsConserving code payload c inv =
      let r = try_route_ack code payload c in
      or_push-IsConserving code payload r
        (IsConserving-frozen c r.1 (try_route_ack-IsFrozen code payload c) inv)

  classified-IsConserving :
      (f : InFlight) (code : ℕ) (payload : Bytes) (c : Core) (r : Bool × Bool)
      → IsConserving c
      → IsConserving (or_ack clock code payload (route_classified clock f code payload c r))
  classified-IsConserving f code payload c (false, t) inv = unrouted-IsConserving code payload c inv
  classified-IsConserving f code payload c (true, t) inv =
      route_matched-IsConserving f code payload t c

  received-IsConserving :
      (code : ℕ) (payload : Bytes) (c : Core) (slot : Option InFlight)
      → IsConserving c
      → IsConserving (or_ack clock code payload (route_request clock code payload c slot))
  received-IsConserving code payload c none inv = unrouted-IsConserving code payload c inv
  received-IsConserving code payload c (some f) inv =
      classified-IsConserving f code payload c (classify f.awaiting code) inv

  request-IsConserving :
      (id : Option ℕ) (payload : Bytes) (c : Core) (slot : Option InFlight)
      → c.in_flight ≡ slot
      → IsConserving c
      → IsConserving (dispatch_or_enqueue clock id payload c slot)
  request-IsConserving id payload c none e inv = elim (dispatch_to_radio-cases clock id payload c) [
    | inl frozen ↦ IsConserving-frozen c (dispatch_to_radio clock id payload c) frozen inv
    | inr (f, s, p, i, q) ↦ λ h. q ∙ inv e
  ]
  request-IsConserving id payload c (some f) e inv = λ h. cc

  timeout-IsConserving :
      (c : Core) → IsConserving c → IsConserving (check_in_flight_timeout clock c)
  unfolding check_in_flight_timeout
  timeout-IsConserving c inv = elim (Bool-cases (is_overdue clock.instant c.in_flight)) [
    | inl e ↦
        rw (e, check_in_flight_timeout)
          (advance_queue-IsAdvanced clock (fail_request (client_of c.in_flight) (freed c))
            (fail_request-IsFrozen (client_of c.in_flight) (freed c)).0.0).0
    | inr e ↦ rw (e, check_in_flight_timeout) inv
  ]

  maintenance-IsConserving : (c : Core) → IsConserving c → IsConserving (run_maintenance clock c)
  unfolding run_maintenance
  maintenance-IsConserving c inv =
      elim (Bool-cases (ltb 0 c.config.retention.contacts_days && not (full_sync_pending c))) [
        | inl e ↦ rw (e, run_maintenance) (when_idle-IsConserving (push_back none (0x04 ∷ []) c))
        | inr e ↦ rw (e, run_maintenance) inv
      ]

  enqueue_or_dispatch-IsConserving :
      (id : Option ℕ) (payload : Bytes) (c : Core)
      → IsConserving c
      → IsConserving (enqueue_or_dispatch clock id payload c)
  unfolding enqueue_or_dispatch
  enqueue_or_dispatch-IsConserving id payload c inv =
      request-IsConserving id payload c c.in_flight refl inv

  module _ (hex_encode : Bytes → Bytes) where
    command-IsConserving :
        (cmd : ClientCommand) (c d : Core)
        → handle_client_command hex_encode clock cmd c ≡ some d
        → IsConserving c
        → IsConserving d
    command-IsConserving cmd c d h inv =
        elim (handle_client_command-IsForwarded hex_encode clock cmd c d h) [
          | inl frozen ↦ IsConserving-frozen c d frozen inv
          | inr (e, frozen, eq) ↦ rw eq (
              enqueue_or_dispatch-IsConserving (some cmd.client_id)
                (forwarded (byte_at cmd.payload 0) cmd.payload) e
                (IsConserving-frozen c e frozen inv))
        ]

    frame-IsConserving :
        (payload : Bytes) (c d : Core)
        → handle_radio_rx hex_encode clock payload c ≡ some d
        → IsConserving c
        → IsConserving d
    unfolding route_frame try_route_to_in_flight
    frame-IsConserving payload c d h inv =
        elim (handle_radio_rx-routed hex_encode clock payload c d h) [
          | inl e ↦ subst IsConserving (sym e) inv
          | inr (e, frozen, eq) ↦ rw eq (
              received-IsConserving (byte_at payload 0) payload e e.in_flight
                (IsConserving-frozen c e frozen inv))
        ]

    -- Every step that does not panic keeps this: while no request is in flight, none waits in the queue. So a
    -- queued request always has one in flight before it, whose end or timeout takes the queue on.
    pub handle-IsConserving :
        (event : Event) (c d : Core)
        → handle hex_encode clock event c ≡ some d
        → IsConserving c
        → IsConserving d
    unfolding handle
    handle-IsConserving (command cmd) c d h inv = command-IsConserving cmd c d h inv
    handle-IsConserving (received payload) c d h inv = frame-IsConserving payload c d h inv
    handle-IsConserving timeout_tick c d h inv =
        subst IsConserving (some-inner h) (timeout-IsConserving c inv)
    handle-IsConserving maintenance_tick c d h inv =
        subst IsConserving (some-inner h) (maintenance-IsConserving c inv)
