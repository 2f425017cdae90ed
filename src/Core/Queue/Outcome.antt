-- ===== src/Core/Queue/Outcome.antt =====
-- What becomes of a request (src/core.rs, `enqueue_or_dispatch`).
use coresplitter.Base.{
  ℕ, ◌≡◌, refl, ap, ◌∙◌, Bool, true, false, ◌⊎◌, inl, inr, Option, none, some, [], ◌∷◌, ◌++◌, arith,
  if◌then◌else◌,
}
use coresplitter.Base.Bytes.{Bytes}
use coresplitter.Base.Maps.{apply_to, lookup}
use coresplitter.Core.State.{Core, InFlight, Clock}
use coresplitter.Core.Clients.{fail_request, send_to_radio, error_frame, push}
use coresplitter.Core.Clients.Laws.{outbox, is_client_of, outbox-fail_request}
use coresplitter.Core.Queue.{
  enqueue_or_dispatch, dispatch_or_enqueue, dispatch_to_radio, after_send, sent_request, invalidate,
  push_back,
}
use coresplitter.Core.Queue.Frozen.{
  IsSent, IsFrozen, IsFrozen-trans, fail_request-IsFrozen, invalidate-IsFrozen, sent, sent_on,
  send_to_radio-cases,
}

send_to_radio-channels :
    (payload : Bytes) (c : Core) → (send_to_radio payload c).1.client_channels ≡ c.client_channels
unfolding send_to_radio
send_to_radio-channels payload c = refl

self_client : (id : ℕ) → is_client_of (some id) id ≡ true
self_client id = ground arith

module _ (clock : Clock) (id : ℕ) (payload : Bytes) where
  -- It waits behind all others, it is in flight, or its client was told ERROR.
  abbrev pub IsAccounted : Core → Core → Type 0
  IsAccounted c d =
      (d ≡ push_back (some id) payload c)
      ⊎ ((f : InFlight) × IsSent c d f × (f.payload ≡ payload) × (f.client_id ≡ some id))
      ⊎ ((outbox id d ≡ apply_to (push error_frame) (outbox id c))
          × (sent d ≡ sent c)
          × (d.in_flight ≡ c.in_flight))

  after_send-IsAccounted :
      (c : Core) (r : Bool × Core)
      → r.1.client_channels ≡ c.client_channels
      → ((r.0 ≡ false) × IsFrozen c r.1)
        ⊎ ((r.0 ≡ true)
            × (sent r.1 ≡ sent c ++ payload ∷ [])
            × (r.1.in_flight ≡ c.in_flight)
            × (r.1.pending_queue ≡ c.pending_queue))
      → IsAccounted c (after_send clock (some id) payload r)
  after_send-IsAccounted c (false, d) e (inl (k, h)) =
      let frozen =
        IsFrozen-trans c d (fail_request (some id) d) h (fail_request-IsFrozen (some id) d) in
      inr (
        inr (
          outbox-fail_request (some id) id d
              ∙ ap (λ b. if b then apply_to (push error_frame) (outbox id d) else outbox id d)
                  (self_client id)
              ∙ ap (λ l. apply_to (push error_frame) (lookup id l)) e,
          ap sent_on frozen.0.1,
          frozen.0.0,
        ))
  after_send-IsAccounted c (false, d) e (inr (k, s, i, q)) = cc
  after_send-IsAccounted c (true, d) e (inl (k, h)) = cc
  after_send-IsAccounted c (true, d) e (inr (k, s, i, q)) =
      let frozen = invalidate-IsFrozen payload d in
      inr (
        inl (
          sent_request clock (some id) payload (invalidate payload d),
          (refl, ap sent_on frozen.0.1 ∙ s),
          refl,
          refl,
        ))

  dispatched-IsAccounted :
      (c : Core) (slot : Option InFlight)
      → c.in_flight ≡ slot
      → IsAccounted c (dispatch_or_enqueue clock (some id) payload c slot)
  unfolding dispatch_to_radio
  dispatched-IsAccounted c none e =
      after_send-IsAccounted c (send_to_radio payload c) (send_to_radio-channels payload c)
        (send_to_radio-cases payload c)
  dispatched-IsAccounted c (some f) e = inl refl

  -- No request of a client is lost when it arrives: it is queued behind all others, it is sent and is then the
  -- one in flight, or its client is told ERROR while the slot stays as it was and nothing was sent.
  pub enqueue_or_dispatch-IsAccounted :
      (c : Core) → IsAccounted c (enqueue_or_dispatch clock (some id) payload c)
  unfolding enqueue_or_dispatch
  enqueue_or_dispatch-IsAccounted c = dispatched-IsAccounted c c.in_flight refl
