-- ===== src/Core/Queue/Frozen.antt =====
-- What an operation of the core leaves alone: the request in flight, the queue, the link to the radio.
use coresplitter.Base.{
  ℕ, ◌≡◌, refl, ap, ◌∙◌, Bool, true, false, ◌⊎◌, inl, inr, Option, none, some, List, [], ◌∷◌, ◌++◌,
  arith,
}
use coresplitter.Base.Bytes.{Bytes}
use coresplitter.Core.State.{Core, RadioLink, InFlight, Clock}
use coresplitter.Core.Clients.{
  send_to_client, broadcast_to_others, fail_request, send_to_radio, link_send,
}
use coresplitter.Core.Queue.{invalidate, after_send, dispatch_to_radio, sent_request}

-- Neither the request in flight nor the link changes.
abbrev pub IsStill : Core → Core → Type 0
IsStill c d = (d.in_flight ≡ c.in_flight) × (d.radio_send_tx ≡ c.radio_send_tx)

-- Nor does the queue.
abbrev pub IsFrozen : Core → Core → Type 0
IsFrozen c d = IsStill c d × (d.pending_queue ≡ c.pending_queue)

pub IsStill-trans : (c d e : Core) → IsStill c d → IsStill d e → IsStill c e
IsStill-trans c d e h k = (k.0 ∙ h.0, k.1 ∙ h.1)

pub IsFrozen-trans : (c d e : Core) → IsFrozen c d → IsFrozen d e → IsFrozen c e
IsFrozen-trans c d e h k = (IsStill-trans c d e h.0 k.0, k.1 ∙ h.1)

pub send_to_client-IsFrozen :
    (id : ℕ) (frame : Bytes) (c : Core) → IsFrozen c (send_to_client id frame c)
unfolding send_to_client
send_to_client-IsFrozen id frame c = ((refl, refl), refl)

pub broadcast_to_others-IsFrozen :
    (exclude : Option ℕ) (frame : Bytes) (c : Core)
    → IsFrozen c (broadcast_to_others exclude frame c)
unfolding broadcast_to_others
broadcast_to_others-IsFrozen exclude frame c = ((refl, refl), refl)

pub fail_request-IsFrozen : (id : Option ℕ) (c : Core) → IsFrozen c (fail_request id c)
unfolding fail_request
fail_request-IsFrozen none c = ((refl, refl), refl)
fail_request-IsFrozen (some id) c = send_to_client-IsFrozen id (0x01 ∷ 0x01 ∷ []) c

pub invalidate-IsFrozen : (payload : Bytes) (c : Core) → IsFrozen c (invalidate payload c)
unfolding invalidate
invalidate-IsFrozen payload c = ground arith

-- What the radio was sent on the link it has now.
abbrev pub sent_on : Option RadioLink → List Bytes
sent_on none = []
sent_on (some tx) = tx.sent

abbrev pub sent : Core → List Bytes
sent c = sent_on c.radio_send_tx

-- The last step handed this request to the radio.
abbrev pub IsSent : Core → Core → InFlight → Type 0
IsSent c d f = (d.in_flight ≡ some f) × (sent d ≡ sent c ++ f.payload ∷ [])

link_send-cases :
    (frame : Bytes) (tx : Option RadioLink)
    → ((link_send frame tx ≡ (false, tx)))
      ⊎ (((link_send frame tx).0 ≡ true)
          × (sent_on (link_send frame tx).1 ≡ sent_on tx ++ frame ∷ []))
link_send-cases frame none = inl refl
link_send-cases frame (some tx) = ground arith

-- The send fails and changes nothing, or the link has the frame.
pub send_to_radio-cases :
    (payload : Bytes) (c : Core)
    → let (is_sent, d) = send_to_radio payload c in
      ((is_sent ≡ false) × IsFrozen c d)
      ⊎ ((is_sent ≡ true)
          × (sent d ≡ sent c ++ payload ∷ [])
          × (d.in_flight ≡ c.in_flight)
          × (d.pending_queue ≡ c.pending_queue))
unfolding send_to_radio
send_to_radio-cases payload c = elim (link_send-cases payload c.radio_send_tx) [
  | inl e ↦ inl (ap (λ r. r.0) e, ((refl, ap (λ r. r.1) e), refl))
  | inr (e, s) ↦ inr (e, s, refl, refl)
]

-- A dispatch fails, with all as it was, or fills the slot with the request it sent.
module _ (clock : Clock) (id : Option ℕ) (payload : Bytes) where
  abbrev Dispatched : Core → Core → Type 0
  Dispatched c d =
      IsFrozen c d
      ⊎ ((f : InFlight) × IsSent c d f
          × (f.payload ≡ payload)
          × (f.client_id ≡ id)
          × (d.pending_queue ≡ c.pending_queue))

  pub after_send-cases :
      (c : Core) (r : Bool × Core)
      → ((r.0 ≡ false) × IsFrozen c r.1)
        ⊎ ((r.0 ≡ true)
            × (sent r.1 ≡ sent c ++ payload ∷ [])
            × (r.1.in_flight ≡ c.in_flight)
            × (r.1.pending_queue ≡ c.pending_queue))
      → Dispatched c (after_send clock id payload r)
  after_send-cases c (false, d) (inl (e, h)) =
      inl (IsFrozen-trans c d (fail_request id d) h (fail_request-IsFrozen id d))
  after_send-cases c (true, d) (inl (e, h)) = cc
  after_send-cases c (false, d) (inr (e, s, h, k)) = cc
  after_send-cases c (true, d) (inr (e, s, h, k)) =
      let i = invalidate-IsFrozen payload d in
      inr (
        sent_request clock id payload (invalidate payload d),
        (refl, ap sent_on i.0.1 ∙ s),
        refl,
        refl,
        i.1 ∙ k,
      )

  pub dispatch_to_radio-cases : (c : Core) → Dispatched c (dispatch_to_radio clock id payload c)
  unfolding dispatch_to_radio
  dispatch_to_radio-cases c =
      after_send-cases c (send_to_radio payload c) (send_to_radio-cases payload c)
