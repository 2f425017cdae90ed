-- ===== src/Core/Queue/Owed.antt =====
-- What the clients are owed by the requests in the queue, as `advance_queue` (src/core.rs) goes through them.
use coresplitter.Base.{
  ℕ, suc, ◌≡◌, ◌≤◌, refl, ap, ◌∙◌, Bool, true, false, ◌⊎◌, inl, inr, Option, none, some, List, [],
  ◌∷◌, arith, Bool-cases, if◌then◌else◌, length, not, ◌==◌, subst, ==_iff,
}
use coresplitter.Base.Bytes.{Bytes}
use coresplitter.Base.Maps.{apply_to, lookup}
use coresplitter.Core.State.{Core, InFlight, Queued, Clock}
use coresplitter.Core.Clients.{send_to_radio, error_frame, push, client_is_alive, is_some}
use coresplitter.Core.Clients.Laws.{outbox, is_client_of, outbox-fail_request}
use coresplitter.Core.Queue.{
  dispatch_to_radio, after_send, invalidate, is_orphan, advance, sent_request,
}
use coresplitter.Core.Queue.Failure.{errors, errors-add, count_if, queued_by, open_requests}
use coresplitter.Core.Queue.Frozen.{fail_request-IsFrozen, invalidate-IsFrozen}

-- How many requests are open, of all clients and of the core itself.
abbrev pub open_in : Option InFlight → List Queued → ℕ
open_in none queue = length queue
open_in (some f) queue = suc (length queue)

-- What a client has been sent, and an ERROR for each of its open requests.
abbrev pub settled : ℕ → Core → Option (List Bytes)
settled j c = apply_to (errors (open_requests j c)) (outbox j c)

invalidate-channels :
    (payload : Bytes) (c : Core) → (invalidate payload c).client_channels ≡ c.client_channels
unfolding invalidate
invalidate-channels payload c = ground arith

absent :
    (f g : List Bytes → List Bytes) (o : Option (List Bytes))
    → not (is_some o) ≡ true
    → apply_to f o ≡ apply_to g o
absent f g none h = refl
absent f g (some log) h = cc

orphan-settled :
    (j n : ℕ) (id : Option ℕ) (c : Core)
    → is_orphan c id ≡ true
    → apply_to (errors n) (outbox j c)
      ≡ apply_to (errors (count_if (is_client_of id j) n)) (outbox j c)
unfolding client_is_alive
orphan-settled j n none c h = cc
orphan-settled j n (some id) c h = elim (Bool-cases (id == j)) [
  | inl e ↦
      absent (errors n) (errors (count_if (id == j) n)) (outbox j c)
        (subst (λ x. not (is_some (lookup x c.client_channels)) ≡ true) ((==_iff id j).0 e) h)
  | inr e ↦ rw e refl
]

module _ (clock : Clock) (id : Option ℕ) (payload : Bytes) where
  -- A dispatch fails and tells the client, or the slot is filled at this instant.
  abbrev IsTold : Core → Core → Type 0
  IsTold c d =
      ((d.in_flight ≡ none)
        × ((j : ℕ)
            → outbox j d ≡ (
                if is_client_of id j
                then apply_to (push error_frame) (outbox j c)
                else outbox j c)))
      ⊎ ((f : InFlight) × (d.in_flight ≡ some f)
          × (f.client_id ≡ id)
          × (f.last_activity ≡ clock.instant)
          × (d.pending_queue ≡ c.pending_queue)
          × (d.client_channels ≡ c.client_channels))

  after_send-IsTold :
      (c : Core) (r : Bool × Core)
      → c.in_flight ≡ none
      → r.1.in_flight ≡ c.in_flight
      → r.1.pending_queue ≡ c.pending_queue
      → r.1.client_channels ≡ c.client_channels
      → IsTold c (after_send clock id payload r)
  after_send-IsTold c (false, d) h i q e = inl (
    (fail_request-IsFrozen id d).0.0 ∙ i ∙ h,
    λ j.
        outbox-fail_request id j d
        ∙ ap
            (λ l.
              if is_client_of id j then apply_to (push error_frame) (lookup j l) else lookup j l)
            e,
  )
  after_send-IsTold c (true, d) h i q e = inr (
    sent_request clock id payload (invalidate payload d),
    refl,
    refl,
    refl,
    (invalidate-IsFrozen payload d).1 ∙ q,
    invalidate-channels payload d ∙ e,
  )

  dispatch_to_radio-IsTold :
      (c : Core) → c.in_flight ≡ none → IsTold c (dispatch_to_radio clock id payload c)
  unfolding dispatch_to_radio send_to_radio
  dispatch_to_radio-IsTold c h = after_send-IsTold c (send_to_radio payload c) h refl refl refl

-- After the queue was advanced: what the clients are owed is what they were owed by the queue, no more
-- requests are open than were queued, and the one in flight was sent at this instant.
abbrev pub IsPaid : Clock → List Queued → Core → Core → Type 0
IsPaid clock queue c d =
    ((j : ℕ) → settled j d ≡ apply_to (errors (queued_by j queue)) (outbox j c))
    × (open_in d.in_flight d.pending_queue ≤ length queue)
    × (((d.in_flight ≡ none) × (d.pending_queue ≡ []))
        ⊎ ((f : InFlight) × (d.in_flight ≡ some f) × (f.last_activity ≡ clock.instant)))

module _ (clock : Clock) where
  sent-IsPaid :
      (next : Queued) (queue : List Queued) (c d : Core) (f : InFlight)
      → d.in_flight ≡ some f
      → f.client_id ≡ next.client_id
      → f.last_activity ≡ clock.instant
      → d.pending_queue ≡ queue
      → d.client_channels ≡ c.client_channels
      → IsPaid clock (next ∷ queue) c d
  sent-IsPaid next queue c d f i k l q e =
      ((λ j. rw (i, k, q, e) refl), rw (i, q) (omega arith), inr (f, i, l))

  pub advance-IsPaid :
      (queue : List Queued) (c : Core)
      → c.in_flight ≡ none
      → IsPaid clock queue c (advance clock queue c)
  unfolding advance
  advance-IsPaid [] c h = rw h ((λ j. refl), omega arith, inl (refl, refl))
  advance-IsPaid (next ∷ queue) c h = elim (Bool-cases (is_orphan c next.client_id)) [
    | inl gone ↦
        let rest = advance-IsPaid queue c h in
        rw (gone, advance)
          (
            (λ j. rest.0 j ∙ orphan-settled j (queued_by j queue) next.client_id c gone),
            omega (arith, rest.1),
            rest.2,
          )
    | inr there ↦
        let c' = record c { pending_queue = queue } in
        let d = dispatch_to_radio clock next.client_id next.payload c' in
        rw (there, advance)
          (elim (dispatch_to_radio-IsTold clock next.client_id next.payload c' h) [
            | inl (i, told) ↦
                let rest = advance-IsPaid queue d i in
                rw i (
                  (λ j.
                      rest.0 j
                      ∙ ap (apply_to (errors (queued_by j queue))) (told j)
                      ∙ errors-add (is_client_of next.client_id j) (queued_by j queue)
                          (outbox j c)),
                  omega (arith, rest.1),
                  rest.2,
                )
            | inr (f, i, k, l, q, e) ↦ rw i (sent-IsPaid next queue c d f i k l q e)
          ])
  ]
