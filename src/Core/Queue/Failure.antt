-- ===== src/Core/Queue/Failure.antt =====
-- Requests that the radio will not answer (src/core.rs).
use coresplitter.Base.{
  ℕ, suc, ◌≡◌, refl, sym, ap, ◌∙◌, Bool, true, false, Option, none, some, List, [], ◌∷◌, ◌++◌,
  if◌then◌else◌, replicate, append_assoc, append-nil,
}
use coresplitter.Base.Bytes.{Bytes}
use coresplitter.Base.Maps.{apply_to}
use coresplitter.Core.State.{Core, Queued}
use coresplitter.Core.Clients.{fail_request, error_frame, push}
use coresplitter.Core.Clients.Laws.{outbox, is_client_of, outbox-fail_request}
use coresplitter.Core.Queue.{client_of, fail_queue, fail_requests}
use coresplitter.Core.Queue.Frozen.{IsFrozen, IsFrozen-trans, fail_request-IsFrozen}

abbrev pub count_if : Bool → ℕ → ℕ
count_if true n = suc n
count_if false n = n

abbrev pub queued_by : ℕ → List Queued → ℕ
queued_by j [] = 0
queued_by j (q ∷ queue) = count_if (is_client_of q.client_id j) (queued_by j queue)

-- How many requests of a client are open.
abbrev pub open_requests : ℕ → Core → ℕ
open_requests j c = count_if (is_client_of (client_of c.in_flight) j) (queued_by j c.pending_queue)

-- ERROR `n` times.
abbrev pub errors : ℕ → List Bytes → List Bytes
errors n log = log ++ replicate n error_frame

pub errors-zero : (o : Option (List Bytes)) → apply_to (errors 0) o ≡ o
errors-zero none = refl
errors-zero (some log) = ap some (append-nil log)

pub errors-add :
    (b : Bool) (n : ℕ) (o : Option (List Bytes))
    → apply_to (errors n) (if b then apply_to (push error_frame) o else o)
      ≡ apply_to (errors (count_if b n)) o
errors-add true n none = refl
errors-add false n none = refl
errors-add true n (some log) =
    ap some (append_assoc log (error_frame ∷ []) (replicate n error_frame))
errors-add false n (some log) = refl

outbox-fail_queue :
    (j : ℕ) (queue : List Queued) (c : Core)
    → outbox j (fail_queue queue c) ≡ apply_to (errors (queued_by j queue)) (outbox j c)
unfolding fail_queue
outbox-fail_queue j [] c = sym (errors-zero (outbox j c))
outbox-fail_queue j (q ∷ queue) c =
    outbox-fail_queue j queue (fail_request q.client_id c)
    ∙ ap (apply_to (errors (queued_by j queue))) (outbox-fail_request q.client_id j c)
    ∙ errors-add (is_client_of q.client_id j) (queued_by j queue) (outbox j c)

fail_queue-IsFrozen : (queue : List Queued) (c : Core) → IsFrozen c (fail_queue queue c)
unfolding fail_queue
fail_queue-IsFrozen [] c = ((refl, refl), refl)
fail_queue-IsFrozen (q ∷ queue) c =
    IsFrozen-trans c (fail_request q.client_id c) (fail_queue queue (fail_request q.client_id c))
      (fail_request-IsFrozen q.client_id c) (fail_queue-IsFrozen queue (fail_request q.client_id c))

abbrev dropped : Core → Core
dropped c = record c { radio_send_tx = none; radio_up = false; in_flight = none }

-- When the radio is lost, each connected client gets one ERROR for each of its requests, in flight or queued,
-- and no request is left.
pub fail_requests-answered :
    (j : ℕ) (c : Core)
    → (outbox j (fail_requests c) ≡ apply_to (errors (open_requests j c)) (outbox j c))
      × ((fail_requests c).in_flight ≡ none)
      × ((fail_requests c).pending_queue ≡ [])
      × ((fail_requests c).radio_send_tx ≡ none)
unfolding fail_requests
fail_requests-answered j c =
    let id = client_of c.in_flight in
    let d = fail_request id (dropped c) in
    let frozen = fail_request-IsFrozen id (dropped c) in
    let rest = fail_queue-IsFrozen d.pending_queue d in
    (
      outbox-fail_queue j d.pending_queue d
          ∙ ap (λ q. apply_to (errors (queued_by j q)) (outbox j d)) frozen.1
          ∙ ap (apply_to (errors (queued_by j c.pending_queue)))
              (outbox-fail_request id j (dropped c))
          ∙ errors-add (is_client_of id j) (queued_by j c.pending_queue) (outbox j c),
      rest.0.0 ∙ frozen.0.0,
      refl,
      rest.0.1 ∙ frozen.0.1,
    )
