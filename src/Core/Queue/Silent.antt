-- ===== src/Core/Queue/Silent.antt =====
-- The timeouts of `check_in_flight_timeout` (src/core.rs) while the radio is silent.
use coresplitter.Base.{
  ℕ, suc, ◌-◌, ◌≡◌, ◌≤◌, refl, sym, ap, ◌∙◌, Bool, true, false, ◌⊎◌, inl, inr, none, some, List, [],
  ◌∷◌, arith, Bool-cases, if◌then◌else◌, leb, length, subst,
}
use coresplitter.Base.Maps.{apply_to}
use coresplitter.Core.State.{Core, InFlight, Clock}
use coresplitter.Core.Clients.{fail_request}
use coresplitter.Core.Clients.Laws.{outbox, is_client_of, outbox-fail_request}
use coresplitter.Core.Queue.{
  advance, advance_queue, client_of, is_overdue, check_in_flight_timeout, in_flight_timeout,
}
use coresplitter.Core.Queue.Failure.{errors, errors-add, errors-zero, queued_by}
use coresplitter.Core.Queue.Frozen.{fail_request-IsFrozen}
use coresplitter.Core.Queue.Owed.{settled, open_in, advance-IsPaid}

module _ (clock : Clock) where
  -- What the clients are owed stays, a request is closed, and the next one, if any, was sent at this instant.
  abbrev IsTicked : Core → Core → Type 0
  IsTicked c d =
      ((j : ℕ) → settled j d ≡ settled j c)
      × (open_in d.in_flight d.pending_queue ≤ length c.pending_queue)
      × (((d.in_flight ≡ none) × (d.pending_queue ≡ []))
          ⊎ ((f : InFlight) × (d.in_flight ≡ some f) × (f.last_activity ≡ clock.instant)))

  overdue-IsTicked :
      (c : Core)
      → is_overdue clock.instant c.in_flight ≡ true
      → IsTicked c (check_in_flight_timeout clock c)
  unfolding check_in_flight_timeout advance_queue
  overdue-IsTicked c late =
      let id = client_of c.in_flight in
      let freed = record c { in_flight = none } in
      let d = fail_request id freed in
      let frozen = fail_request-IsFrozen id freed in
      let paid = advance-IsPaid clock d.pending_queue d frozen.0.0 in
      rw (late, check_in_flight_timeout)
        (
          (λ j.
              paid.0 j
              ∙ ap (λ q. apply_to (errors (queued_by j q)) (outbox j d)) frozen.1
              ∙ ap (apply_to (errors (queued_by j c.pending_queue)))
                  (outbox-fail_request id j freed)
              ∙ errors-add (is_client_of id j) (queued_by j c.pending_queue) (outbox j c)),
          subst
              (λ q.
                open_in (advance clock d.pending_queue d).in_flight
                  (advance clock d.pending_queue d).pending_queue
                ≤ length q)
              frozen.1 paid.1,
          paid.2,
        )

  early-still :
      (c : Core)
      → is_overdue clock.instant c.in_flight ≡ false
      → check_in_flight_timeout clock c ≡ c
  unfolding check_in_flight_timeout
  early-still c early = rw early refl

-- The timer of `run` fires at these instants, and nothing else happens.
abbrev pub ticks : List Clock → Core → Core
ticks [] c = c
ticks (clock ∷ rest) c = ticks rest (check_in_flight_timeout clock c)

-- How many of the ticks find the request of that time overdue, each then starting the next one.
abbrev pub due : ℕ → List Clock → ℕ
due since [] = 0
due since (clock ∷ rest) =
    let later = due clock.instant rest in
    let same = due since rest in
    if leb in_flight_timeout (clock.instant - since) then suc later else same

-- Enough ticks, when the first of them does or does not find the request overdue.
abbrev IsEnough : Core → InFlight → Clock → List Clock → Bool → Type 0
IsEnough c f clock rest late =
    suc (length c.pending_queue)
    ≤ (if late then suc (due clock.instant rest) else due f.last_activity rest)

abbrev pub IsClosed : Core → Core → Type 0
IsClosed c d = (d.in_flight ≡ none) × (d.pending_queue ≡ []) × ((j : ℕ) → outbox j d ≡ settled j c)

idle-still : (clocks : List Clock) (c : Core) → c.in_flight ≡ none → ticks clocks c ≡ c
idle-still [] c h = refl
idle-still (clock ∷ rest) c h =
    ap (ticks rest) (early-still clock c (rw h refl)) ∙ idle-still rest c h

idle-IsClosed : (c : Core) → c.in_flight ≡ none → c.pending_queue ≡ [] → IsClosed c c
idle-IsClosed c h q = (h, q, λ j. rw (h, q) (sym (errors-zero (outbox j c))))

IsClosed-before :
    (c d e : Core) → ((j : ℕ) → settled j d ≡ settled j c) → IsClosed d e → IsClosed c e
IsClosed-before c d e s closed = (closed.0, closed.1, λ j. closed.2 j ∙ s j)

-- The radio stays silent with a request in flight and others in the queue: after a tick that finds each of
-- them overdue, 5 seconds or more after the one that sent it, no request is open, and each connected client
-- has got one ERROR for each of its requests and nothing else.
pub ticks-IsClosed :
    (clocks : List Clock) (c : Core) (f : InFlight)
    → c.in_flight ≡ some f
    → suc (length c.pending_queue) ≤ due f.last_activity clocks
    → IsClosed c (ticks clocks c)
ticks-IsClosed [] c f h enough = absurd (omega arith)
ticks-IsClosed (clock ∷ rest) c f h enough =
    elim (Bool-cases (leb in_flight_timeout (clock.instant - f.last_activity))) [
      | inl late ↦
          let d = check_in_flight_timeout clock c in
          let t = overdue-IsTicked clock c (rw h late) in
          IsClosed-before c d (ticks rest d) t.0 (elim t.2 [
            | inl (i, q) ↦ subst (IsClosed d) (sym (idle-still rest d i)) (idle-IsClosed d i q)
            | inr (g, i, l) ↦ ticks-IsClosed rest d g i (
                rw l (
                  omega (
                    arith,
                    subst (IsEnough c f clock rest) late enough,
                    subst (λ s. open_in s d.pending_queue ≤ length c.pending_queue) i t.1,
                  )))
          ])
      | inr early ↦
          subst (λ x. IsClosed c (ticks rest x)) (sym (early-still clock c (rw h early)))
            (ticks-IsClosed rest c f h (subst (IsEnough c f clock rest) early enough))
    ]
