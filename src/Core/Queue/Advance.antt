-- ===== src/Core/Queue/Advance.antt =====
-- `advance_queue` (src/core.rs): the next request goes out, and no request waits for an idle radio.
use coresplitter.Base.{◌≡◌, refl, ap, ◌∙◌, ◌⊎◌, inl, inr, none, List, [], ◌∷◌, ◌++◌, Bool-cases}
use coresplitter.Core.State.{Core, InFlight, Queued, Clock}
use coresplitter.Core.Queue.{advance, advance_queue, dispatch_to_radio, is_orphan}
use coresplitter.Core.Queue.Frozen.{IsSent, sent, dispatch_to_radio-cases, sent_on}

-- While no request is in flight, none waits.
abbrev pub IsConserving : Core → Type 0
IsConserving c = c.in_flight ≡ none → c.pending_queue ≡ []

-- Either nothing went to the radio and it is idle, or the one request that did is in flight.
abbrev pub IsAdvanced : Core → Core → Type 0
IsAdvanced c d =
    IsConserving d × (((sent d ≡ sent c) × (d.in_flight ≡ none)) ⊎ ((f : InFlight) × IsSent c d f))

abbrev left : List Queued → Core → Core
left queue c = record c { pending_queue = queue }

module _ (clock : Clock) where
  pub advance-IsAdvanced :
      (queue : List Queued) (c : Core) → c.in_flight ≡ none → IsAdvanced c (advance clock queue c)
  unfolding advance
  advance-IsAdvanced [] c h = (λ e. refl, inl (refl, h))
  advance-IsAdvanced (next ∷ queue) c h = elim (Bool-cases (is_orphan c next.client_id)) [
    | inl gone ↦ rw (gone, advance) (advance-IsAdvanced queue c h)
    | inr there ↦
        let c' = left queue c in
        let d = dispatch_to_radio clock next.client_id next.payload c' in
        rw (there, advance)
          (elim (dispatch_to_radio-cases clock next.client_id next.payload c') [
            | inl frozen ↦
                rw (frozen.0.0, h)
                  (let rest = advance-IsAdvanced queue d (frozen.0.0 ∙ h) in
                    (
                      rest.0,
                      elim rest.1 [
                        | inl (s, e) ↦ inl (s ∙ ap sent_on frozen.0.1, e)
                        | inr (f, (e, s)) ↦
                            inr (f, (e, s ∙ ap (λ tx. sent_on tx ++ f.payload ∷ []) frozen.0.1))
                      ],
                    ))
            | inr (f, s, p, i, q) ↦ rw (s.0) (λ e. cc, inr (f, s))
          ])
  ]

  pub advance_queue-IsAdvanced :
      (c : Core) → c.in_flight ≡ none → IsAdvanced c (advance_queue clock c)
  unfolding advance_queue
  advance_queue-IsAdvanced c h = advance-IsAdvanced c.pending_queue c h
