-- ===== src/Transport/Frontend/Clients.antt =====
-- Which clients the frontend of src/frontend/tcp.rs has, and on what it listens.
use Prim.Native.String.{String}
use coresplitter.Base.{
  ℕ, ◌+◌, ◌%◌, ◌^◌, ◌≤◌, ◌<◌, ◌≡◌, ◌≢◌, ◌⊎◌, inl, inr, refl, sym, ap, ◌∙◌, subst, Bool, true, false,
  none, some, List, [], ◌∷◌, arith, ◌==◌, if◌then◌else◌, Bool-cases, length,
}
use coresplitter.Base.Bytes.{All}
use coresplitter.Base.Maps.{remove}
use coresplitter.Transport.Frontend.{
  Phase, closed, listening, ended, Frontend, Event, radio, stop, saw_up, saw_down, saw_stop,
  accepted, accept_failed, finished, dropped, bind_all, add_listener, listen_on, handle_client,
  close_client, when_closed, when_listening, step, run,
}

abbrev pub ids : List (ℕ × ℕ) → List ℕ
ids [] = []
ids ((id, port) ∷ clients) = id ∷ ids clients

abbrev IsOnly : List ℕ → Type 0
IsOnly [] = Unit {0}
IsOnly (id ∷ l) = All (λ other. other ≢ id) l × IsOnly l

-- It listens on all its addresses if on any.
abbrev pub IsWhole : List String → Phase → Type 0
IsWhole addrs closed = Unit
IsWhole addrs (listening listeners) = listeners ≡ addrs
IsWhole addrs ended = Unit

-- No two clients have the same id, and the ids to come are new.
pub record IsSound (f : Frontend) : Type 0 where
  pub whole : IsWhole f.bind_addrs f.phase
  pub below : All (λ id. id < f.next_client_id) (ids f.clients)
  pub only : IsOnly (ids f.clients)

module _ (k : ℕ) where
  All-remove :
      (P : ℕ → Type 0) (clients : List (ℕ × ℕ))
      → All P (ids clients)
      → All P (ids (remove k clients))
  All-remove P [] h = tt
  All-remove P ((id, port) ∷ clients) h = elim (Bool-cases (id == k)) [
    | inl e ↦ rw e (All-remove P clients h.1)
    | inr e ↦ rw e (h.0, All-remove P clients h.1)
  ]

  IsOnly-remove : (clients : List (ℕ × ℕ)) → IsOnly (ids clients) → IsOnly (ids (remove k clients))
  IsOnly-remove [] h = tt
  IsOnly-remove ((id, port) ∷ clients) h = elim (Bool-cases (id == k)) [
    | inl e ↦ rw e (IsOnly-remove clients h.1)
    | inr e ↦ rw e (All-remove (λ other. other ≢ id) clients h.0, IsOnly-remove clients h.1)
  ]

  All-removed : (clients : List (ℕ × ℕ)) → All (λ id. id ≢ k) (ids (remove k clients))
  All-removed [] = tt
  All-removed ((id, port) ∷ clients) = elim (Bool-cases (id == k)) [
    | inl e ↦ rw e (All-removed clients)
    | inr e ↦ rw e ((λ same. ground (arith, e, same)), All-removed clients)
  ]

All-map : (P Q : ℕ → Type 0) (l : List ℕ) → ((id : ℕ) → P id → Q id) → All P l → All Q l
All-map P Q [] k h = tt
All-map P Q (id ∷ l) k h = (k id h.0, All-map P Q l k h.1)

-- All addresses or none.
bind_all-cases :
    (binds : String → Bool) (addrs : List String)
    → (bind_all binds addrs ≡ none) ⊎ (bind_all binds addrs ≡ some addrs)
unfolding bind_all
bind_all-cases binds [] = inr refl
bind_all-cases binds (addr ∷ addrs) = elim (Bool-cases (binds addr)) [
  | inl e ↦ rw e (elim (bind_all-cases binds addrs) [
    | inl none_bound ↦ inl (ap (add_listener addr) none_bound)
    | inr all_bound ↦ inr (ap (add_listener addr) all_bound)
  ])
  | inr e ↦ rw e (inl refl)
]

bind_all-IsWhole :
    (binds : String → Bool) (addrs : List String) → IsWhole addrs (listen_on (bind_all binds addrs))
bind_all-IsWhole binds addrs = elim (bind_all-cases binds addrs) [
  | inl e ↦ subst (λ o. IsWhole addrs (listen_on o)) (sym e) tt
  | inr e ↦ subst (λ o. IsWhole addrs (listen_on o)) (sym e) refl
]

with_phase-IsSound :
    (phase : Phase) (f : Frontend)
    → IsWhole f.bind_addrs phase
    → IsSound f
    → IsSound (record f { phase = phase })
with_phase-IsSound phase f h s = record { whole = h; below = s.below; only = s.only }

if-IsSound :
    (test : Bool) (f g : Frontend) → IsSound f → IsSound g → IsSound (if test then f else g)
if-IsSound true f g h k = h
if-IsSound false f g h k = k

when_closed-IsSound :
    (phase : Phase) (f g : Frontend) → IsSound f → IsSound g → IsSound (when_closed phase f g)
when_closed-IsSound closed f g h k = k
when_closed-IsSound (listening l) f g h k = h
when_closed-IsSound ended f g h k = h

when_listening-IsSound :
    (phase : Phase) (f g : Frontend) → IsSound f → IsSound g → IsSound (when_listening phase f g)
when_listening-IsSound closed f g h k = h
when_listening-IsSound (listening l) f g h k = k
when_listening-IsSound ended f g h k = h

close_client-IsSound : (id : ℕ) (f : Frontend) → IsSound f → IsSound (close_client id f)
close_client-IsSound id f s = record {
  whole = s.whole;
  below = All-remove id (λ x. x < f.next_client_id) f.clients s.below;
  only = IsOnly-remove id f.clients s.only;
}

handle_client-IsSound :
    (port : ℕ) (f : Frontend)
    → f.next_client_id + 1 < 2 ^ 64
    → IsSound f
    → IsSound (handle_client port f)
unfolding handle_client
handle_client-IsSound port f h s =
    let id = f.next_client_id in
    let next : (id + 1) % 2 ^ 64 ≡ id + 1 = omega arith in
    record {
      whole = s.whole;
      below = (
        omega arith,
        All-map (λ x. x < id) (λ x. x < (id + 1) % 2 ^ 64) (ids (remove id f.clients))
            (λ x k. omega arith) (All-remove id (λ x. x < id) f.clients s.below),
      );
      only = (All-removed id f.clients, IsOnly-remove id f.clients s.only);
    }

step-IsSound :
    (event : Event) (f : Frontend)
    → f.next_client_id + 1 < 2 ^ 64
    → IsSound f
    → IsSound (step event f)
unfolding step
step-IsSound (radio up) f h s = record { whole = s.whole; below = s.below; only = s.only }
step-IsSound stop f h s = record { whole = s.whole; below = s.below; only = s.only }
step-IsSound (saw_up binds) f h s =
    if-IsSound f.radio_up _ f
      (when_closed-IsSound f.phase f _ s (
        with_phase-IsSound (listen_on (bind_all binds f.bind_addrs)) f
          (bind_all-IsWhole binds f.bind_addrs) s))
      s
step-IsSound saw_down f h s =
    if-IsSound f.radio_up f _ s
      (when_listening-IsSound f.phase f _ s (with_phase-IsSound closed f tt s))
step-IsSound saw_stop f h s = if-IsSound f.stopping _ f (with_phase-IsSound ended f tt s) s
step-IsSound (accepted port) f h s =
    when_listening-IsSound f.phase f _ s (handle_client-IsSound port f h s)
step-IsSound accept_failed f h s = s
step-IsSound (finished id) f h s = close_client-IsSound id f s
step-IsSound (dropped id) f h s = if-IsSound f.radio_up f _ s (close_client-IsSound id f s)

-- Ids are only given out, one at a turn.
abbrev Grows : Frontend → Frontend → Type 0
Grows f g = (f.next_client_id ≤ g.next_client_id) × (g.next_client_id ≤ f.next_client_id + 1)

if-Grows :
    (test : Bool) (f g h : Frontend) → Grows f g → Grows f h → Grows f (if test then g else h)
if-Grows true f g h k l = k
if-Grows false f g h k l = l

step-Grows : (event : Event) (f : Frontend) → f.next_client_id + 1 < 2 ^ 64 → Grows f (step event f)
unfolding step handle_client
step-Grows (radio up) f h = (omega arith, omega arith)
step-Grows stop f h = (omega arith, omega arith)
step-Grows (saw_up binds) f h = if-Grows f.radio_up f _ f (go f.phase) (omega arith, omega arith)
  where
    go :
        (phase : Phase)
        → Grows f
            (when_closed phase f (record f { phase = listen_on (bind_all binds f.bind_addrs) }))
    go closed = (omega arith, omega arith)
    go (listening l) = (omega arith, omega arith)
    go ended = (omega arith, omega arith)
step-Grows saw_down f h = if-Grows f.radio_up f f _ (omega arith, omega arith) (go f.phase)
  where
    go : (phase : Phase) → Grows f (when_listening phase f (record f { phase = closed }))
    go closed = (omega arith, omega arith)
    go (listening l) = (omega arith, omega arith)
    go ended = (omega arith, omega arith)
step-Grows saw_stop f h =
    if-Grows f.stopping f _ f (omega arith, omega arith) (omega arith, omega arith)
step-Grows (accepted port) f h = go f.phase
  where
    go : (phase : Phase) → Grows f (when_listening phase f (handle_client port f))
    go closed = (omega arith, omega arith)
    go (listening l) = (omega arith, omega arith)
    go ended = (omega arith, omega arith)
step-Grows accept_failed f h = (omega arith, omega arith)
step-Grows (finished id) f h = (omega arith, omega arith)
step-Grows (dropped id) f h =
    if-Grows f.radio_up f f _ (omega arith, omega arith) (omega arith, omega arith)

-- Whatever turns the tasks take, as long as the counter of ids does not run over: the frontend listens on all its
-- addresses or on none, no two clients have the same id, and an id is above all that were given before it.
pub run-IsSound :
    (events : List Event) (f : Frontend)
    → f.next_client_id + length events < 2 ^ 64
    → IsSound f
    → IsSound (run events f) × (f.next_client_id ≤ (run events f).next_client_id)
unfolding run
run-IsSound [] f h s = (s, omega arith)
run-IsSound (event ∷ events) f h s =
    let small : f.next_client_id + 1 < 2 ^ 64 = omega arith in
    let grown = step-Grows event f small in
    let rest =
      run-IsSound events (step event f) (omega (arith, grown.1)) (step-IsSound event f small s) in
    (rest.0, omega (arith, grown.0, rest.1))

-- The turns of all handlers.
abbrev pub drops : List ℕ → List Event
drops [] = []
drops (id ∷ l) = dropped id ∷ drops l

abbrev In : ℕ → List ℕ → Type 0
In id [] = ⊥
In id (x ∷ l) = (x ≡ id) ⊎ In id l

In-remove :
    (k id : ℕ) (clients : List (ℕ × ℕ))
    → In id (ids (remove k clients))
    → In id (ids clients) × (id ≢ k)
In-remove k id [] h = absurd h
In-remove k id ((x, port) ∷ clients) h = elim (Bool-cases (x == k)) [
  | inl e ↦ let (there, differs) = In-remove k id clients (rw e at h) in (inr there, differs)
  | inr e ↦ elim (rw e at h) [
    | inl same ↦ (inl same, λ k_is. ground (arith, e, same, k_is))
    | inr later ↦ let (there, differs) = In-remove k id clients later in (inr there, differs)
  ]
]

nobody : (clients : List (ℕ × ℕ)) → ((id : ℕ) → In id (ids clients) → ⊥) → clients ≡ []
nobody [] h = refl
nobody ((id, port) ∷ clients) h = absurd (h id (inl refl))

drops-closed :
    (turns : List ℕ) (f : Frontend)
    → f.radio_up ≡ false
    → ((id : ℕ) → In id (ids f.clients) → In id turns)
    → ((run (drops turns) f).clients ≡ []) × ((run (drops turns) f).phase ≡ f.phase)
unfolding run step
drops-closed [] f down h = (nobody f.clients h, refl)
drops-closed (turn ∷ turns) f down h =
    let next = close_client turn f in
    let rest = drops-closed turns next down λ id there.
      let (before, differs) = In-remove turn id f.clients there in
      elim (h id before) [ inl same ↦ absurd (differs (sym same)) | inr later ↦ later ] in
    subst (λ g. ((run (drops turns) g).clients ≡ []) × ((run (drops turns) g).phase ≡ f.phase))
      (ap (λ up. if up then f else next) (sym down)) rest

abbrev pub is_listening : Phase → Bool
is_listening closed = false
is_listening (listening l) = true
is_listening ended = false

saw_down-closed :
    (f : Frontend) (phase : Phase)
    → let g = when_listening phase f (record f { phase = closed }) in
      f.phase ≡ phase
      → (is_listening g.phase ≡ false) × (g.radio_up ≡ f.radio_up) × (g.clients ≡ f.clients)
saw_down-closed f closed e = (ap is_listening e, refl, refl)
saw_down-closed f (listening l) e = (refl, refl, refl)
saw_down-closed f ended e = (ap is_listening e, refl, refl)

-- When the radio is down, one turn of the frontend and one of each client's handler are enough: then nothing is
-- listened on and no client is left.
pub run-closed :
    (f : Frontend)
    → f.radio_up ≡ false
    → let g = run (saw_down ∷ drops (ids f.clients)) f in
      (is_listening g.phase ≡ false) × (g.clients ≡ [])
unfolding run step
run-closed f down =
    let g = when_listening f.phase f (record f { phase = closed }) in
    let (quiet, same_up, same_clients) = saw_down-closed f f.phase refl in
    let rest =
      drops-closed (ids f.clients) g (same_up ∙ down)
        λ id there. subst (λ l. In id (ids l)) same_clients there in
    subst
      (λ x.
        (is_listening (run (drops (ids f.clients)) x).phase ≡ false)
        × ((run (drops (ids f.clients)) x).clients ≡ []))
      (ap (λ up. if up then f else g) (sym down)) (ap is_listening rest.1 ∙ quiet, rest.0)
