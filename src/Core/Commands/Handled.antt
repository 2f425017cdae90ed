-- ===== src/Core/Commands/Handled.antt =====
-- What becomes of a client's command (src/core.rs, `handle_client_command`).
use coresplitter.Base.{
  subst, ℕ, ◌≤◌, ◌≡◌, ◌≢◌, refl, Bool, true, false, ◌⊎◌, inl, inr, Option, none, some, List, [],
  ◌∷◌, ◌++◌, ◌==◌, arith, if◌then◌else◌, Bool-cases, length,
}
use coresplitter.Base.Bytes.{Bytes, byte_at}
use coresplitter.Protocol.Decode.{◌>>=◌}
use coresplitter.Protocol.Decode.Chain.{bind-some, some-inner}
use coresplitter.Core.Log.{log_event, to_radio}
use coresplitter.Core.State.{Core, ClientCommand, Clock}
use coresplitter.Core.Clients.{client_is_alive, is_some}
use coresplitter.Core.Clients.Laws.{outbox}
use coresplitter.Core.Sessions.{notify_missed}
use coresplitter.Core.Cached.{try_serve_from_cache}
use coresplitter.Core.Queue.{enqueue_or_dispatch}
use coresplitter.Core.Queue.Frozen.{IsFrozen, IsFrozen-trans}
use coresplitter.Core.Reply.Still.{notify_missed-IsFrozen}
use coresplitter.Core.Commands.{
  note_session, note_version, replay_first, forwarded, or_forward, or_serve, accept_command,
  handle_payload, handle_client_command,
}
use coresplitter.Core.Commands.Forward.{
  note_session-IsFrozen, note_version-IsFrozen, replay_first-IsFrozen,
  try_serve_from_cache-IsFrozen,
}
use coresplitter.Core.Commands.Answered.{
  Gains, Gains-trans, Gains-after, flag, notify_missed-Gains, note_session-Gains,
  note_version-Gains, replay_first-IsServed, try_serve_from_cache-IsServed,
}

-- What the radio is to get: a DEVICE_QUERY with version 3, else what the client sent.
abbrev pub IsPassed : Bytes → Bytes → Type 0
IsPassed payload passed =
    (byte_at payload 0 ≡ 0x16 → passed ≡ 0x16 ∷ 3 ∷ [])
    × (byte_at payload 0 ≢ 0x16 → passed ≡ payload)

-- It is passed on, after steps that touch neither the radio nor the requests.
abbrev pub IsPassedOn : Clock → ClientCommand → Core → Core → Type 0
IsPassedOn clock cmd c d =
    (e : Core) × (passed : Bytes) × IsFrozen c e
    × IsPassed cmd.payload passed
    × (d ≡ enqueue_or_dispatch clock (some cmd.client_id) passed e)

-- Its client, which is connected, got a frame or more, and nothing is passed on.
abbrev pub IsAnswered : ℕ → Core → Core → Type 0
IsAnswered id c d =
    (log more : List Bytes) × IsFrozen c d
    × (outbox id c ≡ some log)
    × (outbox id d ≡ some (log ++ more))
    × (1 ≤ length more)

-- It is empty, or its client is gone.
abbrev pub IsVoid : ClientCommand → Core → Type 0
IsVoid cmd c = (cmd.payload ≡ []) ⊎ (client_is_alive c cmd.client_id ≡ false)

forwarded-IsPassed : (payload : Bytes) → IsPassed payload (forwarded (byte_at payload 0) payload)
unfolding forwarded
forwarded-IsPassed payload = (
  λ e. let same : (byte_at payload 0 == 0x16) ≡ true = ground (arith, e) in rw same refl,
  λ n. let other : (byte_at payload 0 == 0x16) ≡ false = ground (arith, n) in rw other refl,
)

module _ (clock : Clock) (cmd : ClientCommand) where
  -- The same for a client that may be gone.
  abbrev IsDone : Core → Core → Type 0
  IsDone c d = (IsFrozen c d × Gains cmd.client_id 1 c d) ⊎ IsPassedOn clock cmd c d

  abbrev code : ℕ
  code = byte_at cmd.payload 0

  or_forward-IsDone :
      (c : Core) (r : Bool × Core)
      → IsFrozen c r.1
      → Gains cmd.client_id (flag r.0) c r.1
      → IsDone c (or_forward clock code cmd r)
  or_forward-IsDone c (true, d) h k = elim (Bool-cases (code == 0x01)) [
    | inl e ↦ rw e (
        inl (
          IsFrozen-trans c d (notify_missed cmd.client_id d) h
              (notify_missed-IsFrozen cmd.client_id d),
          Gains-trans cmd.client_id 1 0 c d (notify_missed cmd.client_id d) k
              (notify_missed-Gains cmd.client_id d),
        ))
    | inr e ↦ rw e (inl (h, k))
  ]
  or_forward-IsDone c (false, d) h k =
      inr (d, forwarded code cmd.payload, h, forwarded-IsPassed cmd.payload, refl)

  or_serve-IsDone :
      (c : Core) (r : Bool × Core)
      → IsFrozen c r.1
      → Gains cmd.client_id (flag r.0) c r.1
      → IsDone c (or_serve clock code cmd r)
  or_serve-IsDone c (true, d) h k = inl (h, k)
  or_serve-IsDone c (false, d) h k =
      let r = try_serve_from_cache code cmd d in
      or_forward-IsDone c r (IsFrozen-trans c d r.1 h (try_serve_from_cache-IsFrozen code cmd d)) (
        Gains-after cmd.client_id (flag r.0) c d r.1 k
          (try_serve_from_cache-IsServed cmd.client_id code cmd d refl))

  accept_command-IsDone : (c : Core) → IsDone c (accept_command clock code cmd c)
  unfolding accept_command
  accept_command-IsDone c =
      let d = note_session clock code cmd c in
      let e = note_version code cmd d in
      let r = replay_first clock code cmd e in
      or_serve-IsDone c r
        (IsFrozen-trans c e r.1
          (IsFrozen-trans c d e (note_session-IsFrozen clock code cmd c)
            (note_version-IsFrozen code cmd d))
          (replay_first-IsFrozen clock code cmd e))
        (Gains-after cmd.client_id (flag r.0) c e r.1
          (Gains-after cmd.client_id 0 c d e (note_session-Gains cmd.client_id clock code cmd c)
            (note_version-Gains cmd.client_id code cmd d))
          (replay_first-IsServed cmd.client_id clock code cmd e refl))

  -- How a command may end.
  abbrev pub IsHandled : Core → Core → Type 0
  IsHandled c d = ((d ≡ c) × IsVoid cmd c) ⊎ IsAnswered cmd.client_id c d ⊎ IsPassedOn clock cmd c d

  connected : (o : Option (List Bytes)) → is_some o ≡ true → (log : List Bytes) × (o ≡ some log)
  connected none h = cc
  connected (some log) h = (log, refl)

  done-IsHandled :
      (c d : Core) → client_is_alive c cmd.client_id ≡ true → IsDone c d → IsHandled c d
  unfolding client_is_alive
  done-IsHandled c d h (inl (frozen, gains)) =
      let (log, there) = connected (outbox cmd.client_id c) h in
      let (more, got, some_more) = gains log there in
      inr (inl (log, more, frozen, there, got, some_more))
  done-IsHandled c d h (inr passed) = inr (inr passed)

  -- A command that does not panic changes nothing where it is empty or its client is gone. Else its client is sent a
  -- frame or more while the requests and the link stay as they are; or, after steps that leave those alone too, it is
  -- passed on as the client sent it, but for a DEVICE_QUERY, which goes out with version 3.
  pub handle_client_command-IsHandled :
      (hex_encode : Bytes → Bytes) (c d : Core)
      → handle_client_command hex_encode clock cmd c ≡ some d
      → IsHandled c d
  unfolding handle_client_command
  handle_client_command-IsHandled hex_encode c d h = go cmd.payload refl h
    where
      accepted :
          (first : ℕ) (rest : Bytes)
          → cmd.payload ≡ first ∷ rest
          → (alive : Bool) → client_is_alive c cmd.client_id ≡ alive
          → (if alive
              then (log_event hex_encode c.config.event_log_level to_radio first (first ∷ rest)
                  >>= λ event. some (accept_command clock first cmd c))
              else some c)
            ≡ some d
          → IsHandled c d
      accepted first rest e true there k =
          let (event, logged, eq) =
            bind-some (log_event hex_encode c.config.event_log_level to_radio first (first ∷ rest))
              (λ event. some (accept_command clock first cmd c)) k in
          done-IsHandled c d there (
            subst (IsDone c) (some-inner eq) (
              subst (λ p. IsDone c (accept_command clock (byte_at p 0) cmd c)) e
                (accept_command-IsDone c)))
      accepted first rest e false gone k = subst (IsHandled c) (some-inner k) (inl (refl, inr gone))

      go :
          (payload : Bytes)
          → cmd.payload ≡ payload
          → handle_payload hex_encode clock cmd payload c ≡ some d
          → IsHandled c d
      go [] e k = subst (IsHandled c) (some-inner k) (inl (refl, inl e))
      go (first ∷ rest) e k = accepted first rest e (client_is_alive c cmd.client_id) refl k
