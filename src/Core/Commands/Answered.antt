-- ===== src/Core/Commands/Answered.antt =====
-- What the client gets of what `handle_client_command` (src/core.rs) does without the radio.
use coresplitter.Base.{
  ℕ, ◌+◌, ◌≤◌, ◌≡◌, refl, sym, ap, ◌∙◌, Bool, true, false, Option, none, some, List, [], ◌∷◌, ◌++◌,
  arith, inl, inr, Bool-cases, ◌==◌, if◌then◌else◌, length, length-append, append_assoc, append-nil,
  get_elem?,
}
use coresplitter.Base.Bytes.{Bytes}
use coresplitter.Base.Maps.{apply_to, lookup}
use coresplitter.Node.Db.{Result, ok, err}
use coresplitter.Node.Db.Tables.{CachedContact, CachedChannel}
use coresplitter.Node.State.{client_cursor, get_contacts, get_channels, message_frame}
use coresplitter.Core.State.{Core, ClientCommand, Session, Clock, with_db}
use coresplitter.Core.Clients.{send_to_client, push}
use coresplitter.Core.Clients.Laws.{outbox, frame_to, outbox-send_to_client}
use coresplitter.Core.Sessions.{
  register_session, missed, missed_since, first_cursor, unwrap_or_default, app_name_of,
  notify_missed, is_empty, pending_of, replay, replay_found, replay_session, replay_next_missed,
  set_pending, catch_up,
}
use coresplitter.Core.Sessions.Laws.{catch_up-same}
use coresplitter.Core.Cached.{
  channel_frame, respond_contacts, serve_blob, serve_contacts, serve_channel, serve_found,
  requested_channel, since_of, try_serve_from_cache,
}
use coresplitter.Core.Cached.Stream.{cached_reply, also, same_id, respond_contacts-IsReply}
use coresplitter.Core.Commands.{note_session, insert_version, note_version, replay_first}

missed_since-channels :
    (clock : Clock) (port : ℕ) (app : Bytes) (r : Result (Option ℕ) × Core)
    → (missed_since clock port app r).1.client_channels ≡ r.1.client_channels
missed_since-channels clock port app (ok none, c) = refl
missed_since-channels clock port app (ok (some cursor), c) = refl
missed_since-channels clock port app (err, c) = refl

first_cursor-channels :
    (l : List ℕ) (c : Core) → (first_cursor l c).1.client_channels ≡ c.client_channels
first_cursor-channels [] c = refl
first_cursor-channels (id ∷ l) c = refl

register_session-channels :
    (clock : Clock) (cmd : ClientCommand) (c : Core)
    → (register_session clock cmd c).client_channels ≡ c.client_channels
unfolding register_session missed
register_session-channels clock cmd c =
    let app = app_name_of cmd.payload in
    let (r, d) = missed clock cmd.local_port app c in
    first_cursor-channels (unwrap_or_default [] r) d
    ∙ missed_since-channels clock cmd.local_port app (with_db (client_cursor cmd.local_port app) c)

abbrev pub flag : Bool → ℕ
flag true = 1
flag false = 0

module _ (id : ℕ) where
  -- Where the client is connected, it was sent `n` frames or more.
  abbrev pub Gains : ℕ → Core → Core → Type 0
  Gains n c d =
      (log : List Bytes)
      → outbox id c ≡ some log
      → (more : List Bytes) × (outbox id d ≡ some (log ++ more)) × (n ≤ length more)

  pub Gains-same : (c d : Core) → d.client_channels ≡ c.client_channels → Gains 0 c d
  Gains-same c d h log e = ([], ap (lookup id) h ∙ e ∙ ap some (sym (append-nil log)), omega arith)

  pub Gains-trans : (m n : ℕ) (c d e : Core) → Gains m c d → Gains n d e → Gains (m + n) c e
  Gains-trans m n c d e h k log there =
      let (f, p, more) = h log there in
      let (g, q, also_more) = k (log ++ f) p in
      (
        f ++ g,
        q ∙ ap some (append_assoc log f g),
        omega (arith, more, also_more, length-append f g),
      )

  pub Gains-after : (n : ℕ) (c d e : Core) → Gains 0 c d → Gains n d e → Gains n c e
  Gains-after n c d e h k log there =
      let (more, p, enough) = Gains-trans 0 n c d e h k log there in (more, p, omega arith)

  Gains-then :
      (n : ℕ) (c d e : Core) → Gains n c d → e.client_channels ≡ d.client_channels → Gains n c e
  Gains-then n c d e h k log there =
      let (f, p, more) = h log there in (f, ap (lookup id) k ∙ p, more)

  Gains-less : (c d : Core) → Gains 1 c d → Gains 0 c d
  Gains-less c d h log there = let (f, p, more) = h log there in (f, p, omega arith)

  send_to_client-Gains : (frame : Bytes) (c : Core) → Gains 1 c (send_to_client id frame c)
  send_to_client-Gains frame c log there = (
    frame_to c id frame ∷ [],
    outbox-send_to_client id id frame c
        ∙ ap (λ b. if b then apply_to (push (frame_to c id frame)) (outbox id c) else outbox id c)
            (same_id id)
        ∙ ap (apply_to (push (frame_to c id frame))) there,
    omega arith,
  )

  pub notify_missed-Gains : (c : Core) → Gains 0 c (notify_missed id c)
  unfolding notify_missed
  notify_missed-Gains c = elim (Bool-cases (is_empty (pending_of (lookup id c.sessions)))) [
    | inl e ↦ rw e (Gains-same c c refl)
    | inr e ↦
        rw e (Gains-less c (send_to_client id (0x83 ∷ []) c) (send_to_client-Gains (0x83 ∷ []) c))
  ]

  -- What is served is sent.
  abbrev pub IsServed : Core → Bool × Core → Type 0
  IsServed c (served, d) = Gains (flag served) c d

  serve_blob-IsServed : (blob : Option Bytes) (c : Core) → IsServed c (serve_blob id blob c)
  serve_blob-IsServed none c = Gains-same c c refl
  serve_blob-IsServed (some blob) c = send_to_client-Gains blob c

  respond_contacts-Gains :
      (l : List CachedContact) (since : Option ℕ) (c : Core)
      → Gains 1 c (respond_contacts id l since c)
  respond_contacts-Gains l since c log there = (
    cached_reply l since,
    (respond_contacts-IsReply id l since [] c).0 ∙ ap (also (cached_reply l since)) there,
    omega arith,
  )

  serve_contacts-IsServed :
      (since : Option ℕ) (r : Result (List CachedContact) × Core)
      → IsServed r.1 (serve_contacts id since r)
  serve_contacts-IsServed since (err, c) = Gains-same c c refl
  serve_contacts-IsServed since (ok [], c) = Gains-same c c refl
  serve_contacts-IsServed since (ok (contact ∷ l), c) = respond_contacts-Gains (contact ∷ l) since c

  serve_found-IsServed :
      (channel : Option CachedChannel) (c : Core) → IsServed c (serve_found id channel c)
  serve_found-IsServed none c = Gains-same c c refl
  serve_found-IsServed (some channel) c = send_to_client-Gains (channel_frame channel) c

  serve_channel-IsServed :
      (idx : Option ℕ) (r : Result (List CachedChannel) × Core)
      → IsServed r.1 (serve_channel id idx r)
  serve_channel-IsServed idx (err, c) = Gains-same c c refl
  serve_channel-IsServed idx (ok channels, c) =
      serve_found-IsServed (requested_channel idx channels) c

  if-IsServed :
      (b : Bool) (c : Core) (x y : Bool × Core)
      → IsServed c x
      → IsServed c y
      → IsServed c (if b then x else y)
  if-IsServed true c x y h k = h
  if-IsServed false c x y h k = k

  replay_found-IsServed :
      (clock : Clock) (port : ℕ) (app : Bytes) (m : ℕ) (l : List ℕ)
      (rest : Core → Bool × (List ℕ × Core)) (r : Result (Option Bytes) × Core)
      → ((c : Core) → Gains (flag (rest c).0) c (rest c).1.1)
      → let (served, (left, d)) = replay_found clock id port app m l rest r in
        Gains (flag served) r.1 d
  replay_found-IsServed clock port app m l rest (ok none, c) h = h c
  replay_found-IsServed clock port app m l rest (ok (some frame), c) h =
      send_to_client-Gains frame c
  replay_found-IsServed clock port app m l rest (err, c) h = h c

  replay-IsServed :
      (clock : Clock) (port : ℕ) (app : Bytes) (l : List ℕ) (c : Core)
      → let (served, (left, d)) = replay clock id port app l c in Gains (flag served) c d
  unfolding replay
  replay-IsServed clock port app [] c = Gains-same c c refl
  replay-IsServed clock port app (m ∷ l) c =
      replay_found-IsServed clock port app m l (replay clock id port app l)
        (with_db (message_frame m) c) (replay-IsServed clock port app l)

  replay_session-IsServed :
      (clock : Clock) (c : Core) (s : Option Session) → IsServed c (replay_session clock id c s)
  replay_session-IsServed clock c none = Gains-same c c refl
  replay_session-IsServed clock c (some s) =
      let (served, (l, d)) = replay clock id s.port s.app_name s.pending c in
      let e = catch_up clock s.port s.app_name l (set_pending id l d) in
      Gains-then (flag served) c d e (replay-IsServed clock s.port s.app_name s.pending c)
        (catch_up-same clock id id s.port s.app_name l (set_pending id l d)).0

  pub replay_first-IsServed :
      (clock : Clock) (code : ℕ) (cmd : ClientCommand) (c : Core)
      → cmd.client_id ≡ id
      → IsServed c (replay_first clock code cmd c)
  unfolding replay_next_missed
  replay_first-IsServed clock code cmd c own = elim (Bool-cases (code == 0x0A)) [
    | inl e ↦ rw (e, own) (replay_session-IsServed clock c (lookup id c.sessions))
    | inr e ↦ rw e (Gains-same c c refl)
  ]

  pub try_serve_from_cache-IsServed :
      (code : ℕ) (cmd : ClientCommand) (c : Core)
      → cmd.client_id ≡ id
      → IsServed c (try_serve_from_cache code cmd c)
  unfolding try_serve_from_cache
  try_serve_from_cache-IsServed code cmd c own = rw own (
      if-IsServed (code == 0x01) c _ _ (serve_blob-IsServed c.self_info_raw c) (
        if-IsServed (code == 0x16) c _ _ (serve_blob-IsServed c.device_info_raw c) (
          if-IsServed (code == 0x14) c _ _ (serve_blob-IsServed c.battery_info_raw c) (
            if-IsServed (code == 0x04) c _ _
              (serve_contacts-IsServed (since_of cmd.payload) (with_db get_contacts c))
              (if-IsServed (code == 0x1F) c _ _
                (serve_channel-IsServed (get_elem? cmd.payload 1) (with_db get_channels c))
                (Gains-same c c refl))))))

pub note_session-Gains :
    (id : ℕ) (clock : Clock) (code : ℕ) (cmd : ClientCommand) (c : Core)
    → Gains id 0 c (note_session clock code cmd c)
note_session-Gains id clock code cmd c = elim (Bool-cases (code == 0x01)) [
  | inl e ↦
      rw e (Gains-same id c (register_session clock cmd c) (register_session-channels clock cmd c))
  | inr e ↦ rw e (Gains-same id c c refl)
]

insert_version-channels :
    (id : ℕ) (v : Option ℕ) (c : Core) → (insert_version id v c).client_channels ≡ c.client_channels
insert_version-channels id none c = refl
insert_version-channels id (some v) c = refl

pub note_version-Gains :
    (id code : ℕ) (cmd : ClientCommand) (c : Core) → Gains id 0 c (note_version code cmd c)
note_version-Gains id code cmd c = elim (Bool-cases (code == 0x16)) [
  | inl e ↦ rw e (
      Gains-same id c (insert_version cmd.client_id (get_elem? cmd.payload 1) c)
        (insert_version-channels cmd.client_id (get_elem? cmd.payload 1) c))
  | inr e ↦ rw e (Gains-same id c c refl)
]
