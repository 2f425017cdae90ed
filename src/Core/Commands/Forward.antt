-- ===== src/Core/Commands/Forward.antt =====
-- What of a client's command reaches the radio (src/core.rs, `handle_client_command`).
use coresplitter.Base.{
  subst, ◌≡◌, ℕ, ◌≡◌, refl, Bool, true, false, ◌⊎◌, inl, inr, Option, none, some, List, [], ◌∷◌,
  ◌==◌, if◌then◌else◌, Bool-cases, get_elem?, max, length,
}
use coresplitter.Base.Bytes.{Bytes, byte_at, to_le_bytes}
use coresplitter.Base.Maps.{lookup}
use coresplitter.Node.Db.{Result, ok, err}
use coresplitter.Node.Db.Tables.{CachedContact, CachedChannel}
use coresplitter.Node.State.{get_contacts, get_channels}
use coresplitter.Protocol.Decode.{◌>>=◌}
use coresplitter.Protocol.Decode.Chain.{bind-some, some-inner}
use coresplitter.Core.Log.{log_event, to_radio}
use coresplitter.Core.State.{Core, ClientCommand, Clock, with_db}
use coresplitter.Core.Clients.{client_is_alive, send_to_client}
use coresplitter.Core.Queue.{enqueue_or_dispatch}
use coresplitter.Core.Queue.Frozen.{IsFrozen, IsFrozen-trans, send_to_client-IsFrozen}
use coresplitter.Core.Reply.Still.{notify_missed-IsFrozen}
use coresplitter.Core.Sessions.{replay_next_missed}
use coresplitter.Core.Cached.{
  contact_frame, channel_frame, send_contacts, respond_contacts, serve_blob, serve_contacts,
  serve_channel, serve_found, requested_channel, since_of, try_serve_from_cache, is_old, lastmod,
}
use coresplitter.Core.Commands.{
  note_session, insert_version, note_version, replay_first, forwarded, or_forward, or_serve,
  accept_command, handle_payload, handle_client_command,
}
use coresplitter.Core.Sessions.Frozen.{register_session-IsFrozen, replay_session-IsFrozen}

pub note_session-IsFrozen :
    (clock : Clock) (code : ℕ) (cmd : ClientCommand) (c : Core)
    → IsFrozen c (note_session clock code cmd c)
note_session-IsFrozen clock code cmd c = elim (Bool-cases (code == 0x01)) [
  | inl e ↦ rw e (register_session-IsFrozen clock cmd c)
  | inr e ↦ rw e ((refl, refl), refl)
]

insert_version-IsFrozen : (id : ℕ) (v : Option ℕ) (c : Core) → IsFrozen c (insert_version id v c)
insert_version-IsFrozen id none c = ((refl, refl), refl)
insert_version-IsFrozen id (some v) c = ((refl, refl), refl)

pub note_version-IsFrozen :
    (code : ℕ) (cmd : ClientCommand) (c : Core) → IsFrozen c (note_version code cmd c)
note_version-IsFrozen code cmd c = elim (Bool-cases (code == 0x16)) [
  | inl e ↦ rw e (insert_version-IsFrozen cmd.client_id (get_elem? cmd.payload 1) c)
  | inr e ↦ rw e ((refl, refl), refl)
]

pub replay_first-IsFrozen :
    (clock : Clock) (code : ℕ) (cmd : ClientCommand) (c : Core)
    → IsFrozen c (replay_first clock code cmd c).1
unfolding replay_next_missed
replay_first-IsFrozen clock code cmd c = elim (Bool-cases (code == 0x0A)) [
  | inl e ↦ rw e (replay_session-IsFrozen clock cmd.client_id c (lookup cmd.client_id c.sessions))
  | inr e ↦ rw e ((refl, refl), refl)
]

module _ (id : ℕ) where
  send_contacts-IsFrozen :
      (since : Option ℕ) (l : List CachedContact) (recent : ℕ) (c : Core)
      → IsFrozen c (send_contacts id since l recent c).1
  unfolding send_contacts
  send_contacts-IsFrozen since [] recent c = ((refl, refl), refl)
  send_contacts-IsFrozen since (contact ∷ l) recent c =
      elim (Bool-cases (is_old since (lastmod contact))) [
        | inl old ↦ rw (old, send_contacts) (send_contacts-IsFrozen since l recent c)
        | inr new ↦
            let d = send_to_client id (contact_frame contact) c in
            rw (new, send_contacts)
              (IsFrozen-trans c d (send_contacts id since l (max recent (lastmod contact)) d).1
                (send_to_client-IsFrozen id (contact_frame contact) c)
                (send_contacts-IsFrozen since l (max recent (lastmod contact)) d))
      ]

  respond_contacts-IsFrozen :
      (l : List CachedContact) (since : Option ℕ) (c : Core)
      → IsFrozen c (respond_contacts id l since c)
  unfolding respond_contacts
  respond_contacts-IsFrozen l since c =
      let start = 0x02 ∷ to_le_bytes 4 (length l) in
      let d = send_to_client id start c in
      let (recent, e) = send_contacts id since l 0 d in
      let end = 0x04 ∷ to_le_bytes 4 recent in
      IsFrozen-trans c d (send_to_client id end e) (send_to_client-IsFrozen id start c) (
        IsFrozen-trans d e (send_to_client id end e) (send_contacts-IsFrozen since l 0 d)
          (send_to_client-IsFrozen id end e))

  serve_blob-IsFrozen : (blob : Option Bytes) (c : Core) → IsFrozen c (serve_blob id blob c).1
  serve_blob-IsFrozen none c = ((refl, refl), refl)
  serve_blob-IsFrozen (some blob) c = send_to_client-IsFrozen id blob c

  serve_contacts-IsFrozen :
      (since : Option ℕ) (r : Result (List CachedContact) × Core)
      → IsFrozen r.1 (serve_contacts id since r).1
  serve_contacts-IsFrozen since (err, c) = ((refl, refl), refl)
  serve_contacts-IsFrozen since (ok [], c) = ((refl, refl), refl)
  serve_contacts-IsFrozen since (ok (contact ∷ l), c) =
      respond_contacts-IsFrozen (contact ∷ l) since c

  serve_found-IsFrozen :
      (channel : Option CachedChannel) (c : Core) → IsFrozen c (serve_found id channel c).1
  serve_found-IsFrozen none c = ((refl, refl), refl)
  serve_found-IsFrozen (some channel) c = send_to_client-IsFrozen id (channel_frame channel) c

  serve_channel-IsFrozen :
      (idx : Option ℕ) (r : Result (List CachedChannel) × Core)
      → IsFrozen r.1 (serve_channel id idx r).1
  serve_channel-IsFrozen idx (err, c) = ((refl, refl), refl)
  serve_channel-IsFrozen idx (ok channels, c) =
      serve_found-IsFrozen (requested_channel idx channels) c

-- An `if` keeps what both branches keep.
if-IsFrozen :
    (b : Bool) (c : Core) (x y : Bool × Core)
    → IsFrozen c x.1
    → IsFrozen c y.1
    → IsFrozen c (if b then x else y).1
if-IsFrozen true c x y h k = h
if-IsFrozen false c x y h k = k

pub try_serve_from_cache-IsFrozen :
    (code : ℕ) (cmd : ClientCommand) (c : Core) → IsFrozen c (try_serve_from_cache code cmd c).1
unfolding try_serve_from_cache
try_serve_from_cache-IsFrozen code cmd c =
    let id = cmd.client_id in
    if-IsFrozen (code == 0x01) c _ _ (serve_blob-IsFrozen id c.self_info_raw c) (
      if-IsFrozen (code == 0x16) c _ _ (serve_blob-IsFrozen id c.device_info_raw c) (
        if-IsFrozen (code == 0x14) c _ _ (serve_blob-IsFrozen id c.battery_info_raw c) (
          if-IsFrozen (code == 0x04) c _ _
            (serve_contacts-IsFrozen id (since_of cmd.payload) (with_db get_contacts c))
            (if-IsFrozen (code == 0x1F) c _ _
              (serve_channel-IsFrozen id (get_elem? cmd.payload 1) (with_db get_channels c))
              ((refl, refl), refl)))))

-- The command was dealt with, with nothing for the radio; or it was passed on, after steps that touch neither
-- the radio nor the requests.
abbrev pub IsForwarded : Clock → ℕ → ClientCommand → Core → Core → Type 0
IsForwarded clock code cmd c d =
    IsFrozen c d
    ⊎ ((e : Core) × IsFrozen c e
        × (d ≡ enqueue_or_dispatch clock (some cmd.client_id) (forwarded code cmd.payload) e))

module _ (clock : Clock) (code : ℕ) (cmd : ClientCommand) where
  or_forward-IsForwarded :
      (r : Bool × Core) → IsForwarded clock code cmd r.1 (or_forward clock code cmd r)
  or_forward-IsForwarded (true, c) = elim (Bool-cases (code == 0x01)) [
    | inl e ↦ inl (rw e (notify_missed-IsFrozen cmd.client_id c))
    | inr e ↦ inl (rw e ((refl, refl), refl))
  ]
  or_forward-IsForwarded (false, c) = inr (c, ((refl, refl), refl), refl)

  IsForwarded-from :
      (c d e : Core)
      → IsFrozen c d
      → IsForwarded clock code cmd d e
      → IsForwarded clock code cmd c e
  IsForwarded-from c d e h (inl k) = inl (IsFrozen-trans c d e h k)
  IsForwarded-from c d e h (inr (x, k, l)) = inr (x, IsFrozen-trans c d x h k, l)

  or_serve-IsForwarded :
      (r : Bool × Core) → IsForwarded clock code cmd r.1 (or_serve clock code cmd r)
  or_serve-IsForwarded (true, c) = inl ((refl, refl), refl)
  or_serve-IsForwarded (false, c) =
      let r = try_serve_from_cache code cmd c in
      IsForwarded-from c r.1 (or_forward clock code cmd r)
        (try_serve_from_cache-IsFrozen code cmd c) (or_forward-IsForwarded r)

  accept_command-IsForwarded :
      (c : Core) → IsForwarded clock code cmd c (accept_command clock code cmd c)
  unfolding accept_command
  accept_command-IsForwarded c =
      let d = note_session clock code cmd c in
      let e = note_version code cmd d in
      let r = replay_first clock code cmd e in
      let all = or_serve clock code cmd r in
      IsForwarded-from c d all (note_session-IsFrozen clock code cmd c) (
        IsForwarded-from d e all (note_version-IsFrozen code cmd d) (
          IsForwarded-from e r.1 all (replay_first-IsFrozen clock code cmd e)
            (or_serve-IsForwarded r)))

-- A command that does not panic is dealt with while the requests and the link stay as they are; or, after steps
-- that leave those alone too, it is passed on as the client sent it, but for a DEVICE_QUERY, which goes out with
-- the version of the proxy.
pub handle_client_command-IsForwarded :
    (hex_encode : Bytes → Bytes) (clock : Clock) (cmd : ClientCommand) (c d : Core)
    → handle_client_command hex_encode clock cmd c ≡ some d
    → IsForwarded clock (byte_at cmd.payload 0) cmd c d
unfolding handle_client_command
handle_client_command-IsForwarded hex_encode clock cmd c d e = go cmd.payload e
  where
    accepted :
        (code : ℕ) (rest : Bytes) (alive : Bool)
        → (if alive
            then (log_event hex_encode c.config.event_log_level to_radio code (code ∷ rest)
                >>= λ event. some (accept_command clock code cmd c))
            else some c)
          ≡ some d
        → IsForwarded clock code cmd c d
    accepted code rest true h =
        let (event, logged, eq) =
          bind-some (log_event hex_encode c.config.event_log_level to_radio code (code ∷ rest))
            (λ event. some (accept_command clock code cmd c)) h in
        subst (IsForwarded clock code cmd c) (some-inner eq)
          (accept_command-IsForwarded clock code cmd c)
    accepted code rest false h =
        subst (IsForwarded clock code cmd c) (some-inner h) (inl ((refl, refl), refl))

    go :
        (payload : Bytes)
        → handle_payload hex_encode clock cmd payload c ≡ some d
        → IsForwarded clock (byte_at payload 0) cmd c d
    go [] h = subst (IsForwarded clock 0 cmd c) (some-inner h) (inl ((refl, refl), refl))
    go (code ∷ rest) h = accepted code rest (client_is_alive c cmd.client_id) h
