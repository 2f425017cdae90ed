-- ===== src/Core/Sessions.antt =====
-- src/core.rs: clients that identified themselves, and the messages they missed.
pub mod Frozen
pub mod Laws
use coresplitter.Base.{
  ℕ, ◌-◌, Bool, true, false, ◌&&◌, ◌||◌, Option, none, some, List, [], ◌∷◌, ◌++◌, map, ltb, ◌==◌,
  if◌then◌else◌, drop,
}
use coresplitter.Base.Bytes.{Bytes, bytes_eq, bytes_le}
use coresplitter.Base.Utf8.{from_utf8_lossy, trim_end_zeros}
use coresplitter.Base.Maps.{lookup, update, insert, retain}
use coresplitter.Node.Db.{Db, Result, ok, err, Query}
use coresplitter.Node.State.{
  NewMessage, insert_message, message_head, message_ids_after, backlog_message_ids, message_frame,
  client_cursor, advance_client_cursor,
}
use coresplitter.Core.State.{Core, Session, ClientCommand, Clock, with_db}
use coresplitter.Core.Clients.{client_is_alive, send_to_client, is_some}

abbrev pub is_empty {ℓ} : {A : Type ℓ} → List A → Bool
is_empty [] = true
is_empty (x ∷ xs) = false

-- APP_START: [0x01, app_ver, reserved(6), app_name...]; a shorter one names no app.
unfoldable pub app_name_of : Bytes → Bytes
app_name_of payload = trim_end_zeros (from_utf8_lossy (drop 8 payload))

abbrev pub missed_since : Clock → ℕ → Bytes → Result (Option ℕ) × Core → Result (List ℕ) × Core
missed_since clock port app_name (ok (some cursor), core) =
    with_db (message_ids_after cursor port app_name) core
missed_since clock port app_name (ok none, core) =
    with_db (backlog_message_ids clock.unix core.config.new_client_backlog port app_name) core
missed_since clock port app_name (err, core) = (err, core)

-- The messages that a client has not seen.
unfoldable pub missed : Clock → ℕ → Bytes → Core → Result (List ℕ) × Core
missed clock port app_name core =
    missed_since clock port app_name (with_db (client_cursor port app_name) core)

abbrev pub unwrap_or_default {ℓ} : {A : Type ℓ} → A → Result A → A
unwrap_or_default d (ok a) = a
unwrap_or_default d err = d

-- Ids start at 1, so `first - 1` stays at 0 or above.
abbrev pub first_cursor : List ℕ → Core → ℕ × Core
first_cursor [] core = let (r, core₁) = with_db message_head core in (unwrap_or_default 0 r, core₁)
first_cursor (first ∷ pending) core = (first - 1, core)

unfoldable pub register_session : Clock → ClientCommand → Core → Core
register_session clock cmd core =
    let app_name = app_name_of cmd.payload in
    let (r, core₁) = missed clock cmd.local_port app_name core in
    let pending = unwrap_or_default [] r in
    let (cursor, core₂) = first_cursor pending core₁ in
    let core₃ =
      (with_db (advance_client_cursor clock.unix cmd.local_port app_name cursor) core₂).1 in
    record core₃ {
      sessions =
          insert cmd.client_id
            (record { port = cmd.local_port; app_name = app_name; pending = pending })
            core₃.sessions;
    }

abbrev pub pending_of : Option Session → List ℕ
pending_of none = []
pending_of (some s) = s.pending

unfoldable pub notify_missed : ℕ → Core → Core
notify_missed client_id core =
    if is_empty (pending_of (lookup client_id core.sessions))
    then core
    else send_to_client client_id (0x83 ∷ []) core

abbrev pub set_pending : ℕ → List ℕ → Core → Core
set_pending client_id pending core = record core {
  sessions = update client_id (λ s. record s { pending = pending }) core.sessions;
}

-- One round of the loop of `replay_next_missed`, after the frame was looked up; `rest` is the loop on the
-- ids left. A message may have been purged since; it is skipped.
abbrev pub replay_found :
    Clock
    → ℕ
    → ℕ
    → Bytes
    → ℕ
    → List ℕ
    → (Core → Bool × (List ℕ × Core))
    → Result (Option Bytes) × Core
    → Bool × (List ℕ × Core)
replay_found clock client_id port app_name id pending rest (ok (some frame), core) =
    let core₁ = send_to_client client_id frame core in
    (true, (pending, (with_db (advance_client_cursor clock.unix port app_name id) core₁).1))
replay_found clock client_id port app_name id pending rest (ok none, core) = rest core
replay_found clock client_id port app_name id pending rest (err, core) = rest core

-- Whether a frame was sent, and the ids left after it.
unfoldable pub replay : Clock → ℕ → ℕ → Bytes → List ℕ → Core → Bool × (List ℕ × Core)
replay clock client_id port app_name [] core = (false, ([], core))
replay clock client_id port app_name (id ∷ pending) core =
    replay_found clock client_id port app_name id pending
      (replay clock client_id port app_name pending) (with_db (message_frame id) core)

abbrev pub follow_message : Clock → ℕ → Bytes → Result ℕ × Core → Core
follow_message clock port app_name (ok head, core) =
    (with_db (advance_client_cursor clock.unix port app_name head) core).1
follow_message clock port app_name (err, core) = core

-- A caught-up session follows the newest message.
unfoldable pub catch_up : Clock → ℕ → Bytes → List ℕ → Core → Core
catch_up clock port app_name (id ∷ pending) core = core
catch_up clock port app_name [] core =
    follow_message clock port app_name (with_db message_head core)

abbrev pub after_replay : Clock → ℕ → Session → Bool × (List ℕ × Core) → Bool × Core
after_replay clock client_id session (served, (pending, core)) = (
  served,
  catch_up clock session.port session.app_name pending (set_pending client_id pending core),
)

abbrev pub replay_session : Clock → ℕ → Core → Option Session → Bool × Core
replay_session clock client_id core none = (false, core)
replay_session clock client_id core (some session) =
    after_replay clock client_id session
      (replay clock client_id session.port session.app_name session.pending core)

unfoldable pub replay_next_missed : Clock → ℕ → Core → Bool × Core
replay_next_missed clock client_id core =
    replay_session clock client_id core (lookup client_id core.sessions)

-- `sort` on (port, app name), by insertion, and `dedup`.
abbrev identity_le : ℕ × Bytes → ℕ × Bytes → Bool
identity_le (p, a) (q, b) = ltb p q || (p == q && bytes_le a b)

abbrev identity_eq : ℕ × Bytes → ℕ × Bytes → Bool
identity_eq (p, a) (q, b) = p == q && bytes_eq a b

abbrev insert_identity : ℕ × Bytes → List (ℕ × Bytes) → List (ℕ × Bytes)
insert_identity x [] = x ∷ []
insert_identity x (y ∷ ys) = if identity_le x y then x ∷ y ∷ ys else y ∷ insert_identity x ys

abbrev sort : List (ℕ × Bytes) → List (ℕ × Bytes)
sort [] = []
sort (x ∷ xs) = insert_identity x (sort xs)

abbrev drop_same : ℕ × Bytes → List (ℕ × Bytes) → List (ℕ × Bytes)
drop_same x [] = x ∷ []
drop_same x (y ∷ ys) = if identity_eq x y then x ∷ ys else x ∷ y ∷ ys

abbrev dedup : List (ℕ × Bytes) → List (ℕ × Bytes)
dedup [] = []
dedup (x ∷ xs) = drop_same x (dedup xs)

abbrev caught_up : List (ℕ × Session) → List (ℕ × Bytes)
caught_up [] = []
caught_up ((cid, s) ∷ sessions) =
    let rest = caught_up sessions in
    if is_empty s.pending then (s.port, s.app_name) ∷ rest else rest

unfoldable pub advance_all : Clock → ℕ → List (ℕ × Bytes) → Core → Core
advance_all clock id [] core = core
advance_all clock id ((port, app_name) ∷ identities) core =
    advance_all clock id identities
      (with_db (advance_client_cursor clock.unix port app_name id) core).1

unfoldable pub follow_head : Clock → ℕ → Core → Core
unfolding client_is_alive
follow_head clock id core =
    let sessions = retain (λ cid s. client_is_alive core cid) core.sessions in
    let versions = retain (λ cid v. client_is_alive core cid) core.protocol_versions in
    advance_all clock id (dedup (sort (caught_up sessions)))
      (record core { sessions = sessions; protocol_versions = versions })

abbrev pub after_insert : Clock → Result ℕ × Core → Core
after_insert clock (ok id, core) = follow_head clock id core
after_insert clock (err, core) = core

-- The result is only ever discarded.
unfoldable pub store_message : Clock → NewMessage → Core → Core
store_message clock msg core = after_insert clock (with_db (insert_message clock.unix msg) core)
