-- ===== src/Core/Sessions/Frozen.antt =====
-- Registering and replaying leave the requests and the link alone (src/core.rs).
use coresplitter.Base.{ℕ, refl, Bool, Option, none, some, List, [], ◌∷◌}
use coresplitter.Base.Bytes.{Bytes}
use coresplitter.Node.Db.{Result, ok, err}
use coresplitter.Node.State.{client_cursor, message_frame, message_head}
use coresplitter.Core.State.{Core, ClientCommand, Session, Clock, with_db}
use coresplitter.Core.Queue.Frozen.{IsFrozen, IsFrozen-trans, send_to_client-IsFrozen}
use coresplitter.Core.Sessions.{
  register_session, missed, missed_since, first_cursor, unwrap_or_default, app_name_of, replay,
  replay_found, replay_session, catch_up, follow_message, set_pending,
}

pub missed_since-IsFrozen :
    (clock : Clock) (port : ℕ) (app : Bytes) (r : Result (Option ℕ) × Core)
    → IsFrozen r.1 (missed_since clock port app r).1
missed_since-IsFrozen clock port app (ok none, c) = ((refl, refl), refl)
missed_since-IsFrozen clock port app (ok (some cursor), c) = ((refl, refl), refl)
missed_since-IsFrozen clock port app (err, c) = ((refl, refl), refl)

pub first_cursor-IsFrozen : (l : List ℕ) (c : Core) → IsFrozen c (first_cursor l c).1
first_cursor-IsFrozen [] c = ((refl, refl), refl)
first_cursor-IsFrozen (id ∷ l) c = ((refl, refl), refl)

pub register_session-IsFrozen :
    (clock : Clock) (cmd : ClientCommand) (c : Core) → IsFrozen c (register_session clock cmd c)
unfolding register_session missed
register_session-IsFrozen clock cmd c =
    let app = app_name_of cmd.payload in
    let (r, d) = missed clock cmd.local_port app c in
    IsFrozen-trans c d (first_cursor (unwrap_or_default [] r) d).1
      (missed_since-IsFrozen clock cmd.local_port app
        (with_db (client_cursor cmd.local_port app) c))
      (first_cursor-IsFrozen (unwrap_or_default [] r) d)

module _ (clock : Clock) (id port : ℕ) (app : Bytes) where
  pub replay_found-IsFrozen :
      (m : ℕ) (l : List ℕ) (rest : Core → Bool × (List ℕ × Core)) (r : Result (Option Bytes) × Core)
      → ((c : Core) → IsFrozen c (rest c).1.1)
      → IsFrozen r.1 (replay_found clock id port app m l rest r).1.1
  replay_found-IsFrozen m l rest (ok none, c) h = h c
  replay_found-IsFrozen m l rest (ok (some frame), c) h = send_to_client-IsFrozen id frame c
  replay_found-IsFrozen m l rest (err, c) h = h c

  pub replay-IsFrozen : (l : List ℕ) (c : Core) → IsFrozen c (replay clock id port app l c).1.1
  unfolding replay
  replay-IsFrozen [] c = ((refl, refl), refl)
  replay-IsFrozen (m ∷ l) c =
      replay_found-IsFrozen m l (replay clock id port app l) (with_db (message_frame m) c)
        (replay-IsFrozen l)

  pub follow_message-IsFrozen :
      (r : Result ℕ × Core) → IsFrozen r.1 (follow_message clock port app r)
  follow_message-IsFrozen (ok head, c) = ((refl, refl), refl)
  follow_message-IsFrozen (err, c) = ((refl, refl), refl)

  pub catch_up-IsFrozen : (l : List ℕ) (c : Core) → IsFrozen c (catch_up clock port app l c)
  unfolding catch_up
  catch_up-IsFrozen [] c = follow_message-IsFrozen (with_db message_head c)
  catch_up-IsFrozen (m ∷ l) c = ((refl, refl), refl)

pub replay_session-IsFrozen :
    (clock : Clock) (id : ℕ) (c : Core) (s : Option Session)
    → IsFrozen c (replay_session clock id c s).1
replay_session-IsFrozen clock id c none = ((refl, refl), refl)
replay_session-IsFrozen clock id c (some s) =
    let (served, (l, d)) = replay clock id s.port s.app_name s.pending c in
    IsFrozen-trans c d (catch_up clock s.port s.app_name l (set_pending id l d))
      (replay-IsFrozen clock id s.port s.app_name s.pending c)
      (catch_up-IsFrozen clock id s.port s.app_name l (set_pending id l d))
