-- ===== src/Core/Sessions/Laws.antt =====
-- Messages that a client missed (src/core.rs, `replay_next_missed`).
use coresplitter.Base.{
  ℕ, ◌≡◌, refl, sym, ap, subst, ◌∙◌, Bool, ◌&&◌, Option, none, some, List, [], ◌∷◌, arith, ◌==◌,
  if◌then◌else◌,
}
use coresplitter.Base.Bytes.{Bytes}
use coresplitter.Base.Maps.{apply_to, lookup, update, lookup-update}
use coresplitter.Node.Sql.{select, first}
use coresplitter.Node.Db.{Result, ok, err}
use coresplitter.Node.Db.Tables.{MessageRow}
use coresplitter.Node.State.{message_frame, frame_of, has_frame, message_head}
use coresplitter.Core.State.{Core, Session, Clock, with_db}
use coresplitter.Core.Clients.{push, send_to_client, is_some}
use coresplitter.Core.Clients.Laws.{outbox, frame_to, outbox-send_to_client}
use coresplitter.Core.Sessions.{
  replay, replay_found, after_replay, set_pending, follow_message, catch_up, replay_next_missed,
  pending_of,
}

abbrev stored_frame : List MessageRow → ℕ → Option Bytes
stored_frame rows id = frame_of (first (select (λ row. row.id == id && has_frame row.frame) rows))

abbrev or_next : List ℕ → Option (Bytes × List ℕ) → Option Bytes → Option (Bytes × List ℕ)
or_next pending rest none = rest
or_next pending rest (some frame) = some (frame, pending)

-- The next message of those left that is still stored with its frame, and those after it.
abbrev pub next_stored : List MessageRow → List ℕ → Option (Bytes × List ℕ)
next_stored rows [] = none
next_stored rows (id ∷ pending) = or_next pending (next_stored rows pending) (stored_frame rows id)

abbrev pub left_of : Option (Bytes × List ℕ) → List ℕ
left_of none = []
left_of (some (frame, pending)) = pending

-- The outbox of client `j` once client `id` was sent that message.
abbrev pub delivered : ℕ → ℕ → Core → Option (Bytes × List ℕ) → Option (List Bytes)
delivered id j c none = outbox j c
delivered id j c (some (frame, pending)) =
    if id == j then apply_to (push (frame_to c j frame)) (outbox j c) else outbox j c

send_to_client-sessions :
    (id : ℕ) (payload : Bytes) (c : Core) → (send_to_client id payload c).sessions ≡ c.sessions
unfolding send_to_client
send_to_client-sessions id payload c = refl

message_frame-stored :
    (id : ℕ) (c : Core)
    → c.db.outcomes ≡ []
    → with_db (message_frame id) c ≡ (ok (stored_frame c.db.messages id), c)
unfolding message_frame
message_frame-stored id c e = rw e refl

module _ (clock : Clock) (id j port : ℕ) (app : Bytes) where
  abbrev IsReplayed : Option (Bytes × List ℕ) → Core → Bool × (List ℕ × Core) → Type 0
  IsReplayed next c (served, (pending, d)) =
      (served ≡ is_some next)
      × (pending ≡ left_of next)
      × (outbox j d ≡ delivered id j c next)
      × (d.sessions ≡ c.sessions)

  replay_found-IsReplayed :
      (m : ℕ) (pending : List ℕ) (next : Option (Bytes × List ℕ))
      (rest : Core → Bool × (List ℕ × Core)) (c : Core) (frame : Option Bytes)
      → IsReplayed next c (rest c)
      → IsReplayed
          (or_next pending next frame)
          c
          (replay_found clock id port app m pending rest (ok frame, c))
  replay_found-IsReplayed m pending next rest c none h = h
  replay_found-IsReplayed m pending next rest c (some frame) h =
      (refl, refl, outbox-send_to_client id j frame c, send_to_client-sessions id frame c)

  replay-IsReplayed :
      (pending : List ℕ) (c : Core)
      → c.db.outcomes ≡ []
      → IsReplayed (next_stored c.db.messages pending) c (replay clock id port app pending c)
  unfolding replay
  replay-IsReplayed [] c e = (refl, refl, refl, refl)
  replay-IsReplayed (m ∷ pending) c e =
      let rest = replay clock id port app pending in
      let frame = stored_frame c.db.messages m in
      subst
        (λ r.
          IsReplayed (or_next pending (next_stored c.db.messages pending) frame) c
            (replay_found clock id port app m pending rest r))
        (sym (message_frame-stored m c e))
        (replay_found-IsReplayed m pending (next_stored c.db.messages pending) rest c frame
          (replay-IsReplayed pending c e))

  follow_message-same :
      (r : Result ℕ × Core)
      → let d = follow_message clock port app r in
        (d.client_channels ≡ r.1.client_channels) × (d.sessions ≡ r.1.sessions)
  follow_message-same (ok head, c) = (refl, refl)
  follow_message-same (err, c) = (refl, refl)

  pub catch_up-same :
      (pending : List ℕ) (c : Core)
      → let d = catch_up clock port app pending c in
        (d.client_channels ≡ c.client_channels) × (d.sessions ≡ c.sessions)
  unfolding catch_up
  catch_up-same [] c = follow_message-same (with_db message_head c)
  catch_up-same (m ∷ pending) c = (refl, refl)

pending-update :
    (id : ℕ) (pending : List ℕ) (s : Session) (l : List (ℕ × Session))
    → lookup id l ≡ some s
    → pending_of (lookup id (update id (λ s. record s { pending = pending }) l)) ≡ pending
pending-update id pending s l e =
    ap pending_of (lookup-update id id (λ s. record s { pending = pending }) l)
    ∙ rw e (ground arith)

after_replay-IsReplayed :
    (clock : Clock) (id j : ℕ) (s : Session) (next : Option (Bytes × List ℕ)) (c : Core)
    (r : Bool × (List ℕ × Core))
    → lookup id c.sessions ≡ some s
    → IsReplayed clock id j s.port s.app_name next c r
    → let (served, d) = after_replay clock id s r in
      (served ≡ is_some next)
      × (outbox j d ≡ delivered id j c next)
      × (pending_of (lookup id d.sessions) ≡ left_of next)
after_replay-IsReplayed clock id j s next c (served, (pending, d)) e (h, p, o, l) =
    let same = catch_up-same clock id j s.port s.app_name pending (set_pending id pending d) in
    (
      h,
      ap (lookup j) same.0 ∙ o,
      ap (λ l. pending_of (lookup id l)) same.1
          ∙ pending-update id pending s d.sessions (ap (lookup id) l ∙ e)
          ∙ p,
    )

-- While the database answers, a GET_MSG of an identified client is served with the first of the messages it
-- missed that is still stored: it alone is sent that frame, and those after it stay to be fetched. Only when
-- none is left is the request passed on.
pub replay_next_missed-next :
    (clock : Clock) (id j : ℕ) (c : Core) (s : Session)
    → lookup id c.sessions ≡ some s
    → c.db.outcomes ≡ []
    → let next = next_stored c.db.messages s.pending in
      let (served, d) = replay_next_missed clock id c in
      (served ≡ is_some next)
      × (outbox j d ≡ delivered id j c next)
      × (pending_of (lookup id d.sessions) ≡ left_of next)
unfolding replay_next_missed
replay_next_missed-next clock id j c s e o = rw e (
    after_replay-IsReplayed clock id j s (next_stored c.db.messages s.pending) c
      (replay clock id s.port s.app_name s.pending c) e
      (replay-IsReplayed clock id j s.port s.app_name s.pending c o))
