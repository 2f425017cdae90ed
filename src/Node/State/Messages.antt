-- ===== src/Node/State/Messages.antt =====
-- src/node/state.rs: the methods of `NodeState` for messages.
-- `chrono::Utc::now().timestamp()` is the argument `now`.
use coresplitter.Base.{
  ℕ, ◌+◌, max, Bool, true, false, not, ◌&&◌, Option, none, some, List, [], ◌∷◌, ◌++◌, map, ltb, leb,
  ◌==◌, take,
}
use coresplitter.Base.Bytes.{Bytes, bytes_eq}
use coresplitter.Node.Sql.{select, order_by, first}
use coresplitter.Node.Db.{Query, statement, pure}
use coresplitter.Node.Db.Tables.{MessageType, Origin, MessageRow}

-- Messages

pub record NewMessage : Type 0 where
  pub msg_type : MessageType
  pub from_key : Option Bytes
  pub channel_idx : Option ℕ
  pub text : Bytes
  pub timestamp : ℕ
  pub frame : Bytes
  pub origin : Origin

unfoldable pub insert_message : ℕ → NewMessage → Query ℕ
insert_message now msg = statement λ db.
    let id = db.message_seq + 1 in
    (
      id,
      record db {
        messages =
            db.messages
            ++ record {
              id = id;
              msg_type = msg.msg_type;
              from_key = msg.from_key;
              channel_idx = msg.channel_idx;
              text = msg.text;
              timestamp = msg.timestamp;
              received_at = some now;
              frame = some msg.frame;
              origin = msg.origin;
            }
              ∷ [];
        message_seq = id;
      },
    )

abbrev max_id : List MessageRow → ℕ
max_id [] = 0
max_id (row ∷ rows) = max row.id (max_id rows)

-- `COALESCE(MAX(id), 0)`
unfoldable pub message_head : Query ℕ
message_head = statement λ db. (max_id db.messages, db)

abbrev pub is_origin : ℕ → Bytes → Origin → Bool
is_origin port app_name none = false
is_origin port app_name (some (p, app)) = p == port && bytes_eq app app_name

abbrev pub has_frame : Option Bytes → Bool
has_frame none = false
has_frame (some frame) = true

-- `REPLAYABLE_TO`
abbrev pub replayable_to : ℕ → Bytes → MessageRow → Bool
replayable_to port app_name row = has_frame row.frame && not (is_origin port app_name row.origin)

abbrev by_id : ℕ → ℕ → Bool
by_id = leb

abbrev by_id_desc : ℕ → ℕ → Bool
by_id_desc a b = leb b a

abbrev pub ids : List MessageRow → List ℕ
ids = map (λ row. row.id)

unfoldable pub message_ids_after : ℕ → ℕ → Bytes → Query (List ℕ)
message_ids_after after port app_name = statement λ db. (
  order_by by_id
      (ids (select (λ row. ltb after row.id && replayable_to port app_name row) db.messages)),
  db,
)

pub data Backlog : Type 0 where
  off : Backlog
  messages : ℕ → Backlog
  seconds : ℕ → Backlog

-- `received_at >= now - secs`; NULL compares to nothing.
abbrev received_since : ℕ → ℕ → Option ℕ → Bool
received_since now secs none = false
received_since now secs (some t) = leb now (t + secs)

unfoldable pub backlog_message_ids : ℕ → Backlog → ℕ → Bytes → Query (List ℕ)
backlog_message_ids now off port app_name = pure []
backlog_message_ids now (messages n) port app_name = statement λ db. (
  order_by by_id
      (take n (order_by by_id_desc (ids (select (replayable_to port app_name) db.messages)))),
  db,
)
backlog_message_ids now (seconds secs) port app_name = statement λ db. (
  order_by by_id (
      ids (
        select (λ row. received_since now secs row.received_at && replayable_to port app_name row)
          db.messages)),
  db,
)

abbrev pub frame_of : Option MessageRow → Option Bytes
frame_of none = none
frame_of (some row) = row.frame

unfoldable pub message_frame : ℕ → Query (Option Bytes)
message_frame id =
    statement
      λ db. (frame_of (first (select (λ row. row.id == id && has_frame row.frame) db.messages)), db)
