-- ===== src/Node/Stored.antt =====
-- Storing a message (src/node/state.rs, `insert_message` and `message_frame`).
use coresplitter.Base.{
  ℕ, suc, ◌≤◌, ◌<◌, ◌≡◌, refl, ap, ◌∙◌, ◌&&◌, Option, some, List, [], ◌∷◌, ◌++◌, arith, ◌==◌,
}
use coresplitter.Base.Bytes.{Bytes, All}
use coresplitter.Node.Sql.{select, first}
use coresplitter.Node.Sql.Order.{IsIncreasing, All-append}
use coresplitter.Node.Db.{Db, ok}
use coresplitter.Node.Db.Tables.{MessageRow}
use coresplitter.Node.State.{NewMessage, ids, has_frame, insert_message, message_frame, frame_of}
use coresplitter.Node.Replay.{IsOrdered}

ids-append : (rows more : List MessageRow) → ids (rows ++ more) ≡ ids rows ++ ids more
ids-append [] more = refl
ids-append (row ∷ rows) more = ap (◌∷◌ row.id) (ids-append rows more)

IsIncreasing-append :
    (xs : List ℕ) (n : ℕ) → IsIncreasing xs → All (λ x. x ≤ n) xs → IsIncreasing (xs ++ suc n ∷ [])
IsIncreasing-append [] n h k = (tt, tt)
IsIncreasing-append (x ∷ xs) n h k =
    (All-append _ xs (suc n ∷ []) h.0 (omega arith, tt), IsIncreasing-append xs n h.1 k.1)

All-le_suc : (n : ℕ) (xs : List ℕ) → All (λ x. x ≤ n) xs → All (λ x. x ≤ suc n) xs
All-le_suc n [] h = tt
All-le_suc n (x ∷ xs) h = (omega arith, All-le_suc n xs h.1)

-- The row that `insert_message` writes.
abbrev row_of : ℕ → ℕ → NewMessage → MessageRow
row_of id now msg = record {
  id = id;
  msg_type = msg.msg_type;
  from_key = msg.from_key;
  channel_idx = msg.channel_idx;
  text = msg.text;
  timestamp = msg.timestamp;
  received_at = some now;
  frame = some msg.frame;
  origin = msg.origin;
}

insert_message-ok :
    (now : ℕ) (msg : NewMessage) (db db' : Db) (id : ℕ)
    → insert_message now msg db ≡ (ok id, db')
    → (id ≡ suc db.message_seq)
      × (db'.message_seq ≡ id)
      × (db'.messages ≡ db.messages ++ row_of id now msg ∷ [])
unfolding insert_message
insert_message-ok now msg db db' id e = (ground arith, ground arith, ground arith)

All-lt_suc : (n : ℕ) (xs : List ℕ) → All (λ x. x ≤ n) xs → All (λ x. x < suc n) xs
All-lt_suc n [] h = tt
All-lt_suc n (x ∷ xs) h = (omega arith, All-lt_suc n xs h.1)

-- A stored message gets an id above that of every message before it, and the table stays in order.
pub insert_message-IsOrdered :
    (now : ℕ) (msg : NewMessage) (db db' : Db) (id : ℕ)
    → IsOrdered db
    → insert_message now msg db ≡ (ok id, db')
    → IsOrdered db' × All (λ x. x < id) (ids db.messages)
insert_message-IsOrdered now msg db db' id v e =
    let (new, seq, rows) = insert_message-ok now msg db db' id e in
    let all : ids db'.messages ≡ ids db.messages ++ id ∷ [] =
      ap ids rows ∙ ids-append db.messages (row_of id now msg ∷ []) in
    (
      record {
        increasing =
            rw (all, new)
              (IsIncreasing-append (ids db.messages) db.message_seq v.increasing v.below);
        positive =
            rw (all, new)
              (All-append (λ x. 0 < x) (ids db.messages) _ v.positive (omega arith, tt));
        below =
            rw (all, seq, new)
              (All-append (λ x. x ≤ suc db.message_seq) (ids db.messages) _
                (All-le_suc db.message_seq (ids db.messages) v.below) (omega arith, tt));
      },
      rw new (All-lt_suc db.message_seq (ids db.messages) v.below),
    )

frame_of-last :
    (id now : ℕ) (msg : NewMessage) (rows : List MessageRow)
    → All (λ x. x < id) (ids rows)
    → frame_of (
        first
          (select (λ row. row.id == id && has_frame row.frame) (rows ++ row_of id now msg ∷ [])))
      ≡ some msg.frame
unfolding first select
frame_of-last id now msg [] h = ground arith
frame_of-last id now msg (row ∷ rows) h = ground (arith, frame_of-last id now msg rows h.1, h.0)

message_frame-ok :
    (id : ℕ) (db db' : Db) (frame : Option Bytes)
    → message_frame id db ≡ (ok frame, db')
    → frame ≡ frame_of (first (select (λ row. row.id == id && has_frame row.frame) db.messages))
unfolding message_frame
message_frame-ok id db db' frame e = ground arith

-- The frame of a stored message is found again, byte for byte, under the id that storing it returned.
pub message_frame-insert_message :
    (now : ℕ) (msg : NewMessage) (db db₁ db₂ : Db) (id : ℕ) (frame : Option Bytes)
    → IsOrdered db
    → insert_message now msg db ≡ (ok id, db₁)
    → message_frame id db₁ ≡ (ok frame, db₂)
    → frame ≡ some msg.frame
message_frame-insert_message now msg db db₁ db₂ id frame v e f =
    let (new, seq, rows) = insert_message-ok now msg db db₁ id e in
    message_frame-ok id db₁ db₂ frame f
    ∙ ap (λ l. frame_of (first (select (λ row. row.id == id && has_frame row.frame) l))) rows
    ∙ frame_of-last id now msg db.messages
        (rw new (All-lt_suc db.message_seq (ids db.messages) v.below))
