-- ===== src/Node/Tests.antt =====
-- The methods of src/node/state.rs on a small database.
use coresplitter.Base.{
  ℕ, ◌<◌, ◌≡◌, ◌↔◌, refl, inl, inr, Option, none, some, List, [], ◌∷◌, arith, drop,
}
use coresplitter.Base.Bytes.{Bytes, All}
use coresplitter.Node.Sql.{select, delete, order_by, first}
use coresplitter.Node.Sql.Laws.{Found}
use coresplitter.Node.Sql.Order.{IsIncreasing}
use coresplitter.Node.Db.{Db, Result, ok, err}
use coresplitter.Node.Db.Tables.{ContactRow, MessageType, MessageRow, Origin}
use coresplitter.Node.State.{
  NewMessage, insert_message, message_frame, message_ids_after, backlog_message_ids, Backlog, ids,
  client_cursor, advance_client_cursor, upsert_client, cursor_in, kv_set, kv_get,
  set_contacts_synced_at, contacts_synced_at, Retention, maintain,
}
use coresplitter.Node.Replay.{
  IsOrdered, IsMissed, Listed, message_ids_after-IsMissed, backlog_message_ids-last,
}
use coresplitter.Node.Stored.{insert_message-IsOrdered, message_frame-insert_message}
use coresplitter.Node.Cursor.{client_cursor-advance_client_cursor}
use coresplitter.Node.Kv.{contacts_synced_at-set}
use coresplitter.Node.Purge.{maintain-contacts}

abbrev pub empty : Db
empty = record {
  contacts = [];
  channels = [];
  messages = [];
  message_seq = 0;
  kv_store = [];
  raw_rx = [];
  raw_rx_seq = 0;
  clients = [];
  outcomes = [];
}

abbrev message : ℕ → Option Bytes → Origin → MessageRow
message id frame origin = record {
  id = id;
  msg_type = MessageType.contact;
  from_key = none;
  channel_idx = none;
  text = b'h' ∷ b'i' ∷ [];
  timestamp = 7;
  received_at = some 100;
  frame = frame;
  origin = origin;
}

abbrev pub app : Bytes
app = b'a' ∷ []

-- Of three messages the second was sent by the client itself, on port 5000.
abbrev pub three : Db
three = record empty {
  messages =
      message 1 (some (0x07 ∷ 1 ∷ [])) none
      ∷ message 2 (some (0x07 ∷ 2 ∷ [])) (some (5000, app))
      ∷ message 3 (some (0x07 ∷ 3 ∷ [])) none
      ∷ [];
  message_seq = 3;
}

three-IsOrdered : IsOrdered three
three-IsOrdered = record {
  increasing = ground arith;
  positive = ground arith;
  below = ground arith;
}

ids-after : message_ids_after 0 5000 app three ≡ (ok (1 ∷ 3 ∷ []), three)
unfolding message_ids_after select order_by
ids-after = refl

ids-backlog : backlog_message_ids 200 (Backlog.messages 1) 5000 app three ≡ (ok (3 ∷ []), three)
unfolding backlog_message_ids select order_by
ids-backlog = refl

message_ids_after-IsMissed_example :
    IsIncreasing (1 ∷ 3 ∷ [])
    × ((id : ℕ) → Listed id (1 ∷ 3 ∷ []) ↔ Found (IsMissed 0 5000 app id) three.messages)
message_ids_after-IsMissed_example =
    message_ids_after-IsMissed 0 5000 app three three (1 ∷ 3 ∷ []) three-IsOrdered ids-after

abbrev newest : List ℕ
newest = 3 ∷ []

backlog_message_ids-last_example : newest ≡ drop 1 (1 ∷ 3 ∷ [])
backlog_message_ids-last_example =
    backlog_message_ids-last 200 1 5000 app three three three (1 ∷ 3 ∷ []) (3 ∷ []) three-IsOrdered
      ids-after ids-backlog

abbrev incoming : NewMessage
incoming = record {
  msg_type = MessageType.channel;
  from_key = none;
  channel_idx = some 2;
  text = b'y' ∷ b'o' ∷ [];
  timestamp = 9;
  frame = 0x08 ∷ 2 ∷ [];
  origin = none;
}

abbrev four : Db
four = (insert_message 300 incoming three).1

insert-incoming : insert_message 300 incoming three ≡ (ok 4, four)
unfolding insert_message
insert-incoming = refl

frame-incoming : message_frame 4 four ≡ (ok (some (0x08 ∷ 2 ∷ [])), four)
unfolding message_frame insert_message select first
frame-incoming = refl

insert_message-IsOrdered_example : IsOrdered four × All (λ x. x < 4) (ids three.messages)
insert_message-IsOrdered_example =
    insert_message-IsOrdered 300 incoming three four 4 three-IsOrdered insert-incoming

message_frame-insert_message_example : some (0x08 ∷ 2 ∷ []) ≡ some incoming.frame
message_frame-insert_message_example =
    message_frame-insert_message 300 incoming three four four 4 (some (0x08 ∷ 2 ∷ []))
      three-IsOrdered insert-incoming frame-incoming

abbrev seen : Db
seen = (advance_client_cursor 400 5000 app 3 three).1

advance-seen : advance_client_cursor 400 5000 app 3 three ≡ (ok tt, seen)
unfolding advance_client_cursor
advance-seen = refl

cursor-seen : client_cursor 5000 app seen ≡ (ok (some 3), seen)
unfolding client_cursor advance_client_cursor upsert_client cursor_in select first
cursor-seen = refl

abbrev reported : Result (Unit {0})
reported = ok tt

abbrev third : Option ℕ
third = some 3

client_cursor-advance_client_cursor_example :
    ((reported ≡ ok tt) → third ≡ some 3) × ((reported ≡ err) → third ≡ none)
unfolding cursor_in select first
client_cursor-advance_client_cursor_example =
    client_cursor-advance_client_cursor 400 5000 app 3 5000 app three seen seen (ok tt) (some 3)
      advance-seen cursor-seen

abbrev with_blob : Db
with_blob = (kv_set "self_info" (1 ∷ 2 ∷ []) three).1

set-blob : kv_set "self_info" (1 ∷ 2 ∷ []) three ≡ (ok tt, with_blob)
unfolding kv_set
set-blob = refl

get-blob : kv_get "self_info" with_blob ≡ (ok (some (1 ∷ 2 ∷ [])), with_blob)
unfolding kv_get kv_set select first delete
get-blob = refl

abbrev blob : Option Bytes
blob = some (1 ∷ 2 ∷ [])

abbrev synced : Db
synced = (set_contacts_synced_at 1_700_000_000 three).1

set-synced : set_contacts_synced_at 1_700_000_000 three ≡ (ok tt, synced)
unfolding set_contacts_synced_at kv_set
set-synced = refl

get-synced : contacts_synced_at synced ≡ (ok (some 1_700_000_000), synced)
unfolding contacts_synced_at set_contacts_synced_at kv_set kv_get select first delete
get-synced = refl

abbrev sync_time : Option ℕ
sync_time = some 1_700_000_000

contacts_synced_at-set_example : sync_time ≡ some 1_700_000_000
contacts_synced_at-set_example =
    contacts_synced_at-set 1_700_000_000 three synced synced (some 1_700_000_000) (omega arith)
      set-synced get-synced

-- A contact last seen one day before `now`, with a retention of two days.
abbrev known : ContactRow
known = record {
  contact = record {
    public_key = 1 ∷ 2 ∷ [];
    name = b'n' ∷ [];
    contact_type = 1;
    last_advert = none;
    lat = none;
    lon = none;
    raw = none;
  };
  seen_at = some 1_000_000;
}

abbrev one_contact : Db
one_contact = record synced { contacts = known ∷ [] }

abbrev pub two_days : Retention
two_days = record { messages_days = 1; raw_rx_days = 1; contacts_days = 2; clients_days = 1 }

maintain-contacts_example :
    Found (λ r. r ≡ known) (maintain 1_086_400 two_days one_contact).1.contacts
maintain-contacts_example =
    maintain-contacts 1_086_400 two_days one_contact known (inr (inr (inr (omega arith))))
      (inl refl)
