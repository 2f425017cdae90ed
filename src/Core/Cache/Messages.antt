-- ===== src/Core/Cache/Messages.antt =====
-- The messages of the radio that the core stores (src/core.rs, `cache_response`), against the layouts of the
-- four message frames.
use coresplitter.Base.{
  ℕ, zero, suc, ◌+◌, ◌≤◌, ◌<◌, ◌≡◌, refl, ap, ◌∙◌, inl, inr, Option, none, some, List, [], ◌∷◌,
  ◌++◌, arith, leb, leb→le, if◌then◌else◌, Bool-cases, length, drop,
}
use coresplitter.Base.Bytes.{Bytes, byte_at, slice, u32_at}
use coresplitter.Base.Utf8.{from_utf8_lossy}
use coresplitter.Node.Db.{Db, ok}
use coresplitter.Node.Db.Laws.{statement-Keeps}
use coresplitter.Node.Db.Tables.{MessageRow}
use coresplitter.Node.State.{NewMessage, insert_message, advance_client_cursor}
use coresplitter.Protocol.Decode.{Map, integer, string, range, index, first_match}
use coresplitter.Protocol.Decode.Response.{
  decode_response_payload, response_arms, decode_message, decode_message_channel, name_in,
}
use coresplitter.Core.State.{Core, Clock, with_db}
use coresplitter.Core.Sessions.{store_message, after_insert, follow_head, advance_all}

range-slice : (a b : ℕ) (p : Bytes) → a ≤ b → b ≤ length p → range a b p ≡ some (slice a b p)
unfolding range
range-slice a b p h k = ground (arith, h, k)

index-byte_at : (i : ℕ) (p : Bytes) → i < length p → index i p ≡ some (byte_at p i)
unfolding index
index-byte_at i [] h = absurd (omega arith)
index-byte_at zero (b ∷ p) h = refl
index-byte_at (suc i) (b ∷ p) h = index-byte_at i p (omega arith)

-- What `store_message` does to the table.

module _ (rows : List MessageRow) where
  abbrev pub Holds : Db → Type 0
  Holds db = db.messages ≡ rows

  advance_client_cursor-rows :
      (now port : ℕ) (app_name : Bytes) (id : ℕ) (db : Db)
      → Holds db
      → Holds (advance_client_cursor now port app_name id db).1
  unfolding advance_client_cursor
  advance_client_cursor-rows now port app_name id =
      statement-Keeps Holds _ (λ db later h. h) (λ db h. h)

  advance_all-rows :
      (clock : Clock) (id : ℕ) (identities : List (ℕ × Bytes)) (c : Core)
      → Holds c.db
      → Holds (advance_all clock id identities c).db
  unfolding advance_all
  advance_all-rows clock id [] c h = h
  advance_all-rows clock id ((port, app_name) ∷ identities) c h =
      advance_all-rows clock id identities
        (with_db (advance_client_cursor clock.unix port app_name id) c).1
        (advance_client_cursor-rows clock.unix port app_name id c.db h)

  follow_head-rows :
      (clock : Clock) (id : ℕ) (c : Core) → Holds c.db → Holds (follow_head clock id c).db
  unfolding follow_head
  follow_head-rows clock id c h = advance_all-rows clock id _ _ h

-- The row of a message.
abbrev pub row_of : ℕ → ℕ → NewMessage → MessageRow
row_of id now msg = record {
  id = id;
  msg_type = msg.msg_type;
  from_key = msg.from_key;
  channel_idx = msg.channel_idx;
  text = msg.text;
  timestamp = msg.timestamp;
  received_at = some now;
  frame = some msg.frame;
  origin = msg.origin;
}

-- The table with a message behind it, if there is one.
abbrev pub with_message : ℕ → Option NewMessage → Db → List MessageRow
with_message now none db = db.messages
with_message now (some msg) db = db.messages ++ row_of (db.message_seq + 1) now msg ∷ []

-- The database after the statement.
abbrev inserted : ℕ → NewMessage → Db → Db
inserted now msg db = record db {
  messages = with_message now (some msg) db;
  message_seq = db.message_seq + 1;
}

insert_message-runs :
    (now : ℕ) (msg : NewMessage) (db : Db)
    → db.outcomes ≡ []
    → insert_message now msg db ≡ (ok (db.message_seq + 1), inserted now msg db)
unfolding insert_message
insert_message-runs now msg db runs = rw runs refl

pub store_message-rows :
    (clock : Clock) (msg : NewMessage) (c : Core)
    → c.db.outcomes ≡ []
    → (store_message clock msg c).db.messages ≡ with_message clock.unix (some msg) c.db
unfolding store_message
store_message-rows clock msg c runs =
    ap (λ r. (after_insert clock (r.0, record c { db = r.1 })).db.messages)
      (insert_message-runs clock.unix msg c.db runs)
    ∙ follow_head-rows (with_message clock.unix (some msg) c.db) clock (c.db.message_seq + 1)
        (record c { db = inserted clock.unix msg c.db }) refl

-- The decoder on the two message frames that it reads for the cache.

abbrev pub contact_map : (Bytes → Bytes) → Bytes → Map
contact_map hex_encode p =
    ("from", string (hex_encode (slice 1 7 p)))
    ∷ ("path_len", integer (byte_at p 7))
    ∷ ("timestamp", integer (u32_at p 9))
    ∷ ("text", string (from_utf8_lossy (drop 13 p)))
    ∷ ("type", name_in ("text" ∷ "command" ∷ "signed" ∷ []) (byte_at p 8))
    ∷ []

abbrev pub channel_map : Bytes → Map
channel_map p =
    ("channel", integer (byte_at p 1))
    ∷ ("path_len", integer (byte_at p 2))
    ∷ ("timestamp", integer (u32_at p 4))
    ∷ ("text", string (from_utf8_lossy (drop 8 p)))
    ∷ ("type", name_in ("text" ∷ "command" ∷ []) (byte_at p 3))
    ∷ []

pub decode-contact :
    (hex_encode : Bytes → Bytes) (b : ℕ) (rest : Bytes)
    → decode_response_payload hex_encode 0x07 (b ∷ rest)
      ≡ some (if leb 13 (length (b ∷ rest)) then some (contact_map hex_encode (b ∷ rest)) else none)
unfolding decode_response_payload first_match response_arms decode_message
decode-contact hex_encode b rest =
    let p = b ∷ rest in
    elim (Bool-cases (leb 13 (length p))) [
      | inl whole ↦
          let h : 13 ≤ length p = leb→le 13 (length p) whole in
          rw
            (
              whole,
              range-slice 1 7 p (omega arith) (omega (arith, h)),
              index-byte_at 7 p (omega (arith, h)),
              index-byte_at 8 p (omega (arith, h)),
              range-slice 9 13 p (omega arith) (omega (arith, h)),
            )
            refl
      | inr cut ↦ rw cut refl
    ]

pub decode-channel :
    (hex_encode : Bytes → Bytes) (b : ℕ) (rest : Bytes)
    → decode_response_payload hex_encode 0x08 (b ∷ rest)
      ≡ some (if leb 9 (length (b ∷ rest)) then some (channel_map (b ∷ rest)) else none)
unfolding decode_response_payload first_match response_arms decode_message_channel
decode-channel hex_encode b rest =
    let p = b ∷ rest in
    elim (Bool-cases (leb 9 (length p))) [
      | inl whole ↦
          let h : 9 ≤ length p = leb→le 9 (length p) whole in
          rw
            (
              whole,
              index-byte_at 1 p (omega (arith, h)),
              index-byte_at 2 p (omega (arith, h)),
              index-byte_at 3 p (omega (arith, h)),
              range-slice 4 8 p (omega arith) (omega (arith, h)),
            )
            refl
      | inr cut ↦ rw cut refl
    ]
