-- ===== src/Node/Replay.antt =====
-- What src/node/state.rs replays to a client: the stored messages above its cursor, or the backlog of a
-- client seen for the first time.
use coresplitter.Base.{
  ℕ, ◌-◌, ◌≤◌, ◌<◌, ◌≡◌, ◌≢◌, ◌↔◌, refl, sym, ap, ◌∙◌, Bool, true, false, ◌&&◌, inl, inr, Option,
  none, some, List, [], ◌∷◌, arith, leb, ltb, length, take, drop, Bool-cases,
}
use coresplitter.Base.Bytes.{Bytes, All, bytes_eq_iff}
use coresplitter.Node.Sql.{select, order_by}
use coresplitter.Node.Sql.Laws.{Found}
use coresplitter.Node.Sql.Order.{
  IsIncreasing, take-reverse, order_by-desc, order_by-reverse, order_by-increasing,
  IsIncreasing-drop,
}
use coresplitter.Node.Db.{Db, ok}
use coresplitter.Node.Db.Tables.{MessageRow, Origin}
use coresplitter.Node.State.{
  ids, replayable_to, is_origin, has_frame, message_ids_after, backlog_message_ids, messages,
}

-- The ids of the stored messages grow, from 1, and AUTOINCREMENT has given none above `message_seq`.
pub record IsOrdered (db : Db) : Type 0 where
  pub increasing : IsIncreasing (ids db.messages)
  pub positive : All (λ id. 0 < id) (ids db.messages)
  pub below : All (λ id. id ≤ db.message_seq) (ids db.messages)

All-select {ℓ} :
    (P : ℕ → Type ℓ) (p : MessageRow → Bool) (rows : List MessageRow)
    → All P (ids rows)
    → All P (ids (select p rows))
unfolding select
All-select P p [] h = h
All-select P p (row ∷ rows) h = elim (Bool-cases (p row)) [
  | inl keep ↦ rw keep (h.0, All-select P p rows h.1)
  | inr out ↦ rw out (All-select P p rows h.1)
]

pub IsIncreasing-select :
    (p : MessageRow → Bool) (rows : List MessageRow)
    → IsIncreasing (ids rows)
    → IsIncreasing (ids (select p rows))
unfolding select
IsIncreasing-select p [] h = tt
IsIncreasing-select p (row ∷ rows) h = elim (Bool-cases (p row)) [
  | inl keep ↦ rw keep (All-select (λ y. row.id < y) p rows h.0, IsIncreasing-select p rows h.1)
  | inr out ↦ rw out (IsIncreasing-select p rows h.1)
]

-- The id is in the list.
abbrev pub Listed : ℕ → List ℕ → Type 0
Listed id = Found (λ x. x ≡ id)

abbrev missed : ℕ → ℕ → Bytes → MessageRow → Bool
missed after port app_name row = ltb after row.id && replayable_to port app_name row

message_ids_after-ok :
    (after port : ℕ) (app_name : Bytes) (db db' : Db) (l : List ℕ)
    → message_ids_after after port app_name db ≡ (ok l, db')
    → l ≡ order_by leb (ids (select (missed after port app_name) db.messages))
unfolding message_ids_after
message_ids_after-ok after port app_name db db' l e = ground arith

backlog-ok :
    (now n port : ℕ) (app_name : Bytes) (db db' : Db) (l : List ℕ)
    → backlog_message_ids now (messages n) port app_name db ≡ (ok l, db')
    → l
      ≡ order_by leb (
          take n
            (order_by (λ a b. leb b a) (ids (select (replayable_to port app_name) db.messages))))
unfolding backlog_message_ids
backlog-ok now n port app_name db db' l e = ground arith

-- A message that the client with this cursor still has to get.
abbrev pub IsMissed : ℕ → ℕ → Bytes → ℕ → MessageRow → Type 0
IsMissed after port app_name id row =
    (row.id ≡ id) × (after < id) × (row.frame ≢ none) × (row.origin ≢ some (port, app_name))

is_origin_iff :
    (port : ℕ) (app_name : Bytes) (origin : Origin)
    → (is_origin port app_name origin ≡ true) ↔ (origin ≡ some (port, app_name))
is_origin_iff port app_name none = (λ e. cc, λ e. cc)
is_origin_iff port app_name (some (p, app)) = ground (arith, bytes_eq_iff app app_name)

foreign_iff :
    (port : ℕ) (app_name : Bytes) (origin : Origin)
    → (is_origin port app_name origin ≡ false) ↔ (origin ≢ some (port, app_name))
foreign_iff port app_name origin =
    let (to, back) = is_origin_iff port app_name origin in
    (
      λ e k. cc (sym e ∙ back k),
      λ n. elim (Bool-cases (is_origin port app_name origin)) [
        | inl e ↦ absurd (n (to e))
        | inr e ↦ e
      ],
    )

has_frame_iff : (frame : Option Bytes) → (has_frame frame ≡ true) ↔ (frame ≢ none)
has_frame_iff none = (λ e. cc, λ e. absurd (e refl))
has_frame_iff (some b) = (λ e. λ k. cc, λ e. refl)

missed_iff :
    (after port : ℕ) (app_name : Bytes) (row : MessageRow)
    → (missed after port app_name row ≡ true) ↔ IsMissed after port app_name row.id row
missed_iff after port app_name row = (
  λ e. (
    refl,
    ground arith,
    (has_frame_iff row.frame).0 (ground arith),
    (foreign_iff port app_name row.origin).0 (ground arith),
  ),
  λ m.
      ground (arith, (has_frame_iff row.frame).1 m.2, (foreign_iff port app_name row.origin).1 m.3),
)

IsMissed-id :
    (after port : ℕ) (app_name : Bytes) {id : ℕ} (row : MessageRow)
    → IsMissed after port app_name id row
    → IsMissed after port app_name row.id row
IsMissed-id after port app_name row (e, above, framed, other) = (refl, omega arith, framed, other)

missed-Listed :
    (after port : ℕ) (app_name : Bytes) (id : ℕ) (rows : List MessageRow)
    → Listed id (ids (select (missed after port app_name) rows))
      ↔ Found (IsMissed after port app_name id) rows
unfolding select
missed-Listed after port app_name id [] = (λ f. f, λ f. f)
missed-Listed after port app_name id (row ∷ rows) =
    let rest = missed-Listed after port app_name id rows in
    elim (Bool-cases (missed after port app_name row)) [
      | inl keep ↦
          let (_, above, framed, other) = (missed_iff after port app_name row).0 keep in
          rw keep (
            λ f. elim f [ inl e ↦ inl (e, omega arith, framed, other) | inr g ↦ inr (rest.0 g) ],
            λ f. elim f [ inl m ↦ inl m.0 | inr g ↦ inr (rest.1 g) ],
          )
      | inr out ↦ rw out (
        λ f. inr (rest.0 f),
        λ f. elim f [
          | inl m ↦ absurd (
              cc (
                sym out
                ∙ (missed_iff after port app_name row).1 (IsMissed-id after port app_name row m)))
          | inr g ↦ rest.1 g
        ],
      )
    ]

-- A client that comes back gets exactly the messages with a stored frame that lie above its cursor and
-- that it did not send itself, oldest first.
pub message_ids_after-IsMissed :
    (after port : ℕ) (app_name : Bytes) (db db' : Db) (l : List ℕ)
    → IsOrdered db
    → message_ids_after after port app_name db ≡ (ok l, db')
    → IsIncreasing l
      × ((id : ℕ) → Listed id l ↔ Found (IsMissed after port app_name id) db.messages)
message_ids_after-IsMissed after port app_name db db' l v e =
    let kept = IsIncreasing-select (missed after port app_name) db.messages v.increasing in
    let plain : l ≡ ids (select (missed after port app_name) db.messages) =
      message_ids_after-ok after port app_name db db' l e ∙ order_by-increasing _ kept in
    rw plain (kept, λ id. missed-Listed after port app_name id db.messages)

positive-missed :
    (port : ℕ) (app_name : Bytes) (rows : List MessageRow)
    → All (λ id. 0 < id) (ids rows)
    → select (missed 0 port app_name) rows ≡ select (replayable_to port app_name) rows
unfolding select
positive-missed port app_name [] h = refl
positive-missed port app_name (row ∷ rows) h =
    ground (arith, positive-missed port app_name rows h.1, h.0)

-- The backlog of N messages is the end of what the client would get if it had never seen any message: the
-- last N of those, still oldest first.
pub backlog_message_ids-last :
    (now n port : ℕ) (app_name : Bytes) (db db₁ db₂ : Db) (all last : List ℕ)
    → IsOrdered db
    → message_ids_after 0 port app_name db ≡ (ok all, db₁)
    → backlog_message_ids now (messages n) port app_name db ≡ (ok last, db₂)
    → last ≡ drop (length all - n) all
backlog_message_ids-last now n port app_name db db₁ db₂ all last v e f =
    let rows = select (replayable_to port app_name) db.messages in
    let kept = IsIncreasing-select (replayable_to port app_name) db.messages v.increasing in
    let plain : all ≡ ids rows =
      message_ids_after-ok 0 port app_name db db₁ all e
      ∙ ap (λ l. order_by leb (ids l)) (positive-missed port app_name db.messages v.positive)
      ∙ order_by-increasing (ids rows) kept in
    rw plain (
      backlog-ok now n port app_name db db₂ last f
      ∙ ap (λ l. order_by leb (take n l)) (order_by-desc (ids rows) kept)
      ∙ ap (order_by leb) (take-reverse n (ids rows))
      ∙ order_by-reverse (drop (length (ids rows) - n) (ids rows))
          (IsIncreasing-drop (length (ids rows) - n) (ids rows) kept))
