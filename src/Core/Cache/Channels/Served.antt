-- ===== src/Core/Cache/Channels/Served.antt =====
-- GET_CHANNEL after the radio reported the channel (src/core.rs, `cache_response` and `try_serve_from_cache`).
use coresplitter.Base.{
  not, subst, ℕ, ◌≤◌, ◌<◌, ◌≡◌, inl, inr, refl, sym, ap, ◌∙◌, Bool, true, false, some, List, [],
  ◌∷◌, ◌++◌, arith, leb, ◌==◌, if◌then◌else◌, Bool-cases, length, get_elem?,
}
use coresplitter.Base.Bytes.{Bytes}
use coresplitter.Node.Sql.{delete, order_by}
use coresplitter.Node.Sql.Laws.{Found, Found-append, Found-select}
use coresplitter.Node.Db.{Db, ok}
use coresplitter.Node.Db.Tables.{CachedChannel}
use coresplitter.Node.State.{upsert_channel, get_channels}
use coresplitter.Protocol.Decode.Chain.{some-inner}
use coresplitter.Core.State.{Core, Clock, ClientCommand}
use coresplitter.Core.Clients.{send_to_client}
use coresplitter.Core.Cached.{
  channel_frame, channel_at, try_serve_from_cache, serve_channel, serve_found,
}
use coresplitter.Core.Cache.{cache_response, cache_undecoded, cache_channel, channel_info_of}
use coresplitter.Node.Contacts.Listed.{Found-order_by}
use coresplitter.Core.Cache.Channels.{
  IsPlain, channel_info, channel_frame-channel_info_of, length-channel_info,
}

-- The only row with this index.
channel_at-only :
    (idx : ℕ) (channel : CachedChannel) (rows : List CachedChannel)
    → Found (λ row. row ≡ channel) rows
    → ((row : CachedChannel) → Found (λ r. r ≡ row) rows → (row.idx == idx) ≡ true → row ≡ channel)
    → (channel.idx == idx) ≡ true
    → channel_at idx rows ≡ some channel
channel_at-only idx channel [] f only e = absurd f
channel_at-only idx channel (row ∷ rows) f only e = elim (Bool-cases (row.idx == idx)) [
  | inl here ↦ rw here (ap some (only row (inl refl) here))
  | inr other ↦ rw other (elim f [
    | inl same ↦ absurd (cc (sym other ∙ ap (λ r. r.idx == idx) same ∙ e))
    | inr later ↦ channel_at-only idx channel rows later (λ r g k. only r (inr g) k) e
  ])
]

Found-elim :
    {A : Type 0} (P : A → Type 0) (Q : Type 0) (xs : List A) → ((x : A) → P x → Q) → Found P xs → Q
Found-elim P Q [] k f = absurd f
Found-elim P Q (x ∷ xs) k (inl p) = k x p
Found-elim P Q (x ∷ xs) k (inr f) = Found-elim P Q xs k f

abbrev has_idx : ℕ → CachedChannel → Bool
has_idx idx row = row.idx == idx

-- What is left after the delete has another index.
Found-delete_idx :
    (idx : ℕ) (row : CachedChannel) (rows : List CachedChannel)
    → Found (λ r. r ≡ row) (delete (has_idx idx) rows)
    → has_idx idx row ≡ false
unfolding delete
Found-delete_idx idx row rows f =
    Found-elim (λ x. (x ≡ row) × (not (has_idx idx x) ≡ true)) (has_idx idx row ≡ false) rows
      (λ x p. ap (has_idx idx) (sym p.0) ∙ ground (arith, p.1))
      ((Found-select (λ r. r ≡ row) (λ r. not (has_idx idx r)) rows).0 f)

-- The rows after `upsert_channel`, in the order of the answer.
abbrev replaced : CachedChannel → List CachedChannel → List CachedChannel
replaced channel rows = delete (has_idx channel.idx) rows ++ channel ∷ []

abbrev by_idx : CachedChannel → CachedChannel → Bool
by_idx a b = leb a.idx b.idx

channel_at-replaced :
    (channel : CachedChannel) (rows : List CachedChannel)
    → channel_at channel.idx (order_by by_idx (replaced channel rows)) ≡ some channel
channel_at-replaced channel rows =
    let all = replaced channel rows in
    let split = λ (row : CachedChannel).
      Found-append (λ r. r ≡ row) (delete (has_idx channel.idx) rows) (channel ∷ []) in
    channel_at-only channel.idx channel (order_by by_idx all)
      ((Found-order_by (λ r. r ≡ channel) by_idx all).1 ((split channel).1 (inr (inl refl))))
      (λ row f e. elim ((split row).0 ((Found-order_by (λ r. r ≡ row) by_idx all).0 f)) [
        | inl old ↦ absurd (cc (sym e ∙ Found-delete_idx channel.idx row rows old))
        | inr new ↦ elim new [ inl same ↦ sym same | inr none_left ↦ absurd none_left ]
      ])
      (ground arith)

abbrev stored : CachedChannel → Db → Db
stored channel db = record db { channels = replaced channel db.channels }

upsert_channel-runs :
    (channel : CachedChannel) (db : Db)
    → db.outcomes ≡ []
    → (upsert_channel channel db).1 ≡ record (stored channel db) { outcomes = [] }
unfolding upsert_channel
upsert_channel-runs channel db runs = rw runs refl

channel_cached :
    (hex_encode : Bytes → Bytes) (clock : Clock) (payload : Bytes) (c d : Core)
    → 50 ≤ length payload
    → c.db.outcomes ≡ []
    → cache_response hex_encode clock 0x12 payload c ≡ some d
    → record c { db = record (stored (channel_info_of payload) c.db) { outcomes = [] } } ≡ d
unfolding cache_response cache_undecoded
channel_cached hex_encode clock payload c d h runs e =
    let long : leb 50 (length payload) ≡ true = ground (arith, h) in
    ap (λ db. record c { db = db }) (sym (upsert_channel-runs (channel_info_of payload) c.db runs))
    ∙ ap (λ test. if test then cache_channel payload c else c) (sym long)
    ∙ some-inner e

serve_channel-stored :
    (cmd : ClientCommand) (channel : CachedChannel) (c : Core)
    → get_elem? cmd.payload 1 ≡ some channel.idx
    → let d = record c { db = record (stored channel c.db) { outcomes = [] } } in
      try_serve_from_cache 0x1F cmd d
      ≡ (true, send_to_client cmd.client_id (channel_frame channel) d)
unfolding try_serve_from_cache get_channels
serve_channel-stored cmd channel c asked =
    let d = record c { db = record (stored channel c.db) { outcomes = [] } } in
    let rows = order_by by_idx (replaced channel c.db.channels) in
    ap (λ idx. serve_channel cmd.client_id idx (ok rows, d)) asked
    ∙ ap (λ found. serve_found cmd.client_id found d) (channel_at-replaced channel c.db.channels)

-- While no statement fails, a CHANNEL_INFO of the radio, of 50 bytes or more with a name of ASCII characters filled
-- up with zeros, is what GET_CHANNEL for that index is answered with from then on: its first 50 bytes.
pub try_serve_from_cache-cache_response :
    (hex_encode : Bytes → Bytes) (clock : Clock) (idx : ℕ) (name secret more : Bytes)
    (cmd : ClientCommand) (c d : Core)
    → idx < 256
    → IsPlain name
    → length name ≤ 32
    → length secret ≡ 16
    → c.db.outcomes ≡ []
    → cache_response hex_encode clock 0x12 (channel_info idx name secret more) c ≡ some d
    → get_elem? cmd.payload 1 ≡ some idx
    → try_serve_from_cache 0x1F cmd d
      ≡ (true, send_to_client cmd.client_id (channel_info idx name secret []) d)
unfolding channel_info_of
try_serve_from_cache-cache_response hex_encode clock idx name secret more cmd c d small plain short
      whole runs e asked =
    let info = channel_info idx name secret more in
    let channel = channel_info_of info in
    let stored_core = record c { db = record (stored channel c.db) { outcomes = [] } } in
    subst
      (λ x.
        try_serve_from_cache 0x1F cmd x
        ≡ (true, send_to_client cmd.client_id (channel_info idx name secret []) x))
      (channel_cached hex_encode clock info c d
        (length-channel_info idx name secret more short whole) runs e)
      (serve_channel-stored cmd channel c asked
        ∙ ap (λ frame. (true, send_to_client cmd.client_id frame stored_core))
            (channel_frame-channel_info_of idx name secret more small plain short whole))
