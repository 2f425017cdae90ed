-- ===== src/Node/Purge.antt =====
-- What the retention settings take away (src/node/state.rs, `maintain`).
use Prim.Native.String.{String}
use coresplitter.Base.{
  ℕ, ◌+◌, ◌*◌, ◌≤◌, ◌≡◌, refl, sym, ap, ◌∙◌, true, false, ◌&&◌, ◌⊎◌, inl, inr, Option, none, some,
  arith, ltb, Bool-cases, tests,
}
use coresplitter.Base.Bytes.{Bytes}
use coresplitter.Node.Sql.Laws.{Found, Found-delete}
use coresplitter.Node.Db.{Db, Query, ◌>>=◌, pure}
use coresplitter.Node.Db.Laws.{Keeps, >>=-Keeps, >>=-Keeps_value, statement-Keeps}
use coresplitter.Node.Db.Tables.{ContactRow}
use coresplitter.Node.State.{
  Retention, PurgeStats, maintain, contacts_synced_at, purge_messages, purge_raw_rx, purge_contacts,
  purge_clients, purge_missing, when_set, pragma, vacuum, maintain_clients, maintain_contacts,
  maintain_raw_rx, coalesce, before_cutoff, secs_per_day, decode_synced_at, kv_get,
}
use coresplitter.Node.Kv.{value_in, contacts_synced_at-ok}

module _ (I : Db → Type 0) where
  when_set-Keeps :
      (days : ℕ) (purge : ℕ → Query ℕ)
      → ((db : Db) → I db → ltb 0 days ≡ true → I (purge days db).1)
      → Keeps I (when_set days purge)
  when_set-Keeps days purge k db h = elim (Bool-cases (ltb 0 days)) [
    | inl set ↦ rw set (k db h set)
    | inr off ↦ rw off h
  ]

-- When the last full sync of the contacts began, if that is recorded.
abbrev pub synced_in : Db → Option ℕ
synced_in db = decode_synced_at (value_in "contacts_synced_at" db.kv_store)

-- Why a contact stays: contacts are kept for ever, no sync is recorded, the last sync reported it, or it
-- was seen within the retention.
abbrev pub IsSafe : ℕ → Retention → Db → ContactRow → Type 0
IsSafe now retention db row =
    let seen = coalesce row.seen_at 0 in
    (retention.contacts_days ≡ 0)
    ⊎ (synced_in db ≡ none)
    ⊎ ((synced : ℕ) × (synced_in db ≡ some synced) × (synced ≤ seen))
    ⊎ (now ≤ seen + retention.contacts_days * secs_per_day)

module _ (now : ℕ) (retention : Retention) (start : Db) (row : ContactRow) where
  -- The contact is there, and the record of the sync is as it was.
  abbrev Stays : Db → Type 0
  Stays db = Found (λ r. r ≡ row) db.contacts × (db.kv_store ≡ start.kv_store)

  purge_messages-Stays : (days : ℕ) → Keeps Stays (purge_messages now days)
  unfolding purge_messages
  purge_messages-Stays days = statement-Keeps Stays _ (λ db later h. h) (λ db h. h)

  purge_raw_rx-Stays : (days : ℕ) → Keeps Stays (purge_raw_rx now days)
  unfolding purge_raw_rx
  purge_raw_rx-Stays days = statement-Keeps Stays _ (λ db later h. h) (λ db h. h)

  purge_clients-Stays : (days : ℕ) → Keeps Stays (purge_clients now days)
  unfolding purge_clients
  purge_clients-Stays days = statement-Keeps Stays _ (λ db later h. h) (λ db h. h)

  purge_contacts-Stays :
      (days synced : ℕ)
      → (synced ≤ coalesce row.seen_at 0) ⊎ (now ≤ coalesce row.seen_at 0 + days * secs_per_day)
      → Keeps Stays (purge_contacts now days synced)
  unfolding purge_contacts
  purge_contacts-Stays days synced safe =
      statement-Keeps Stays _ (λ db later h. h)
        λ db h. (Found-delete _ row db.contacts (spared safe) h.0, h.1)
    where
      spared :
          (synced ≤ coalesce row.seen_at 0) ⊎ (now ≤ coalesce row.seen_at 0 + days * secs_per_day)
          → (ltb (coalesce row.seen_at 0) synced && before_cutoff now days (coalesce row.seen_at 0))
            ≡ false
      spared (inl reported) = ground arith
      spared (inr recent) = ground arith

  kv_get-Stays : (key : String) → Keeps Stays (kv_get key)
  unfolding kv_get
  kv_get-Stays key = statement-Keeps Stays {A = Option Bytes} _ (λ db later h. h) (λ db h. h)

  contacts_synced_at-Stays : Keeps Stays contacts_synced_at
  unfolding contacts_synced_at
  contacts_synced_at-Stays =
      >>=-Keeps Stays (kv_get "contacts_synced_at") (λ v. pure (decode_synced_at v))
        (kv_get-Stays "contacts_synced_at") (λ a db h. h)

  purge_missing-Stays :
      (days : ℕ) (synced : Option ℕ) (db : Db)
      → days ≡ retention.contacts_days
      → ltb 0 days ≡ true
      → IsSafe now retention start row
      → synced ≡ synced_in db
      → Stays db
      → Stays (purge_missing now days synced db).1
  purge_missing-Stays days none db d set safe e h = h
  purge_missing-Stays days (some synced) db d set safe e h =
      let recorded : synced_in start ≡ some synced =
        sym (ap (λ kv. decode_synced_at (value_in "contacts_synced_at" kv)) h.1) ∙ sym e in
      purge_contacts-Stays days synced (reason safe recorded) db h
    where
      reason :
          IsSafe now retention start row
          → synced_in start ≡ some synced
          → (synced ≤ coalesce row.seen_at 0) ⊎ (now ≤ coalesce row.seen_at 0 + days * secs_per_day)
      reason (inl off) r = absurd (omega (tests, set))
      reason (inr (inl unknown)) r = absurd (cc (sym unknown ∙ r))
      reason (inr (inr (inl (t, known, reported)))) r = inl (ground arith)
      reason (inr (inr (inr recent))) r = inr (rw d recent)

  pragma-Stays : Keeps Stays pragma
  pragma-Stays = statement-Keeps Stays (λ db. (tt {0}, db)) (λ db later h. h) (λ db h. h)

  vacuum-Stays : (stats : PurgeStats) → Keeps Stays (vacuum stats)
  vacuum-Stays stats =
      >>=-Keeps Stays pragma (λ _. pragma >>= λ _. pure stats) pragma-Stays
        (λ _. >>=-Keeps Stays pragma (λ _. pure stats) pragma-Stays (λ _ db h. h))

  maintain_clients-Stays : (m r c : ℕ) → Keeps Stays (maintain_clients now retention m r c)
  unfolding maintain_clients
  maintain_clients-Stays m r c =
      >>=-Keeps Stays (when_set retention.clients_days (purge_clients now))
        (λ k. vacuum (record { messages = m; raw_rx = r; contacts = c; clients = k }))
        (when_set-Keeps Stays retention.clients_days (purge_clients now)
          (λ db h set. purge_clients-Stays retention.clients_days db h))
        (λ k. vacuum-Stays _)

  missing_purge : ℕ → Query ℕ
  missing_purge days = contacts_synced_at >>= purge_missing now days

  missing_purge-Stays :
      IsSafe now retention start row
      → (db : Db) → Stays db
      → ltb 0 retention.contacts_days ≡ true
      → Stays (missing_purge retention.contacts_days db).1
  unfolding missing_purge
  missing_purge-Stays safe db h set =
      >>=-Keeps_value Stays contacts_synced_at (purge_missing now retention.contacts_days) db
        (contacts_synced_at-Stays db h)
        λ synced e.
          purge_missing-Stays retention.contacts_days synced (contacts_synced_at db).1 refl set safe
            (contacts_synced_at-ok db (contacts_synced_at db).1 synced
                (λ i. (e i, (contacts_synced_at db).1))
              ∙ ap (λ kv. decode_synced_at (value_in "contacts_synced_at" kv))
                  (h.1 ∙ sym (contacts_synced_at-Stays db h).1))
            (contacts_synced_at-Stays db h)

  maintain_contacts-Stays :
      IsSafe now retention start row → (m r : ℕ) → Keeps Stays (maintain_contacts now retention m r)
  unfolding maintain_contacts missing_purge
  maintain_contacts-Stays safe m r =
      >>=-Keeps Stays (when_set retention.contacts_days missing_purge)
        (maintain_clients now retention m r)
        (when_set-Keeps Stays retention.contacts_days missing_purge (missing_purge-Stays safe))
        (maintain_clients-Stays m r)

  maintain_raw_rx-Stays :
      IsSafe now retention start row → (m : ℕ) → Keeps Stays (maintain_raw_rx now retention m)
  unfolding maintain_raw_rx
  maintain_raw_rx-Stays safe m =
      >>=-Keeps Stays (when_set retention.raw_rx_days (purge_raw_rx now))
        (maintain_contacts now retention m)
        (when_set-Keeps Stays retention.raw_rx_days (purge_raw_rx now)
          (λ db h set. purge_raw_rx-Stays retention.raw_rx_days db h))
        (maintain_contacts-Stays safe m)

-- Whatever the other settings do and however far the maintenance gets before a statement fails, it drops
-- no contact while contacts are kept for ever, while no full sync is recorded, that the last full sync
-- reported, or that was seen within the retention.
pub maintain-contacts :
    (now : ℕ) (retention : Retention) (db : Db) (row : ContactRow)
    → IsSafe now retention db row
    → Found (λ r. r ≡ row) db.contacts
    → Found (λ r. r ≡ row) (maintain now retention db).1.contacts
unfolding maintain
maintain-contacts now retention db row safe there =
    (>>=-Keeps (Stays now retention db row) (when_set retention.messages_days (purge_messages now))
      (maintain_raw_rx now retention)
      (when_set-Keeps (Stays now retention db row) retention.messages_days (purge_messages now)
        (λ d h set. purge_messages-Stays now retention db row retention.messages_days d h))
      (maintain_raw_rx-Stays now retention db row safe) db (there, refl)).0
