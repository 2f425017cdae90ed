-- ===== src/Core/Connect/Restore/Laws.antt =====
-- What a start without a radio restores (src/core.rs, `run`) is what the radio's answers told.
use Prim.Native.String.{String}
use coresplitter.Base.{
  leb, length, if◌then◌else◌, ℕ, ◌≡◌, refl, sym, ap, ◌∙◌, subst, Option, none, some, [],
}
use coresplitter.Base.Bytes.{Bytes, slice}
use coresplitter.Node.Db.{Result, ok, err}
use coresplitter.Node.State.{kv_get, kv_set}
use coresplitter.Node.Kv.{value_in, replaced, value_in-replaced}
use coresplitter.Protocol.Decode.{Map, ◌>>=◌}
use coresplitter.Protocol.Decode.Chain.{bind-some, some-inner}
use coresplitter.Protocol.Decode.Response.{decode_response_payload}
use coresplitter.Core.State.{Core, Clock, with_db}
use coresplitter.Core.Cache.{
  cache_response, extract_radio_identity, extract_max_channels, name_in_blob, channels_in_blob,
}
use coresplitter.Core.Connect.Restore.{
  with_blob, restore, restore_blobs, load_self_info, load_device_info, load_battery,
}

-- What the two answers of the radio told.
abbrev pub SameRadio : Core → Core → Type 0
SameRadio c d =
    (c.self_info_raw ≡ d.self_info_raw)
    × (c.device_info_raw ≡ d.device_info_raw)
    × (c.radio_pubkey ≡ d.radio_pubkey)
    × (c.radio_name ≡ d.radio_name)
    × (c.max_channels ≡ d.max_channels)

-- The state with what the blob tells.
abbrev self_told : Bytes → Option Map → Core → Core
self_told p decoded c = record c {
  radio_pubkey = if leb 36 (length p) then some (slice 4 36 p) else c.radio_pubkey;
  radio_name = name_in_blob decoded c.radio_name;
  self_info_raw = some p;
}

abbrev device_told : Bytes → Option Map → Core → Core
device_told p decoded c = record c {
  max_channels = channels_in_blob decoded c.max_channels;
  device_info_raw = some p;
}

-- The state with the blob in the database.
abbrev kept : String → Bytes → Core → Core
kept key p c = record c {
  db = record c.db { kv_store = replaced key p c.db.kv_store; outcomes = [] };
}

kv_set-runs :
    (key : String) (p : Bytes) (c : Core)
    → c.db.outcomes ≡ []
    → (with_db (kv_set key p) c).1 ≡ kept key p c
unfolding kv_set
kv_set-runs key p c runs = rw runs refl

kv_get-runs :
    (key : String) (c : Core)
    → c.db.outcomes ≡ []
    → with_db (kv_get key) c ≡ (ok (value_in key c.db.kv_store), c)
unfolding kv_get
kv_get-runs key c runs = rw runs refl

bind-chain :
    {A B C : Type 0} (m : Option A) (f : A → B) (g : B → C)
    → (m >>= (λ a. some (f a)) >>= λ b. some (g b)) ≡ (m >>= λ a. some (g (f a)))
bind-chain none f g = refl
bind-chain (some a) f g = refl

module _ (hex_encode : Bytes → Bytes) where
  abbrev decode : ℕ → Bytes → Option (Option Map)
  decode = decode_response_payload hex_encode

  load_self_info-told :
      (p : Bytes) (c : Core)
      → load_self_info hex_encode p c ≡ (decode 0x05 p >>= λ decoded. some (self_told p decoded c))
  unfolding extract_radio_identity
  load_self_info-told p c = bind-chain (decode 0x05 p) _ _

  load_device_info-told :
      (p : Bytes) (c : Core)
      → load_device_info hex_encode p c
        ≡ (decode 0x0D p >>= λ decoded. some (device_told p decoded c))
  unfolding extract_max_channels
  load_device_info-told p c = bind-chain (decode 0x0D p) _ _

  -- Caching a blob keeps it in the database and loads it.
  cached-self_info :
      (clock : Clock) (p : Bytes) (c d : Core)
      → c.db.outcomes ≡ []
      → cache_response hex_encode clock 0x05 p c ≡ some d
      → load_self_info hex_encode p (kept "self_info_raw" p c) ≡ some d
  unfolding cache_response
  cached-self_info clock p c d runs e =
      ap (load_self_info hex_encode p) (sym (kv_set-runs "self_info_raw" p c runs)) ∙ e

  cached-device_info :
      (clock : Clock) (p : Bytes) (c d : Core)
      → c.db.outcomes ≡ []
      → cache_response hex_encode clock 0x0D p c ≡ some d
      → load_device_info hex_encode p (kept "device_info_raw" p c) ≡ some d
  unfolding cache_response
  cached-device_info clock p c d runs e =
      ap (load_device_info hex_encode p) (sym (kv_set-runs "device_info_raw" p c runs)) ∙ e

  restore-load :
      (key : String) (load : Bytes → Core → Option Core) (p : Bytes) (c : Core)
      → c.db.outcomes ≡ []
      → value_in key c.db.kv_store ≡ some p
      → restore hex_encode key load none c ≡ load p c
  restore-load key load p c runs e =
      ap (with_blob load) (kv_get-runs key c runs) ∙ ap (λ v. with_blob load (ok v, c)) e

  blob-SameRadio :
      (r : Result (Option Bytes) × Core)
      → (d : Core) × (with_blob (load_battery hex_encode) r ≡ some d) × SameRadio d r.1
  blob-SameRadio (ok (some blob), c) =
      (record c { battery_info_raw = some blob }, refl, (refl, refl, refl, refl, refl))
  blob-SameRadio (ok none, c) = (c, refl, (refl, refl, refl, refl, refl))
  blob-SameRadio (err, c) = (c, refl, (refl, refl, refl, refl, refl))

  restore_battery-SameRadio :
      (known : Option Bytes) (c : Core)
      → (d : Core) × (restore hex_encode "battery_info_raw" (load_battery hex_encode) known c
          ≡ some d)
        × SameRadio d c
  restore_battery-SameRadio none c = blob-SameRadio (with_db (kv_get "battery_info_raw") c)
  restore_battery-SameRadio (some blob) c = (c, refl, (refl, refl, refl, refl, refl))

  module _ (c : Core) (p q : Bytes) (self_map device_map : Option Map) where
    -- After the two answers.
    abbrev answered : Core
    answered =
        device_told q device_map
          (kept "device_info_raw" q (self_told p self_map (kept "self_info_raw" p c)))

    -- The next start, with the first blob and with both.
    abbrev loaded_self : Core
    loaded_self = self_told p self_map (record c { db = answered.db })

    abbrev loaded_both : Core
    loaded_both = device_told q device_map loaded_self

    restored :
        (c.self_info_raw ≡ none)
        → (c.device_info_raw ≡ none)
        → (decode 0x05 p ≡ some self_map)
        → (decode 0x0D q ≡ some device_map)
        → (g : Core) × (restore_blobs hex_encode (record c { db = answered.db }) ≡ some g)
          × SameRadio g answered
    unfolding restore_blobs
    restored no_self no_device self_read device_read =
        let start = record c { db = answered.db } in
        let (g, e, same) = restore_battery-SameRadio loaded_both.battery_info_raw loaded_both in
        let battery = λ (x : Core).
          restore hex_encode "battery_info_raw" (load_battery hex_encode) x.battery_info_raw x in
        let device = λ (x : Core).
          restore hex_encode "device_info_raw" (load_device_info hex_encode) x.device_info_raw x
          >>= battery in
        let found =
          restore-load "self_info_raw" (load_self_info hex_encode) p start refl (
            value_in-replaced "device_info_raw" "self_info_raw" q
              (replaced "self_info_raw" p c.db.kv_store)
            ∙ value_in-replaced "self_info_raw" "self_info_raw" p c.db.kv_store)
          ∙ load_self_info-told p start
          ∙ ap (λ m. m >>= λ decoded. some (self_told p decoded start)) self_read in
        let found_device =
          restore-load "device_info_raw" (load_device_info hex_encode) q loaded_self refl (
            value_in-replaced "device_info_raw" "device_info_raw" q
              (replaced "self_info_raw" p c.db.kv_store))
          ∙ load_device_info-told q loaded_self
          ∙ ap (λ m. m >>= λ decoded. some (device_told q decoded loaded_self)) device_read in
        (
          g,
          ap
                (λ known.
                  restore hex_encode "self_info_raw" (load_self_info hex_encode) known start
                  >>= device)
                no_self
              ∙ ap (λ m. m >>= device) found
              ∙ ap
                  (λ known.
                    restore hex_encode "device_info_raw" (load_device_info hex_encode) known
                      loaded_self
                    >>= battery)
                  no_device
              ∙ ap (λ m. m >>= battery) found_device
              ∙ e,
          same,
        )

  -- Where the radio answered with SELF_INFO and DEVICE_INFO and no statement failed, a core that starts again from
  -- the same state on that database, without a radio, restores what the answers told: both blobs, the public key
  -- and the name of the radio, and the number of channels. The decoder does not panic then.
  pub restore_blobs-cache_response :
      (clock clock' : Clock) (p q : Bytes) (c d e : Core)
      → c.self_info_raw ≡ none
      → c.device_info_raw ≡ none
      → c.db.outcomes ≡ []
      → cache_response hex_encode clock 0x05 p c ≡ some d
      → cache_response hex_encode clock' 0x0D q d ≡ some e
      → (g : Core) × (restore_blobs hex_encode (record c { db = e.db }) ≡ some g) × SameRadio g e
  restore_blobs-cache_response clock clock' p q c d e no_self no_device runs cached cached' =
      let c₁ = kept "self_info_raw" p c in
      let (self_map, self_read, told) =
        bind-some (decode 0x05 p) (λ decoded. some (self_told p decoded c₁))
          (sym (load_self_info-told p c₁) ∙ cached-self_info clock p c d runs cached) in
      let d₁ = self_told p self_map c₁ in
      let same_d : d₁ ≡ d = some-inner told in
      let cached'' =
        subst (λ x. cache_response hex_encode clock' 0x0D q x ≡ some e) (sym same_d) cached' in
      let c₂ = kept "device_info_raw" q d₁ in
      let (device_map, device_read, told') =
        bind-some (decode 0x0D q) (λ decoded. some (device_told q decoded c₂))
          (sym (load_device_info-told q c₂) ∙ cached-device_info clock' q d₁ e refl cached'') in
      subst
        (λ x.
          (g : Core) × (restore_blobs hex_encode (record c { db = x.db }) ≡ some g) × SameRadio g x)
        (some-inner told')
        (restored c p q self_map device_map no_self no_device self_read device_read)
