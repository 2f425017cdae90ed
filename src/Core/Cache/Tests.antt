-- ===== src/Core/Cache/Tests.antt =====
-- The cache of src/core.rs on single frames of the radio.
use coresplitter.Base.{
  if◌then◌else◌, ◌≢◌, ◌≡◌, ◌↔◌, ◌⊎◌, refl, true, some, [], ◌∷◌, ◌++◌, arith, replicate, take,
}
use coresplitter.Base.Bytes.{Bytes, bytes_eq}
use coresplitter.Node.Sql.{order_by, delete}
use coresplitter.Node.Sql.Laws.{Found}
use coresplitter.Node.Db.Tables.{CachedContact}
use coresplitter.Node.State.{get_contacts, upsert_contact}
use coresplitter.Protocol.Decode.Tests.{hex_encode}
use coresplitter.Core.State.{Core, ClientCommand}
use coresplitter.Core.Clients.{send_to_client}
use coresplitter.Core.Cached.{contact_frame, contact_frame_len, try_serve_from_cache}
use coresplitter.Core.Cache.{
  cache_response, cache_undecoded, contact_of, cache_contact, cache_channel, channel_message_v3,
}
use coresplitter.Core.Sessions.{store_message}
use coresplitter.Node.Contacts.Listed.{how_many, is_under}
use coresplitter.Core.Cache.Contacts.{get_contacts-cache_response}
use coresplitter.Core.Cache.Messages.{with_message}
use coresplitter.Core.Cache.Layouts.{carried_by, cache_response-carried_by}
use coresplitter.Core.Cache.Channels.{channel_info}
use coresplitter.Core.Cache.Channels.Served.{try_serve_from_cache-cache_response}
use coresplitter.Core.Tests.{clock, idle}

abbrev contact_key : Bytes
contact_key = replicate 32 7

abbrev contact_rest : Bytes
contact_rest = 1 ∷ replicate 114 0

abbrev contact_payload : Bytes
contact_payload = 0x03 ∷ contact_key ++ contact_rest

abbrev with_contact : Core
with_contact = cache_contact clock contact_payload idle

contact-cached : cache_response hex_encode clock 0x03 contact_payload idle ≡ some with_contact
unfolding cache_response cache_undecoded
contact-cached = refl

get_contacts-cache_response_example :
    (contact : CachedContact) × (contact.public_key ≡ contact_key)
    × (contact_frame contact ≡ take contact_frame_len contact_payload)
    × ((x : CachedContact)
        → Found (λ y. y ≡ x) (contact_of contact_payload ∷ [])
          ↔ ((contact ≡ x) ⊎ (Found (λ y. y ≡ x) [] × (x.public_key ≢ contact_key))))
    × ((k : Bytes)
        → how_many (is_under k) (contact_of contact_payload ∷ [])
          ≡ (if bytes_eq contact_key k then 1 else how_many (is_under k) []))
unfolding get_contacts upsert_contact order_by delete
get_contacts-cache_response_example =
    get_contacts-cache_response hex_encode clock contact_key contact_rest idle with_contact []
      (contact_of contact_payload ∷ []) idle.db with_contact.db refl (omega arith) refl
      contact-cached refl refl

abbrev message_rest : Bytes
message_rest = 0 ∷ 0 ∷ 0 ∷ 1 ∷ 0 ∷ 0 ∷ 9 ∷ 0 ∷ 0 ∷ 0 ∷ b'h' ∷ b'i' ∷ []

abbrev with_text : Core
with_text = store_message clock (channel_message_v3 (0x11 ∷ message_rest)) idle

text-cached : cache_response hex_encode clock 0x11 (0x11 ∷ message_rest) idle ≡ some with_text
unfolding cache_response cache_undecoded
text-cached = refl

cache_response-carried_by_example :
    with_text.db.messages ≡ with_message 500 (carried_by 0x11 (0x11 ∷ message_rest)) idle.db
cache_response-carried_by_example =
    cache_response-carried_by hex_encode clock 0x11 message_rest idle with_text refl text-cached

abbrev info : Bytes
info = channel_info 1 (b'o' ∷ b'n' ∷ b'e' ∷ []) (replicate 16 5) []

abbrev with_channel : Core
with_channel = cache_channel info idle

channel-cached : cache_response hex_encode clock 0x12 info idle ≡ some with_channel
unfolding cache_response cache_undecoded
channel-cached = refl

abbrev get_channel : ClientCommand
get_channel = record { client_id = 1; local_port = 5000; payload = 0x1F ∷ 1 ∷ [] }

try_serve_from_cache-cache_response_example :
    try_serve_from_cache 0x1F get_channel with_channel ≡ (true, send_to_client 1 info with_channel)
try_serve_from_cache-cache_response_example =
    try_serve_from_cache-cache_response hex_encode clock 1 (b'o' ∷ b'n' ∷ b'e' ∷ [])
      (replicate 16 5) [] get_channel idle with_channel (omega arith)
      ((omega arith, omega arith), ((omega arith, omega arith), ((omega arith, omega arith), tt)))
      (omega arith) refl refl channel-cached refl
