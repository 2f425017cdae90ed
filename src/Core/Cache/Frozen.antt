-- ===== src/Core/Cache/Frozen.antt =====
-- Caching a frame leaves the requests and the link alone (src/core.rs).
use coresplitter.Base.{
  ℕ, ◌≡◌, refl, subst, Bool, true, false, Option, none, some, leb, ◌==◌, if◌then◌else◌, length,
}
use coresplitter.Base.Bytes.{Bytes}
use coresplitter.Node.State.{NewMessage}
use coresplitter.Protocol.Decode.{Map, ◌>>=◌}
use coresplitter.Protocol.Decode.Chain.{some-inner}
use coresplitter.Protocol.Decode.Response.{decode_response_payload}
use coresplitter.Core.State.{Core, Clock}
use coresplitter.Core.Cached.{contact_frame_len}
use coresplitter.Core.Cache.{
  cache_response, cache_undecoded, cache_self_info, cache_device_info, extract_radio_identity,
  extract_max_channels, store_decoded, contact_message, channel_message, contact_message_v3,
  channel_message_v3,
}
use coresplitter.Core.Queue.Frozen.{IsFrozen}
use coresplitter.Core.Reply.Still.{store_message-IsFrozen}

-- Where the operation does not panic.
abbrev pub Freezes : Core → Option Core → Type 0
Freezes c r = (d : Core) → r ≡ some d → IsFrozen c d

frozen-Freezes : (c d : Core) → IsFrozen c d → Freezes c (some d)
frozen-Freezes c d h e eq = subst (IsFrozen c) (some-inner eq) h

bind-Freezes :
    {A : Type 0} (c : Core) (m : Option A) (f : A → Core)
    → ((a : A) → IsFrozen c (f a))
    → Freezes c (m >>= λ a. some (f a))
bind-Freezes c none f h d e = cc
bind-Freezes c (some a) f h d e = frozen-Freezes c (f a) (h a) d e

chain-Freezes :
    {A B : Type 0} (c : Core) (m : Option A) (f : A → B) (g : B → Core)
    → ((a : A) → IsFrozen c (g (f a)))
    → Freezes c (m >>= (λ a. some (f a)) >>= λ b. some (g b))
chain-Freezes c none f g h d e = cc
chain-Freezes c (some a) f g h d e = frozen-Freezes c (g (f a)) (h a) d e

if-Freezes :
    (test : Bool) (c : Core) (r s : Option Core)
    → Freezes c r
    → Freezes c s
    → Freezes c (if test then r else s)
if-Freezes true c r s h k = h
if-Freezes false c r s h k = k

if-IsFrozen :
    (test : Bool) (c d e : Core) → IsFrozen c d → IsFrozen c e → IsFrozen c (if test then d else e)
if-IsFrozen true c d e h k = h
if-IsFrozen false c d e h k = k

store_decoded-IsFrozen :
    (clock : Clock) (message : Map → NewMessage) (c : Core) (decoded : Option Map)
    → IsFrozen c (store_decoded clock message c decoded)
store_decoded-IsFrozen clock message c none = ((refl, refl), refl)
store_decoded-IsFrozen clock message c (some decoded) =
    store_message-IsFrozen clock (message decoded) c

module _ (clock : Clock) (code : ℕ) (payload : Bytes) (c : Core) where
  cache_undecoded-IsFrozen : IsFrozen c (cache_undecoded clock code payload c)
  unfolding cache_undecoded
  cache_undecoded-IsFrozen =
      let same : IsFrozen c c = ((refl, refl), refl) in
      if-IsFrozen (code == 0x03) c _ _
        (if-IsFrozen (leb contact_frame_len (length payload)) c _ _ ((refl, refl), refl) same)
        (if-IsFrozen (code == 0x0C) c _ _ ((refl, refl), refl)
          (if-IsFrozen (code == 0x10) c _ _
            (if-IsFrozen (leb 16 (length payload)) c _ _
              (store_message-IsFrozen clock (contact_message_v3 payload) c) same)
            (if-IsFrozen (code == 0x11) c _ _
              (if-IsFrozen (leb 11 (length payload)) c _ _
                (store_message-IsFrozen clock (channel_message_v3 payload) c) same)
              (if-IsFrozen (code == 0x12) c _ _
                (if-IsFrozen (leb 50 (length payload)) c _ _ ((refl, refl), refl) same) same))))

  module _ (hex_encode : Bytes → Bytes) where
    cache_self_info-Freezes : Freezes c (cache_self_info hex_encode payload c)
    unfolding extract_radio_identity
    cache_self_info-Freezes =
        chain-Freezes c (decode_response_payload hex_encode 0x05 payload) _ _
          λ decoded. ((refl, refl), refl)

    cache_device_info-Freezes : Freezes c (cache_device_info hex_encode payload c)
    unfolding extract_max_channels
    cache_device_info-Freezes =
        chain-Freezes c (decode_response_payload hex_encode 0x0D payload) _ _
          λ decoded. ((refl, refl), refl)

    decoded-Freezes :
        (message : Map → NewMessage)
        → Freezes c (
            decode_response_payload hex_encode code payload >>= λ decoded.
            some (store_decoded clock message c decoded))
    decoded-Freezes message =
        bind-Freezes c (decode_response_payload hex_encode code payload) _
          (store_decoded-IsFrozen clock message c)

    pub cache_response-Freezes : Freezes c (cache_response hex_encode clock code payload c)
    unfolding cache_response
    cache_response-Freezes = if-Freezes (code == 0x05) c _ _ cache_self_info-Freezes (
        if-Freezes (code == 0x0D) c _ _ cache_device_info-Freezes (
          if-Freezes (code == 0x07) c _ _ (decoded-Freezes (contact_message clock.unix payload)) (
            if-Freezes (code == 0x08) c _ _ (decoded-Freezes (channel_message clock.unix payload))
              (frozen-Freezes c (cache_undecoded clock code payload c) cache_undecoded-IsFrozen))))
