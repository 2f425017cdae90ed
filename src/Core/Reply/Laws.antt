-- ===== src/Core/Reply/Laws.antt =====
-- What the clients see of the replies (src/core.rs).
use coresplitter.Base.{
  ℕ, ◌≤◌, ◌≡◌, refl, ap, ◌∙◌, true, false, Option, none, some, List, arith, ◌==◌, if◌then◌else◌,
  leb, length,
}
use coresplitter.Base.Bytes.{Bytes, u32_at}
use coresplitter.Base.Maps.{apply_to, lookup, remove, lookup-remove}
use coresplitter.Core.State.{Core}
use coresplitter.Core.Clients.{push, send_to_client}
use coresplitter.Core.Clients.Laws.{outbox, frame_to, outbox-send_to_client}
use coresplitter.Core.Reply.{reply_to, record_ack, route_removed, try_route_ack}

send_to_client-acks :
    (id : ℕ) (payload : Bytes) (c : Core)
    → (send_to_client id payload c).pending_acks ≡ c.pending_acks
unfolding send_to_client
send_to_client-acks id payload c = refl

le→leb : (a b : ℕ) → a ≤ b → leb a b ≡ true
le→leb a b h = ground arith

-- What `try_route_ack` does with an ack, by the entry that is found for it.
routed-by :
    (ack : Bytes) (c : Core) (entry : Option (ℕ × ℕ))
    → 5 ≤ length ack
    → lookup (u32_at ack 1) c.pending_acks ≡ entry
    → try_route_ack 0x82 ack c ≡ route_removed (u32_at ack 1) ack c entry
unfolding try_route_ack
routed-by ack c entry h e = rw (le→leb 5 (length ack) h) (ap (route_removed (u32_at ack 1) ack c) e)

lookup-removed : (k : ℕ) (l : List (ℕ × (ℕ × ℕ))) → lookup k (remove k l) ≡ none
lookup-removed k l = lookup-remove k k l ∙ ground arith

abbrev forget : ℕ → Core → Core
forget k c = record c { pending_acks = remove k c.pending_acks }

routed-once :
    (ack : Bytes) (cid t j : ℕ) (c : Core)
    → 5 ≤ length ack
    → lookup (u32_at ack 1) c.pending_acks ≡ some (cid, t)
    → let (routed, e) = try_route_ack 0x82 ack c in
      (routed ≡ true)
      × (outbox j e
          ≡ (if cid == j then apply_to (push (frame_to c j ack)) (outbox j c) else outbox j c))
      × (try_route_ack 0x82 ack e ≡ (false, e))
unfolding coresplitter.Core.Clients.protocol_version
routed-once ack cid t j c h e =
    let c' = forget (u32_at ack 1) c in
    let d = send_to_client cid ack c' in
    rw (routed-by ack c (some (cid, t)) h e) (
      refl,
      outbox-send_to_client cid j ack c',
      routed-by ack d none h (
          ap (lookup (u32_at ack 1)) (send_to_client-acks cid ack c')
          ∙ lookup-removed (u32_at ack 1) c.pending_acks),
    )

recorded :
    (now cid : ℕ) (reply : Bytes) (c : Core)
    → lookup (u32_at reply 2) (record_ack now cid reply c).pending_acks ≡ some (cid, now)
recorded now cid reply c = ground arith

-- An ack that the radio announced in a SENT reply is handed to the client whose request that reply closed,
-- and to no other; a second one with the same value finds nobody.
pub try_route_ack-reply_to :
    (now cid j : ℕ) (reply ack : Bytes) (c : Core)
    → 6 ≤ length reply
    → 5 ≤ length ack
    → u32_at ack 1 ≡ u32_at reply 2
    → let d = reply_to now (some cid) 0x06 reply c in
      let (routed, e) = try_route_ack 0x82 ack d in
      (routed ≡ true)
      × (outbox j e
          ≡ (if cid == j then apply_to (push (frame_to d j ack)) (outbox j d) else outbox j d))
      × (try_route_ack 0x82 ack e ≡ (false, e))
unfolding reply_to
try_route_ack-reply_to now cid j reply ack c h k e = rw (le→leb 6 (length reply) h) (
    routed-once ack cid now j (send_to_client cid reply (record_ack now cid reply c)) k (
      ap (lookup (u32_at ack 1)) (send_to_client-acks cid reply (record_ack now cid reply c))
      ∙ ap (λ a. lookup a (record_ack now cid reply c).pending_acks) e
      ∙ recorded now cid reply c))
