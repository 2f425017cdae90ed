-- ===== src/Core/Reply/Still.antt =====
-- What the parts of `try_route_to_in_flight` leave alone (src/core.rs).
use coresplitter.Base.{
  ℕ, refl, ◌&&◌, inl, inr, Option, none, some, List, [], ◌∷◌, arith, Bool-cases, Option-cases, ◌==◌,
  leb, length,
}
use coresplitter.Base.Bytes.{Bytes, u32_at}
use coresplitter.Base.Maps.{lookup}
use coresplitter.Node.Db.{Result, ok, err}
use coresplitter.Node.Db.Tables.{Origin}
use coresplitter.Node.State.{NewMessage, insert_message, advance_client_cursor}
use coresplitter.Core.State.{Core, InFlight, Clock, with_db, cmd_code}
use coresplitter.Core.Clients.{broadcast_to_others}
use coresplitter.Core.Sessions.{
  notify_missed, advance_all, follow_head, after_insert, store_message,
}
use coresplitter.Core.Reply.{
  synthesize_contact_echo, synthesize_channel_echo, contact_echo, channel_echo, refresh_accepted,
  on_command_accepted, reply_to, fan_out, record_ack, route_removed, notify_accepted, echo_accepted,
  try_route_ack, accepted_unless_error,
}
use coresplitter.Core.Queue.Frozen.{
  IsStill, IsFrozen, IsStill-trans, IsFrozen-trans, send_to_client-IsFrozen,
  broadcast_to_others-IsFrozen,
}

pub notify_missed-IsFrozen : (id : ℕ) (c : Core) → IsFrozen c (notify_missed id c)
unfolding notify_missed
notify_missed-IsFrozen id c = ground (arith, send_to_client-IsFrozen id (0x83 ∷ []) c)

advance_all-IsFrozen :
    (clock : Clock) (id : ℕ) (l : List (ℕ × Bytes)) (c : Core)
    → IsFrozen c (advance_all clock id l c)
unfolding advance_all
advance_all-IsFrozen clock id [] c = ((refl, refl), refl)
advance_all-IsFrozen clock id ((port, app) ∷ l) c =
    advance_all-IsFrozen clock id l (with_db (advance_client_cursor clock.unix port app id) c).1

follow_head-IsFrozen : (clock : Clock) (id : ℕ) (c : Core) → IsFrozen c (follow_head clock id c)
unfolding follow_head
follow_head-IsFrozen clock id c = advance_all-IsFrozen clock id _ _

after_insert-IsFrozen : (clock : Clock) (r : Result ℕ × Core) → IsFrozen r.1 (after_insert clock r)
after_insert-IsFrozen clock (ok id, c) = follow_head-IsFrozen clock id c
after_insert-IsFrozen clock (err, c) = ((refl, refl), refl)

pub store_message-IsFrozen :
    (clock : Clock) (msg : NewMessage) (c : Core) → IsFrozen c (store_message clock msg c)
unfolding store_message
store_message-IsFrozen clock msg c =
    after_insert-IsFrozen clock (with_db (insert_message clock.unix msg) c)

echoed-IsFrozen :
    (clock : Clock) (sender : Option ℕ) (fake : Bytes) (msg : NewMessage) (c : Core)
    → IsFrozen c (store_message clock msg (broadcast_to_others sender fake c))
echoed-IsFrozen clock sender fake msg c =
    IsFrozen-trans c (broadcast_to_others sender fake c)
      (store_message clock msg (broadcast_to_others sender fake c))
      (broadcast_to_others-IsFrozen sender fake c)
      (store_message-IsFrozen clock msg (broadcast_to_others sender fake c))

synthesize_contact_echo-IsFrozen :
    (clock : Clock) (sender : ℕ) (origin : Origin) (payload : Bytes) (c : Core)
    → IsFrozen c (synthesize_contact_echo clock sender origin payload c)
unfolding synthesize_contact_echo
synthesize_contact_echo-IsFrozen clock sender origin payload c =
    elim (Option-cases c.radio_pubkey) [
      | inl e ↦ rw (e, synthesize_contact_echo) ((refl, refl), refl)
      | inr (pk, e) ↦
          rw (e, synthesize_contact_echo)
            (echoed-IsFrozen clock (some sender) (contact_echo pk payload) _ c)
    ]

synthesize_channel_echo-IsFrozen :
    (clock : Clock) (sender : ℕ) (origin : Origin) (payload : Bytes) (c : Core)
    → IsFrozen c (synthesize_channel_echo clock sender origin payload c)
unfolding synthesize_channel_echo
synthesize_channel_echo-IsFrozen clock sender origin payload c =
    elim (Option-cases c.radio_pubkey) [
      | inl e ↦ rw (e, synthesize_channel_echo) ((refl, refl), refl)
      | inr (pk, e) ↦
          rw (e, synthesize_channel_echo)
            (echoed-IsFrozen clock (some sender) (channel_echo c.radio_name payload) _ c)
    ]

refresh_accepted-IsStill : (f : InFlight) (c : Core) → IsStill c (refresh_accepted f c)
unfolding refresh_accepted
refresh_accepted-IsStill f c = ground arith

notify_accepted-IsStill :
    (id : Option ℕ) (code : ℕ) (c : Core) → IsStill c (notify_accepted id code c)
notify_accepted-IsStill none code c = (refl, refl)
notify_accepted-IsStill (some id) code c = elim (Bool-cases (code == 0x01)) [
  | inl e ↦ rw e ((notify_missed-IsFrozen id c).0)
  | inr e ↦ rw e (refl, refl)
]

echo_accepted-IsStill :
    (clock : Clock) (id : Option ℕ) (f : InFlight) (c : Core)
    → IsStill c (echo_accepted clock id f c)
echo_accepted-IsStill clock none f c = (refl, refl)
echo_accepted-IsStill clock (some id) f c =
    elim (Bool-cases (cmd_code f == 0x02 && leb 14 (length f.payload))) [
      | inl e ↦ rw e (synthesize_contact_echo-IsFrozen clock id f.origin f.payload c).0
      | inr e ↦ rw e (elim (Bool-cases (cmd_code f == 0x03 && leb 8 (length f.payload))) [
        | inl e' ↦ rw e' (synthesize_channel_echo-IsFrozen clock id f.origin f.payload c).0
        | inr e' ↦ rw e' (refl, refl)
      ])
    ]

pub on_command_accepted-IsStill :
    (clock : Clock) (f : InFlight) (c : Core) → IsStill c (on_command_accepted clock f c)
unfolding on_command_accepted
on_command_accepted-IsStill clock f c =
    let d = notify_accepted f.client_id (cmd_code f) c in
    let e = refresh_accepted f d in
    IsStill-trans c d (echo_accepted clock f.client_id f e)
      (notify_accepted-IsStill f.client_id (cmd_code f) c)
      (IsStill-trans d e (echo_accepted clock f.client_id f e) (refresh_accepted-IsStill f d)
        (echo_accepted-IsStill clock f.client_id f e))

pub reply_to-IsFrozen :
    (now : ℕ) (id : Option ℕ) (code : ℕ) (payload : Bytes) (c : Core)
    → IsFrozen c (reply_to now id code payload c)
unfolding reply_to
reply_to-IsFrozen now none code payload c = ((refl, refl), refl)
reply_to-IsFrozen now (some id) code payload c =
    elim (Bool-cases (code == 0x06 && leb 6 (length payload))) [
      | inl e ↦ rw e (send_to_client-IsFrozen id payload (record_ack now id payload c))
      | inr e ↦ rw e (send_to_client-IsFrozen id payload c)
    ]

pub fan_out-IsFrozen :
    (f : InFlight) (code : ℕ) (payload : Bytes) (c : Core) → IsFrozen c (fan_out f code payload c)
unfolding fan_out
fan_out-IsFrozen f code payload c =
    ground (arith, broadcast_to_others-IsFrozen f.client_id payload c)

route_removed-IsFrozen :
    (ack : ℕ) (payload : Bytes) (c : Core) (entry : Option (ℕ × ℕ))
    → IsFrozen c (route_removed ack payload c entry).1
route_removed-IsFrozen ack payload c none = ((refl, refl), refl)
route_removed-IsFrozen ack payload c (some entry) = send_to_client-IsFrozen entry.0 payload _

pub try_route_ack-IsFrozen :
    (code : ℕ) (payload : Bytes) (c : Core) → IsFrozen c (try_route_ack code payload c).1
unfolding try_route_ack
try_route_ack-IsFrozen code payload c = elim (Bool-cases (code == 0x82 && leb 5 (length payload))) [
  | inl e ↦ rw e (
      route_removed-IsFrozen (u32_at payload 1) payload c
        (lookup (u32_at payload 1) c.pending_acks))
  | inr e ↦ rw e ((refl, refl), refl)
]

abbrev pub freed : Core → Core
freed c = record c { in_flight = none }

module _ (clock : Clock) where
  pub accepted-IsStill :
      (code : ℕ) (f : InFlight) (c : Core) → IsStill c (accepted_unless_error clock code f c)
  accepted-IsStill code f c = elim (Bool-cases (code == 0x01)) [
    | inl e ↦ rw e (refl, refl)
    | inr e ↦ rw e (on_command_accepted-IsStill clock f c)
  ]

  pub replied-IsFrozen :
      (f : InFlight) (code : ℕ) (payload : Bytes) (c : Core)
      → IsFrozen c (fan_out f code payload (reply_to clock.instant f.client_id code payload c))
  replied-IsFrozen f code payload c =
      let d = reply_to clock.instant f.client_id code payload c in
      IsFrozen-trans c d (fan_out f code payload d)
        (reply_to-IsFrozen clock.instant f.client_id code payload c)
        (fan_out-IsFrozen f code payload d)
