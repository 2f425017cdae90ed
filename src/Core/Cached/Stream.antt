-- ===== src/Core/Cached/Stream.antt =====
-- GET_CONTACTS answered from the cache (src/core.rs, `respond_contacts`).
use coresplitter.Base.{
  ℕ, Bool, not, ltb, ◌+◌, ◌*◌, ◌-◌, ◌≤◌, ◌≡◌, refl, sym, ap, subst, ◌∙◌, max, true, false, inl, inr,
  Option, none, some, List, [], ◌∷◌, ◌++◌, arith, Bool-cases, ◌==◌, if◌then◌else◌, leb, length,
  take, drop, replicate, length-append, length-take, length-drop, length-replicate, append_assoc,
  append-nil, tests,
}
use coresplitter.Base.Bytes.{Bytes, byte_at, to_le_bytes, All, byte_at-drop, from_le_bytes-take}
use coresplitter.Base.Maps.{apply_to}
use coresplitter.Node.Db.Tables.{CachedContact}
use coresplitter.Core.Awaiting.{Awaiting, classify, awaiting_for, stream, first_awaiting, arms}
use coresplitter.Core.Frames.{message_frame_for}
use coresplitter.Core.State.{Core}
use coresplitter.Core.Clients.{push, send_to_client, protocol_version}
use coresplitter.Core.Clients.Laws.{outbox, frame_to, outbox-send_to_client}
use coresplitter.Core.Cached.{
  synthesize_contact_frame, contact_frame, raw_frame, contact_frame_len, padded, lastmod, is_old,
  send_contacts, respond_contacts,
}

-- When a contact was changed: the last four bytes of its frame, the lowest first.
abbrev pub changed_at : CachedContact → ℕ
changed_at contact =
    let frame = contact_frame contact in
    byte_at frame 144
    + 256 * byte_at frame 145
    + 65_536 * byte_at frame 146
    + 16_777_216 * byte_at frame 147

-- A client that names no time wants all.
abbrev pub is_newer : Option ℕ → ℕ → Bool
is_newer none time = true
is_newer (some since) time = ltb since time

abbrev pub recent_contacts : Option ℕ → List CachedContact → List CachedContact
recent_contacts since [] = []
recent_contacts since (contact ∷ contacts) =
    let later = recent_contacts since contacts in
    if is_newer since (changed_at contact) then contact ∷ later else later

abbrev pub frames_of : List CachedContact → List Bytes
frames_of [] = []
frames_of (contact ∷ contacts) = contact_frame contact ∷ frames_of contacts

-- The latest change.
abbrev pub latest : List CachedContact → ℕ
latest [] = 0
latest (contact ∷ contacts) = max (changed_at contact) (latest contacts)

length-padded : (n : ℕ) (bytes : Bytes) → length (padded n bytes) ≡ n
length-padded n bytes = omega (
  arith,
  length-append (take n bytes) (replicate (n - length bytes) 0),
  length-take n bytes,
  length-replicate {A = ℕ} (n - length bytes) 0,
)

-- A whole CONTACT frame.
abbrev pub IsContactFrame : Bytes → Type 0
IsContactFrame frame = (length frame ≡ contact_frame_len) × ((rest : Bytes) × (frame ≡ 0x03 ∷ rest))

synthesize_contact_frame-IsContactFrame :
    (contact : CachedContact) → IsContactFrame (synthesize_contact_frame contact)
unfolding synthesize_contact_frame
synthesize_contact_frame-IsContactFrame contact = (
  simp (length-append, length-replicate)
      (omega (arith, length-take 32 contact.public_key, length-take 32 contact.name)),
  (_, refl),
)

raw_frame-IsContactFrame :
    (contact : CachedContact) (raw : Option Bytes) → IsContactFrame (raw_frame contact raw)
raw_frame-IsContactFrame contact none = synthesize_contact_frame-IsContactFrame contact
raw_frame-IsContactFrame contact (some raw) =
    elim (Bool-cases (leb contact_frame_len (length raw))) [
      | inl e ↦ rw e (
        omega (
          tests,
          e,
          length-drop 1 (take contact_frame_len raw),
          length-take contact_frame_len raw,
        ),
        (drop 1 (take contact_frame_len raw), refl),
      )
      | inr e ↦ rw e (synthesize_contact_frame-IsContactFrame contact)
    ]

contact_frame-IsContactFrame : (contact : CachedContact) → IsContactFrame (contact_frame contact)
unfolding contact_frame
contact_frame-IsContactFrame contact = raw_frame-IsContactFrame contact contact.raw

-- The outbox with these frames behind it.
abbrev pub also : List Bytes → Option (List Bytes) → Option (List Bytes)
also frames = apply_to (λ log. log ++ frames)

also-also : (f g : List Bytes) (o : Option (List Bytes)) → also g (also f o) ≡ also (f ++ g) o
also-also f g none = refl
also-also f g (some log) = ap some (append_assoc log f g)

also-nil : (o : Option (List Bytes)) → o ≡ also [] o
also-nil none = refl
also-nil (some log) = ap some (sym (append-nil log))

-- A frame of the contact stream, which has the same layout for every version.
abbrev IsStreamFrame : Bytes → Type 0
IsStreamFrame frame = (code : ℕ) × (rest : Bytes) × (code ≤ 4) × (frame ≡ code ∷ rest)

plain : (v code : ℕ) (rest : Bytes) → code ≤ 4 → message_frame_for v (code ∷ rest) ≡ code ∷ rest
unfolding message_frame_for
plain v code rest h = ground arith

pub same_id : (id : ℕ) → (id == id) ≡ true
same_id id = ground arith

outbox-plain :
    (id : ℕ) (frame : Bytes) (c : Core)
    → IsStreamFrame frame
    → outbox id (send_to_client id frame c) ≡ also (frame ∷ []) (outbox id c)
outbox-plain id frame c (code, rest, h, e) =
    outbox-send_to_client id id frame c
    ∙ ap (λ b. if b then apply_to (push (frame_to c id frame)) (outbox id c) else outbox id c)
        (same_id id)
    ∙ ap (λ f. also (f ∷ []) (outbox id c)) (rw e (plain (protocol_version c id) code rest h))

lastmod-changed_at : (contact : CachedContact) → lastmod contact ≡ changed_at contact
lastmod-changed_at contact =
    let frame = contact_frame contact in
    omega (
      arith,
      from_le_bytes-take (drop 144 frame),
      byte_at-drop 144 0 frame,
      byte_at-drop 144 1 frame,
      byte_at-drop 144 2 frame,
      byte_at-drop 144 3 frame,
    )

is_old-is_newer : (since : Option ℕ) (time : ℕ) → is_old since time ≡ not (is_newer since time)
is_old-is_newer none time = refl
is_old-is_newer (some since) time = ground arith

send_contacts-frames :
    (id : ℕ) (since : Option ℕ) (contacts : List CachedContact) (recent : ℕ) (c : Core)
    → let (r, d) = send_contacts id since contacts recent c in
      let sent = recent_contacts since contacts in
      (outbox id d ≡ also (frames_of sent) (outbox id c)) × (r ≡ max recent (latest sent))
unfolding send_contacts
send_contacts-frames id since [] recent c = (also-nil (outbox id c), omega arith)
send_contacts-frames id since (contact ∷ contacts) recent c =
    elim (Bool-cases (is_newer since (changed_at contact))) [
      | inr old ↦
          let passed : is_old since (lastmod contact) ≡ true =
            is_old-is_newer since (lastmod contact)
            ∙ ap (λ t. not (is_newer since t)) (lastmod-changed_at contact)
            ∙ ap not old in
          rw (old, passed, send_contacts) (send_contacts-frames id since contacts recent c)
      | inl new ↦
          let shown : is_old since (lastmod contact) ≡ false =
            is_old-is_newer since (lastmod contact)
            ∙ ap (λ t. not (is_newer since t)) (lastmod-changed_at contact)
            ∙ ap not new in
          let f = contact_frame-IsContactFrame contact in
          let frame = contact_frame contact in
          let d = send_to_client id frame c in
          let rest = send_contacts-frames id since contacts (max recent (lastmod contact)) d in
          let sent = frames_of (recent_contacts since contacts) in
          rw (new, shown, send_contacts)
            (
              rest.0
                  ∙ ap (also sent) (outbox-plain id frame c (0x03, f.1.0, omega arith, f.1.1))
                  ∙ also-also (frame ∷ []) sent (outbox id c),
              omega (arith, rest.1, lastmod-changed_at contact),
            )
    ]

-- The frames of one reply: each belongs to it, and only the last one ends it.
abbrev pub IsReply : Awaiting → List Bytes → Type 0
IsReply awaiting [] = ⊥
IsReply awaiting (frame ∷ []) = classify awaiting (byte_at frame 0) ≡ (true, true)
IsReply awaiting (frame ∷ next ∷ frames) =
    (classify awaiting (byte_at frame 0) ≡ (true, false)) × IsReply awaiting (next ∷ frames)

abbrev contact_stream : Awaiting
contact_stream = stream (0x02 ∷ 0x03 ∷ []) 0x04

frames_of-IsReply :
    (contacts : List CachedContact) (first : Bytes) (count : Bytes)
    → classify contact_stream (byte_at first 0) ≡ (true, false)
    → IsReply contact_stream (first ∷ frames_of contacts ++ (0x04 ∷ count) ∷ [])
unfolding classify
frames_of-IsReply [] first count e = (e, refl)
frames_of-IsReply (contact ∷ contacts) first count e = (
  e,
  frames_of-IsReply contacts (contact_frame contact) count
      (ap (λ f. classify contact_stream (byte_at f 0)) (contact_frame-IsContactFrame contact).1.1),
)

frames_of-All : (contacts : List CachedContact) → All IsContactFrame (frames_of contacts)
frames_of-All [] = tt
frames_of-All (contact ∷ contacts) = (contact_frame-IsContactFrame contact, frames_of-All contacts)

start_code : classify contact_stream 0x02 ≡ (true, false)
unfolding classify
start_code = refl

awaiting_for-contacts : (rest : Bytes) → awaiting_for (0x04 ∷ rest) ≡ contact_stream
unfolding awaiting_for first_awaiting arms
awaiting_for-contacts rest = refl

-- CONTACTS_START with the number of all contacts, a frame for each that is newer than `since`, and
-- END_OF_CONTACTS with the latest change of those.
abbrev pub cached_reply : List CachedContact → Option ℕ → List Bytes
cached_reply contacts since =
    let sent = recent_contacts since contacts in
    (0x02 ∷ to_le_bytes 4 (length contacts)) ∷ frames_of sent
    ++ (0x04 ∷ to_le_bytes 4 (latest sent)) ∷ []

-- GET_CONTACTS served from the cache: the client is sent the start with the number of all contacts, each
-- contact newer than `since` as a whole CONTACT frame, and the end with the latest time of change of those, which is the
-- last 4 bytes of the frame; and
-- these frames are a reply as one from the radio is, each belonging to it and only the last ending it.
pub respond_contacts-IsReply :
    (id : ℕ) (contacts : List CachedContact) (since : Option ℕ) (request : Bytes) (c : Core)
    → let reply = cached_reply contacts since in
      (outbox id (respond_contacts id contacts since c) ≡ also reply (outbox id c))
      × IsReply (awaiting_for (0x04 ∷ request)) reply
      × All IsContactFrame (frames_of (recent_contacts since contacts))
unfolding respond_contacts
respond_contacts-IsReply id contacts since request c =
    let start = 0x02 ∷ to_le_bytes 4 (length contacts) in
    let d = send_to_client id start c in
    let frames = frames_of (recent_contacts since contacts) in
    let listed = send_contacts-frames id since contacts 0 d in
    let (recent, e) = send_contacts id since contacts 0 d in
    let end = 0x04 ∷ to_le_bytes 4 recent in
    (
      outbox-plain id end e (0x04, to_le_bytes 4 recent, omega arith, refl)
          ∙ ap (also (end ∷ []))
              (listed.0 ∙ ap (also frames) (outbox-plain id start c (0x02, _, omega arith, refl)))
          ∙ ap (also (end ∷ [])) (also-also (start ∷ []) frames (outbox id c))
          ∙ also-also (start ∷ frames) (end ∷ []) (outbox id c)
          ∙ ap (λ r. also (start ∷ frames ++ (0x04 ∷ to_le_bytes 4 r) ∷ []) (outbox id c))
              (listed.1 ∙ omega arith),
      subst (λ a. IsReply a (cached_reply contacts since)) (sym (awaiting_for-contacts request))
          (frames_of-IsReply (recent_contacts since contacts) start _ start_code),
      frames_of-All (recent_contacts since contacts),
    )
