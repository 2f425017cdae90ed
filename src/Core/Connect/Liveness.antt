-- ===== src/Core/Connect/Liveness.antt =====
-- The retry loop of src/core.rs, `reconnect_radio`: its delays, and that it ends when the radio answers.
use coresplitter.Base.{
  subst, append-nil, leb_false→lt, Bool-cases, ℕ, zero, suc, ◌+◌, ◌*◌, ◌^◌, ◌≤◌, ◌<◌, ◌≡◌, ◌⊎◌, inl,
  inr, refl, sym, ap, ◌∙◌, min, Bool, true, false, List, [], ◌∷◌, ◌++◌, arith, leb, ◌==◌,
  if◌then◌else◌, length, replicate, Option-cases,
}
use native.Mathlib.Nat.{pow-succ', mul_assoc, mul-le-mul_right}
use coresplitter.Base.Bytes.{Bytes, All}
use coresplitter.Core.State.{Core, Clock}
use coresplitter.Core.Frames.{build_appstart}
use coresplitter.Core.Queue.{fail_requests}
use coresplitter.Core.Cache.{cache_response}
use coresplitter.Core.Cache.Total.{cache_response-total}
use coresplitter.Core.Connect.{
  frame, Arrival, Wait, ready, failed, wait_for_self_info, wait_for_device_info, initialize_radio,
  query_device, device_query, refused, connected, Attempt, up, trying, connect_backend, set_up,
  after_init, reconnection_loop, reconnect_radio, slept, next_delay, and_then, sent_or_failed,
  ready_with, on_self_signal, on_device_signal, Writes,
}
use coresplitter.Core.Connect.Discards.{
  IsDiscarded, NotSelfInfo, NotDeviceInfo, clock_after, wait_for_self_info-skips,
  wait_for_device_info-skips, early, clock_after-early,
}
use coresplitter.Core.Connect.Ends.{
  IsCalm, Asked, Ends, hello, linked, send_to_radio-taken, wait_for_self_info-Ends,
  initialize_radio-Ends,
}
use coresplitter.Core.Connect.Settled.{IsUp, set_up-IsUp, fail_requests-IsCalm}

abbrev pub refused_attempt : Attempt
refused_attempt = record { pause = slept; connection = refused }

abbrev delay_after : ℕ → ℕ → ℕ
delay_after zero delay = delay
delay_after (suc k) delay = delay_after k (next_delay delay)

doubled : (delay p : ℕ) → 0 < p → min (min (delay * 2) 60 * p) 60 ≡ min (delay * (2 * p)) 60
doubled delay p h = elim (Bool-cases (leb (delay * 2) 60)) [
  | inl small ↦
      let least : min (delay * 2) 60 ≡ delay * 2 = ground (arith, small) in
      ap (λ d. min (d * p) 60) least ∙ ap (λ d. min d 60) (mul_assoc delay 2 p)
  | inr large ↦
      let most : min (delay * 2) 60 ≡ 60 = ground (arith, large) in
      let over : 60 < delay * 2 = leb_false→lt (delay * 2) 60 large in
      let more : 60 * p ≤ delay * 2 * p = mul-le-mul_right p (omega (arith, over)) in
      ap (λ d. min (d * p) 60) most ∙ omega (arith, more, h, mul_assoc delay 2 p)
]

pow2-pos : (k : ℕ) → 0 < 2 ^ k
pow2-pos zero = omega arith
pow2-pos (suc k) = omega (arith, pow-succ' 2 k, pow2-pos k)

delay_after-min : (k delay : ℕ) → delay ≤ 60 → delay_after k delay ≡ min (delay * 2 ^ k) 60
delay_after-min zero delay h = omega arith
delay_after-min (suc k) delay h =
    delay_after-min k (next_delay delay) (omega arith)
    ∙ doubled delay (2 ^ k) (pow2-pos k)
    ∙ ap (λ p. min (delay * p) 60) (sym (pow-succ' 2 k))

module _ (hex_encode : Bytes → Bytes) (warns : Bool) where
  refused-again :
      (k : ℕ) (more : List Attempt) (delay : ℕ) (c : Core)
      → reconnection_loop hex_encode warns (replicate k refused_attempt ++ more) delay c
        ≡ reconnection_loop hex_encode warns more (delay_after k delay) c
  unfolding reconnection_loop
  refused-again zero more delay c = refl
  refused-again (suc k) more delay c = refused-again k more (next_delay delay) c

  -- After `k` attempts in which the backend could not connect, the core waits 2 ^ k seconds before the next one, but
  -- never more than a minute, and nothing has changed since the requests were failed.
  pub reconnect_radio-delay :
      (k : ℕ) (c : Core)
      → reconnect_radio hex_encode warns (replicate k refused_attempt) c
        ≡ trying (min (2 ^ k) 60) (fail_requests c)
  unfolding reconnect_radio reconnection_loop
  reconnect_radio-delay k c =
      ap (λ l. reconnection_loop hex_encode warns l 1 (fail_requests c))
        (sym (append-nil (replicate k refused_attempt)))
      ∙ refused-again k [] 1 (fail_requests c)
      ∙ ap (λ delay. trying delay (fail_requests c))
          (delay_after-min k 1 (omega arith) ∙ ap (λ d. min d 60) (omega arith))

-- The radio's answers: SELF_INFO behind other frames, then DEVICE_INFO or ERROR behind other frames.
pub record Answers : Type 0 where
  pub start : Clock
  pub before : List Arrival
  pub self_clock : Clock
  pub self_rest : Bytes
  pub between : List Arrival
  pub device_clock : Clock
  pub device_code : ℕ
  pub device_rest : Bytes
  pub later : List Arrival

-- The link takes every command.
abbrev pub steady : Writes
steady = record { hello = true; query = true; sync = true }

abbrev pub device_arrivals : Answers → List Arrival
device_arrivals a =
    a.between
    ++ record { clock = a.device_clock; signal = frame (a.device_code ∷ a.device_rest) } ∷ a.later

abbrev pub all_arrivals : Answers → List Arrival
all_arrivals a =
    a.before
    ++ record { clock = a.self_clock; signal = frame (0x05 ∷ a.self_rest) } ∷ device_arrivals a

-- The other frames come within the 5 and the 3 seconds, and only they have to.
abbrev pub IsTimely : Answers → Type 0
IsTimely a =
    All (IsDiscarded NotSelfInfo (a.start.instant + 5000)) a.before
    × All (IsDiscarded NotDeviceInfo (a.self_clock.instant + 3000)) a.between
    × ((a.device_code ≡ 0x0D) ⊎ (a.device_code ≡ 0x01))

module _ (hex_encode : Bytes → Bytes) (warns : Bool)
    (two_digits : (x : Bytes) → length (hex_encode x) ≡ 2 * length x) where
  cached :
      (clock : Clock) (later : List Arrival) (code : ℕ) (payload : Bytes) (c : Core)
      → (d : Core) × (ready_with clock later (cache_response hex_encode clock code payload c)
          ≡ ready clock later d)
  cached clock later code payload c =
      elim (Option-cases (cache_response hex_encode clock code payload c)) [
        | inl e ↦ absurd (cache_response-total hex_encode two_digits clock code payload c e)
        | inr (d, e) ↦ (d, ap (ready_with clock later) e)
      ]

  self_info-ready :
      (a : Answers) (c : Core)
      → IsTimely a
      → (d : Core) × (wait_for_self_info hex_encode warns
            (a.start.instant + 5000)
            a.start
            (all_arrivals a)
            c
          ≡ ready a.self_clock (device_arrivals a) d)
  unfolding wait_for_self_info
  self_info-ready a c h =
      let deadline = a.start.instant + 5000 in
      let more = device_arrivals a in
      let s : Arrival = record { clock = a.self_clock; signal = frame (0x05 ∷ a.self_rest) } in
      let now : a.start.instant < deadline = omega arith in
      let in_time =
        early deadline _
          (clock_after-early hex_encode warns deadline NotSelfInfo a.start a.before now h.0) in
      let (d, e) = cached a.self_clock more 0x05 (0x05 ∷ a.self_rest) c in
      (
        d,
        wait_for_self_info-skips hex_encode warns deadline a.start a.before (s ∷ more) c now h.0
            ∙ ap
                (λ late.
                  if late
                  then failed c
                  else on_self_signal hex_encode warns a.self_clock more s.signal c
                      (wait_for_self_info hex_encode warns deadline a.self_clock more c))
                in_time
            ∙ e,
      )

  device_info-ready :
      (a : Answers) (c : Core)
      → IsTimely a
      → (d : Core) × (wait_for_device_info hex_encode warns
            (a.self_clock.instant + 3000)
            a.self_clock
            (device_arrivals a)
            c
          ≡ ready a.device_clock a.later d)
  unfolding wait_for_device_info
  device_info-ready a c h =
      let deadline = a.self_clock.instant + 3000 in
      let code = a.device_code in
      let s : Arrival = record { clock = a.device_clock; signal = frame (code ∷ a.device_rest) } in
      let now : a.self_clock.instant < deadline = omega arith in
      let in_time = early deadline _ (
        clock_after-early hex_encode warns deadline NotDeviceInfo a.self_clock a.between now h.1) in
      let again = wait_for_device_info hex_encode warns deadline a.device_clock a.later c in
      let (d, e) = answered a.device_clock a.later code a.device_rest c again h.2 in
      (
        d,
        wait_for_device_info-skips hex_encode warns deadline a.self_clock a.between (s ∷ a.later) c
              now h.1
            ∙ ap
                (λ late.
                  if late
                  then ready (clock_after a.self_clock a.between) (s ∷ a.later) c
                  else on_device_signal hex_encode warns a.device_clock a.later s.signal c again)
                in_time
            ∙ e,
      )
    where
      answered :
          (clock : Clock) (later : List Arrival) (code : ℕ) (rest : Bytes) (c : Core) (again : Wait)
          → (code ≡ 0x0D) ⊎ (code ≡ 0x01)
          → (d : Core) × (on_device_signal hex_encode warns clock later
                (frame (code ∷ rest))
                c
                again
              ≡ ready clock later d)
      answered clock later code rest c again (inl e) =
          let info : (code == 0x0D) ≡ true = ground (arith, e) in
          rw info (cached clock later 0x0D (code ∷ rest) c)
      answered clock later code rest c again (inr e) =
          let info : (code == 0x0D) ≡ false = ground (arith, e) in
          let error : (code == 0x01) ≡ true = ground (arith, e) in rw (info, error) (c, refl)

  initialize_radio-ready :
      (a : Answers) (c : Core)
      → IsTimely a
      → IsCalm c
      → (d : Core) × (initialize_radio hex_encode warns a.start steady
            (all_arrivals a)
            (linked [] c)
          ≡ ready a.device_clock a.later d)
  unfolding initialize_radio
  initialize_radio-ready a c h calm =
      let said = build_appstart ∷ [] in
      let first = linked said c in
      let (d, asked) = self_info-ready a first h in
      let known : Ends (Asked said) IsCalm (ready a.self_clock (device_arrivals a) d) =
        subst (Ends (Asked said) IsCalm) asked (
          wait_for_self_info-Ends hex_encode warns said (a.start.instant + 5000) a.start
            (all_arrivals a) first (calm, refl)) in
      let (e, answered) = device_info-ready a (linked hello d) h in
      let wait = λ (x : Core).
        and_then
          (wait_for_self_info hex_encode warns (a.start.instant + 5000) a.start (all_arrivals a) x)
          (query_device hex_encode warns true) in
      let query =
        wait_for_device_info hex_encode warns (a.self_clock.instant + 3000) a.self_clock
          (device_arrivals a) in
      (
        e,
        ap (sent_or_failed wait) (send_to_radio-taken [] build_appstart (linked [] c) refl)
            ∙ ap (λ w. and_then w (query_device hex_encode warns true)) asked
            ∙ ap (sent_or_failed query) (send_to_radio-taken said device_query d known.0.1)
            ∙ answered,
      )

  -- However many attempts the backend could not connect in, the retry loop ends in the first one in which it connects,
  -- on a link that takes every command, to a radio that sends SELF_INFO and then DEVICE_INFO or ERROR, where each other frame before the one comes within
  -- the 5 seconds and each other frame between the two within the 3 seconds after it; the core then works with the
  -- radio. `hex::encode` writes two digits for a byte.
  pub reconnect_radio-up :
      (k : ℕ) (a : Answers) (more : List Attempt) (c : Core)
      → IsTimely a
      → let attempt : Attempt = record {
        pause = slept;
        connection = connected a.start steady (all_arrivals a);
      } in
        (d : Core) × (reconnect_radio hex_encode warns
            (replicate k refused_attempt ++ attempt ∷ more)
            c
          ≡ up d)
        × IsUp d
  unfolding reconnect_radio reconnection_loop connect_backend
  reconnect_radio-up k a more c h =
      let calm = fail_requests-IsCalm c in
      let attempt : Attempt = record {
        pause = slept;
        connection = connected a.start steady (all_arrivals a);
      } in
      let attempts = replicate k refused_attempt ++ attempt ∷ more in
      let (e, initialized) = initialize_radio-ready a (fail_requests c) h calm in
      let again = reconnection_loop hex_encode warns more (next_delay (delay_after k 1)) in
      let reached : reconnect_radio hex_encode warns attempts c
          ≡ up (set_up true a.device_clock e) =
        refused-again hex_encode warns k (attempt ∷ more) 1 (fail_requests c)
        ∙ ap (after_init again true) initialized in
      (
        set_up true a.device_clock e,
        reached,
        set_up-IsUp a.device_clock e (
            subst (Ends (Asked hello) IsCalm) initialized (
              initialize_radio-Ends hex_encode warns a.start steady (all_arrivals a)
                (linked [] (fail_requests c)) (calm, refl))),
      )
