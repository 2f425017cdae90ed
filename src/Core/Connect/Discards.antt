-- ===== src/Core/Connect/Discards.antt =====
-- What the core does with the frames that come while it waits for SELF_INFO (src/core.rs,
-- `wait_for_self_info` and `wait_for_device_info`).
use coresplitter.Base.{
  ap, sym, ◌∙◌, append-nil, ℕ, ◌<◌, ◌≡◌, ◌≢◌, refl, Bool, false, List, [], ◌∷◌, ◌++◌, arith, leb,
  ◌==◌, if◌then◌else◌,
}
use coresplitter.Base.Bytes.{Bytes, All}
use coresplitter.Core.State.{Core, Clock}
use coresplitter.Core.Connect.{
  Signal, stop, closed, frame, Arrival, Wait, ready, failed, waiting, panicked, wait_for_self_info,
  on_self_signal, on_device_signal, wait_for_device_info,
}

-- A frame with a code, which comes before the deadline.
abbrev IsOther : (ℕ → Type 0) → Bytes → Type 0
IsOther other [] = ⊥
IsOther other (code ∷ rest) = other code

abbrev IsOtherSignal : (ℕ → Type 0) → Signal → Type 0
IsOtherSignal other stop = ⊥
IsOtherSignal other closed = ⊥
IsOtherSignal other (frame payload) = IsOther other payload

abbrev pub IsDiscarded : (ℕ → Type 0) → ℕ → Arrival → Type 0
IsDiscarded other deadline a = (a.clock.instant < deadline) × IsOtherSignal other a.signal

abbrev pub NotSelfInfo : ℕ → Type 0
NotSelfInfo code = code ≢ 0x05

abbrev pub NotDeviceInfo : ℕ → Type 0
NotDeviceInfo code = (code ≢ 0x0D) × (code ≢ 0x01)

-- The clock after these arrivals.
abbrev pub clock_after : Clock → List Arrival → Clock
clock_after now [] = now
clock_after now (a ∷ arrivals) = clock_after a.clock arrivals

pub early : (deadline now : ℕ) → now < deadline → leb deadline now ≡ false
early deadline now h = ground arith

module _ (hex_encode : Bytes → Bytes) (warns : Bool) where
  on_self_signal-again :
      (clock : Clock) (later : List Arrival) (signal : Signal) (c : Core) (again : Wait)
      → IsOtherSignal NotSelfInfo signal
      → on_self_signal hex_encode warns clock later signal c again ≡ again
  on_self_signal-again clock later stop c again k = absurd k
  on_self_signal-again clock later closed c again k = absurd k
  on_self_signal-again clock later (frame []) c again k = absurd k
  on_self_signal-again clock later (frame (code ∷ rest)) c again k =
      let other : (code == 0x05) ≡ false = ground (arith, k) in rw other refl

  on_device_signal-again :
      (clock : Clock) (later : List Arrival) (signal : Signal) (c : Core) (again : Wait)
      → IsOtherSignal NotDeviceInfo signal
      → on_device_signal hex_encode warns clock later signal c again ≡ again
  on_device_signal-again clock later stop c again k = absurd k
  on_device_signal-again clock later closed c again k = absurd k
  on_device_signal-again clock later (frame []) c again k = absurd k
  on_device_signal-again clock later (frame (code ∷ rest)) c again k =
      let info : (code == 0x0D) ≡ false = ground (arith, k.0) in
      let error : (code == 0x01) ≡ false = ground (arith, k.1) in rw (info, error) refl

  module _ (deadline : ℕ) where
    pub wait_for_self_info-skips :
        (now : Clock) (others more : List Arrival) (c : Core)
        → now.instant < deadline
        → All (IsDiscarded NotSelfInfo deadline) others
        → wait_for_self_info hex_encode warns deadline now (others ++ more) c
          ≡ wait_for_self_info hex_encode warns deadline (clock_after now others) more c
    unfolding wait_for_self_info
    wait_for_self_info-skips now [] more c h k = refl
    wait_for_self_info-skips now (a ∷ others) more c h k =
        let again = wait_for_self_info hex_encode warns deadline a.clock (others ++ more) c in
        ap
          (λ late.
            if late
            then failed c
            else on_self_signal hex_encode warns a.clock (others ++ more) a.signal c again)
          (early deadline now.instant h)
        ∙ on_self_signal-again a.clock (others ++ more) a.signal c again k.0.1
        ∙ wait_for_self_info-skips a.clock others more c k.0.0 k.1

    pub wait_for_device_info-skips :
        (now : Clock) (others more : List Arrival) (c : Core)
        → now.instant < deadline
        → All (IsDiscarded NotDeviceInfo deadline) others
        → wait_for_device_info hex_encode warns deadline now (others ++ more) c
          ≡ wait_for_device_info hex_encode warns deadline (clock_after now others) more c
    unfolding wait_for_device_info
    wait_for_device_info-skips now [] more c h k = refl
    wait_for_device_info-skips now (a ∷ others) more c h k =
        let again = wait_for_device_info hex_encode warns deadline a.clock (others ++ more) c in
        ap
          (λ late.
            if late
            then ready now (a ∷ others ++ more) c
            else on_device_signal hex_encode warns a.clock (others ++ more) a.signal c again)
          (early deadline now.instant h)
        ∙ on_device_signal-again a.clock (others ++ more) a.signal c again k.0.1
        ∙ wait_for_device_info-skips a.clock others more c k.0.0 k.1

    pub clock_after-early :
        (other : ℕ → Type 0) (now : Clock) (others : List Arrival)
        → now.instant < deadline
        → All (IsDiscarded other deadline) others
        → (clock_after now others).instant < deadline
    clock_after-early other now [] h k = h
    clock_after-early other now (a ∷ others) h k = clock_after-early other a.clock others k.0.0 k.1

    -- While only other frames than SELF_INFO have come, each before the deadline, the wait for it has not ended: no
    -- deadline ends it without a further arrival. A frame without a code that comes then panics where the log shows
    -- warnings, and is discarded else; a link that is lost then, or the shutdown, is an error.
    pub wait_for_self_info-discards :
        (now : Clock) (others : List Arrival) (next : Clock) (later : List Arrival) (c : Core)
        → now.instant < deadline
        → All (IsDiscarded NotSelfInfo deadline) others
        → let after = λ (signal : Signal).
          wait_for_self_info hex_encode warns deadline now
            (others ++ record { clock = next; signal = signal } ∷ later)
            c in
          (wait_for_self_info hex_encode warns deadline now others c ≡ waiting c)
          × (after (frame []) ≡ (
              if warns
              then panicked
              else wait_for_self_info hex_encode warns deadline next later c))
          × (after closed ≡ failed c)
          × (after stop ≡ failed c)
    unfolding wait_for_self_info
    wait_for_self_info-discards now others next later c h k =
        let in_time = early deadline _ (clock_after-early NotSelfInfo now others h k) in
        let next_is = λ (signal : Signal).
          wait_for_self_info-skips now others (record { clock = next; signal = signal } ∷ later) c h
            k
          ∙ ap
              (λ late.
                if late
                then failed c
                else on_self_signal hex_encode warns next later signal c
                    (wait_for_self_info hex_encode warns deadline next later c))
              in_time in
        (
          ap (λ l. wait_for_self_info hex_encode warns deadline now l c) (sym (append-nil others))
              ∙ wait_for_self_info-skips now others [] c h k
              ∙ ap (λ late. if late then failed c else waiting c) in_time,
          next_is (frame []),
          next_is closed,
          next_is stop,
        )
