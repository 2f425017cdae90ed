-- ===== src/Core/Connect/Tests.antt =====
-- Connecting to a radio (src/core.rs) on single runs.
use coresplitter.Base.{
  ℕ, ◌^◌, ◌≡◌, inr, refl, min, true, false, List, some, [], ◌∷◌, ◌++◌, arith, replicate,
}
use coresplitter.Base.Bytes.{Bytes}
use coresplitter.Base.Utf8.{from_utf8_lossy, trim_end_zeros}
use coresplitter.Node.State.{kv_set}
use coresplitter.Protocol.Decode.{first_match, range, index}
use coresplitter.Protocol.Decode.Response.{
  decode_response_payload, response_arms, decode_self_info, decode_device_info,
}
use coresplitter.Protocol.Decode.Tests.{hex_encode, length-hex_encode}
use coresplitter.Core.State.{Core, Clock, with_db}
use coresplitter.Core.Cache.{cache_response, extract_radio_identity, extract_max_channels, get}
use coresplitter.Core.Queue.{fail_requests}
use coresplitter.Core.Connect.{
  Signal, frame, closed, stop, Arrival, Attempt, slept, connected, up, trying, reconnect_radio,
  wait_for_self_info, waiting, panicked, failed,
}
use coresplitter.Core.Connect.Discards.{wait_for_self_info-discards}
use coresplitter.Core.Connect.Settled.{IsSettled, IsUp, reconnect_radio-IsSettled}
use coresplitter.Core.Connect.Liveness.{
  refused_attempt, Answers, all_arrivals, steady, reconnect_radio-delay, reconnect_radio-up,
}
use coresplitter.Core.Connect.Restore.{restore_blobs}
use coresplitter.Core.Connect.Restore.Laws.{SameRadio, restore_blobs-cache_response}
use coresplitter.Core.Tests.{busy, idle}

abbrev at : ℕ → Clock
at ms = record { instant = ms; unix = 500 }

reconnect_radio-delay_example :
    reconnect_radio hex_encode true (replicate 7 refused_attempt) busy
    ≡ trying (min (2 ^ 7) 60) (fail_requests busy)
reconnect_radio-delay_example = reconnect_radio-delay hex_encode true 7 busy

-- A push of the radio before SELF_INFO.
abbrev pushed : Arrival
pushed = record { clock = at 100; signal = frame (0x83 ∷ []) }

wait_for_self_info-discards_example :
    let after = λ (signal : Signal).
      wait_for_self_info hex_encode true 5000
        (at 0)
        (pushed ∷ record { clock = at 9000; signal = signal } ∷ [])
        idle in
    (wait_for_self_info hex_encode true 5000 (at 0) (pushed ∷ []) idle ≡ waiting idle)
    × (after (frame []) ≡ panicked)
    × (after closed ≡ failed idle)
    × (after stop ≡ failed idle)
wait_for_self_info-discards_example =
    wait_for_self_info-discards hex_encode true 5000 (at 0) (pushed ∷ []) (at 9000) [] idle
      (omega arith) ((omega arith, omega arith), tt)

abbrev answers : Answers
answers = record {
  start = at 0;
  before = pushed ∷ [];
  self_clock = at 200;
  self_rest = replicate 60 1;
  between = [];
  device_clock = at 300;
  device_code = 0x01;
  device_rest = [];
  later = [];
}

-- The backend cannot connect; then the radio answers, but the link ends before the sync.
abbrev attempts : List Attempt
attempts =
    refused_attempt
    ∷ record {
      pause = slept;
      connection =
          connected (at 0) (record { hello = true; query = true; sync = false })
            (all_arrivals answers);
    }
    ∷ []

reconnect_radio-IsSettled_example : IsSettled (reconnect_radio hex_encode true attempts busy)
reconnect_radio-IsSettled_example = reconnect_radio-IsSettled hex_encode true attempts busy

reconnect_radio-up_example :
    let attempt : Attempt = record {
      pause = slept;
      connection = connected (at 0) steady (all_arrivals answers);
    } in
    (d : Core) × (reconnect_radio hex_encode true (replicate 3 refused_attempt ++ attempt ∷ []) busy
      ≡ up d)
    × IsUp d
reconnect_radio-up_example =
    reconnect_radio-up hex_encode true length-hex_encode 3 answers [] busy
      (((omega arith, omega arith), tt), tt, inr refl)

abbrev self_info : Bytes
self_info = 0x05 ∷ replicate 55 1 ++ b'N' ∷ []

abbrev device_info : Bytes
device_info = 0x0D ∷ 9 ∷ 50 ∷ 8 ∷ []

abbrev told : Core
told = record (with_db (kv_set "self_info_raw" self_info) idle).1 {
  self_info_raw = some self_info;
  radio_pubkey = some (replicate 32 1);
  radio_name = some (b'N' ∷ []);
}

abbrev told_both : Core
told_both = record (with_db (kv_set "device_info_raw" device_info) told).1 {
  device_info_raw = some device_info;
  max_channels = 8;
}

self-cached : cache_response hex_encode (at 0) 0x05 self_info idle ≡ some told
unfolding cache_response extract_radio_identity decode_response_payload first_match response_arms
    decode_self_info range index get from_utf8_lossy trim_end_zeros
self-cached = refl

device-cached : cache_response hex_encode (at 1) 0x0D device_info told ≡ some told_both
unfolding cache_response extract_max_channels decode_response_payload first_match response_arms
    decode_device_info range index get
device-cached = refl

restore_blobs-cache_response_example :
    (g : Core) × (restore_blobs hex_encode (record idle { db = told_both.db }) ≡ some g)
    × SameRadio g told_both
restore_blobs-cache_response_example =
    restore_blobs-cache_response hex_encode (at 0) (at 1) self_info device_info idle told told_both
      refl refl refl self-cached device-cached
