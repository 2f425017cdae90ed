-- ===== src/Cli/Tests.antt =====
-- The options of src/cli.rs.
use coresplitter.Base.{◌≡◌, refl, true, some}
use coresplitter.Core.State.{LogLevel}
use coresplitter.Cli.{
  Cli, defaults, into_config, target, ble_device, event_log_level_of, filter_level,
}
use coresplitter.Cli.Backends.{target-into_config}

-- BLE comes before a TCP host.
abbrev two_backends : Cli
two_backends = record defaults { ble = some "AA:BB"; tcp_backend_host = some "radio.local" }

target-into_config_example :
    target true (into_config two_backends) ≡ some (ble_device "AA:BB" "123456")
target-into_config_example = target-into_config true two_backends

-- At the level of errors the event log is still written.
levels : (event_log_level_of "error" ≡ LogLevel.summary) × (filter_level "error" ≡ "error")
levels = (refl, refl)
