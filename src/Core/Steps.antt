-- ===== src/Core/Steps.antt =====
-- src/core.rs: the steps that the loop of `run` takes while the radio is up, as one function on the state.
pub mod Serial
pub mod Conserving
pub mod Panic
pub mod Tests
use coresplitter.Base.{Option, some}
use coresplitter.Base.Bytes.{Bytes}
use coresplitter.Core.State.{Core, ClientCommand, Clock}
use coresplitter.Core.Queue.{check_in_flight_timeout, run_maintenance}
use coresplitter.Core.Receive.{handle_radio_rx}
use coresplitter.Core.Commands.{handle_client_command}

-- A command from a client, a frame from the radio, the two timers.
pub data Event : Type 0 where
  command : ClientCommand → Event
  received : Bytes → Event
  timeout_tick maintenance_tick : Event

-- `none` is a panic, which ends the proxy.
unfoldable pub handle : (Bytes → Bytes) → Clock → Event → Core → Option Core
handle hex_encode clock (command cmd) core = handle_client_command hex_encode clock cmd core
handle hex_encode clock (received payload) core = handle_radio_rx hex_encode clock payload core
handle hex_encode clock timeout_tick core = some (check_in_flight_timeout clock core)
handle hex_encode clock maintenance_tick core = some (run_maintenance clock core)
