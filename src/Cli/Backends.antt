-- ===== src/Cli/Backends.antt =====
-- Which radio the options of src/cli.rs lead to (`connect_backend` of src/core.rs).
use Prim.Native.String.{String}
use coresplitter.Base.{ap, ◌∙◌, ◌≡◌, refl, Bool, true, false, Option, none, some, if◌then◌else◌}
use coresplitter.Cli.{
  Cli, into_config, backend_type_of, Target, serial_line, ble_device, tcp_host, target,
  target_of_type, serial_target, ble_target, tcp_target,
}

-- The first of the options that is given.
abbrev pub chosen : Bool → Cli → Option String → Option String → Option String → Option Target
chosen has_ble cli (some port) address host = some (serial_line port cli.baud)
chosen has_ble cli none (some address) host =
    if has_ble then some (ble_device address cli.ble_pin) else none
chosen has_ble cli none none (some host) = some (tcp_host host cli.tcp_backend_port)
chosen has_ble cli none none none = none

with_feature :
    (has_ble : Bool) (pin address : String)
    → ble_target has_ble pin (some address)
      ≡ (if has_ble then some (ble_device address pin) else none)
with_feature true pin address = refl
with_feature false pin address = refl

-- The core connects to the serial port if one is given, else to the BLE device if one is given, else to the TCP host;
-- it is an error if none of them is given, or if the BLE device is chosen and the program is built without BLE.
pub target-into_config :
    (has_ble : Bool) (cli : Cli)
    → target has_ble (into_config cli) ≡ chosen has_ble cli cli.serial cli.ble cli.tcp_backend_host
unfolding target into_config
target-into_config has_ble cli = go cli.serial cli.ble cli.tcp_backend_host refl refl refl
  where
    go :
        (serial ble host : Option String)
        → cli.serial ≡ serial
        → cli.ble ≡ ble
        → cli.tcp_backend_host ≡ host
        → target_of_type has_ble (into_config cli) (backend_type_of serial ble host)
          ≡ chosen has_ble cli serial ble host
    go (some port) ble host s b h = ap (serial_target cli.baud) s
    go none (some address) host s b h =
        ap (ble_target has_ble cli.ble_pin) b ∙ with_feature has_ble cli.ble_pin address
    go none none (some host) s b h = ap (tcp_target cli.tcp_backend_port) h
    go none none none s b h = ap (serial_target cli.baud) s
