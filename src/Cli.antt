-- ===== src/Cli.antt =====
-- src/cli.rs: the options of the program and the configuration made of them, the level of src/logging.rs, and the
-- backend that `connect_backend` of src/core.rs takes. Reading the options is clap's work.
pub mod Backends
mod Tests
use Prim.Native.String.{String}
use text.Mathlib.Text.{◌==◌ as str_eq}
use coresplitter.Base.{ℕ, Bool, true, false, Option, none, some, List, [], ◌∷◌, if◌then◌else◌}
use coresplitter.Node.State.{Backlog, off}
use coresplitter.Core.State.{CoreConfig, LogLevel, BackendType, serial, ble, tcp}

pub record Cli : Type 0 where
  pub serial : Option String
  pub baud : ℕ
  pub ble : Option String
  pub ble_pin : String
  pub tcp_backend_host : Option String
  pub tcp_backend_port : ℕ
  pub tcp_frontend_host : String
  pub tcp_frontend_port : List ℕ
  pub data_dir : String
  pub log_level : String
  pub json : Bool
  pub record_radio_rx : Bool
  pub messages_retention_days : ℕ
  pub raw_rx_retention_days : ℕ
  pub contacts_retention_days : ℕ
  pub clients_retention_days : ℕ
  pub new_client_backlog : Backlog

-- The default values; an option without one is not given.
abbrev pub defaults : Cli
defaults = record {
  serial = none;
  baud = 115_200;
  ble = none;
  ble_pin = "123456";
  tcp_backend_host = none;
  tcp_backend_port = 5000;
  tcp_frontend_host = "0.0.0.0";
  tcp_frontend_port = 5000 ∷ [];
  data_dir = "./data";
  log_level = "info";
  json = false;
  record_radio_rx = false;
  messages_retention_days = 0;
  raw_rx_retention_days = 7;
  contacts_retention_days = 0;
  clients_retention_days = 180;
  new_client_backlog = off;
}

-- The three `is_some` tests, one after the other.
abbrev pub backend_type_of : Option String → Option String → Option String → BackendType
backend_type_of (some port) address host = BackendType.serial
backend_type_of none (some address) host = BackendType.ble
backend_type_of none none (some host) = BackendType.tcp
backend_type_of none none none = BackendType.serial

abbrev pub event_log_level_of : String → LogLevel
event_log_level_of level =
    if str_eq level "off"
    then LogLevel.off
    else if str_eq level "verbose"
    then LogLevel.verbose
    else LogLevel.summary

unfoldable pub into_config : Cli → CoreConfig
into_config cli = record {
  backend_type = backend_type_of cli.serial cli.ble cli.tcp_backend_host;
  serial_port = cli.serial;
  serial_baud = cli.baud;
  ble_address = cli.ble;
  ble_pin = cli.ble_pin;
  tcp_backend_host = cli.tcp_backend_host;
  tcp_backend_port = cli.tcp_backend_port;
  tcp_frontend_host = cli.tcp_frontend_host;
  tcp_frontend_ports = cli.tcp_frontend_port;
  data_dir = cli.data_dir;
  event_log_level = event_log_level_of cli.log_level;
  event_log_json = cli.json;
  record_radio_rx = cli.record_radio_rx;
  retention = record {
    messages_days = cli.messages_retention_days;
    raw_rx_days = cli.raw_rx_retention_days;
    contacts_days = cli.contacts_retention_days;
    clients_days = cli.clients_retention_days;
  };
  new_client_backlog = cli.new_client_backlog;
}

-- The level of the filter, where the environment sets none.
abbrev pub filter_level : String → String
filter_level level =
    if str_eq level "off"
    then "error"
    else if str_eq level "error"
    then "error"
    else if str_eq level "warn"
    then "warn"
    else if str_eq level "info"
    then "info"
    else if str_eq level "debug"
    then "debug"
    else if str_eq level "verbose"
    then "debug"
    else "info"

-- What `connect_backend` connects to.
pub data Target : Type 0 where
  serial_line : String → ℕ → Target
  ble_device : String → String → Target
  tcp_host : String → ℕ → Target

abbrev pub serial_target : ℕ → Option String → Option Target
serial_target baud none = none
serial_target baud (some port) = some (serial_line port baud)

-- The feature `ble` may be left out of the build.
abbrev pub ble_target : Bool → String → Option String → Option Target
ble_target has_ble pin none = none
ble_target true pin (some address) = some (ble_device address pin)
ble_target false pin (some address) = none

abbrev pub tcp_target : ℕ → Option String → Option Target
tcp_target port none = none
tcp_target port (some host) = some (tcp_host host port)

abbrev pub target_of_type : Bool → CoreConfig → BackendType → Option Target
target_of_type has_ble config serial = serial_target config.serial_baud config.serial_port
target_of_type has_ble config ble = ble_target has_ble config.ble_pin config.ble_address
target_of_type has_ble config tcp = tcp_target config.tcp_backend_port config.tcp_backend_host

-- `none` is an error.
unfoldable pub target : Bool → CoreConfig → Option Target
target has_ble config = target_of_type has_ble config config.backend_type
