-- ===== src/Protocol/Types/Command.antt =====
-- src/protocol/types.rs: `CommandCode`, its bytes and its names.
pub mod Laws
use Prim.Native.String.{String}
use coresplitter.Base.{ℕ, Option, List, [], ◌∷◌}
use coresplitter.Protocol.Types.Arms.{first_arm}

pub data CommandCode : Type 0 where
  app_start send_msg send_chan_msg get_contacts get_time set_time send_advert set_name : CommandCode
  update_contact get_msg set_radio set_tx_power reset_path set_coords remove_contact : CommandCode
  share_contact export_contact import_contact reboot get_battery set_tuning device_query :
      CommandCode
  export_private_key import_private_key send_raw_data send_login send_status_req : CommandCode
  has_connection send_logout get_contact_by_key get_channel set_channel sign_start : CommandCode
  sign_data sign_finish send_trace set_device_pin set_other_params get_telemetry : CommandCode
  get_custom_vars set_custom_var get_advert_path get_tuning_params binary_req : CommandCode
  factory_reset path_discovery set_flood_scope send_control_data get_stats send_anon_req :
      CommandCode
  set_autoadd_config get_autoadd_config get_allowed_repeat_freq set_path_hash_mode : CommandCode
  send_channel_data set_default_flood_scope get_default_flood_scope send_raw_packet : CommandCode
  run_cli_command : CommandCode

-- The discriminants, `command as u8`.
unfoldable pub to_byte : CommandCode → ℕ
to_byte app_start = 0x01
to_byte send_msg = 0x02
to_byte send_chan_msg = 0x03
to_byte get_contacts = 0x04
to_byte get_time = 0x05
to_byte set_time = 0x06
to_byte send_advert = 0x07
to_byte set_name = 0x08
to_byte update_contact = 0x09
to_byte get_msg = 0x0A
to_byte set_radio = 0x0B
to_byte set_tx_power = 0x0C
to_byte reset_path = 0x0D
to_byte set_coords = 0x0E
to_byte remove_contact = 0x0F
to_byte share_contact = 0x10
to_byte export_contact = 0x11
to_byte import_contact = 0x12
to_byte reboot = 0x13
to_byte get_battery = 0x14
to_byte set_tuning = 0x15
to_byte device_query = 0x16
to_byte export_private_key = 0x17
to_byte import_private_key = 0x18
to_byte send_raw_data = 0x19
to_byte send_login = 0x1A
to_byte send_status_req = 0x1B
to_byte has_connection = 0x1C
to_byte send_logout = 0x1D
to_byte get_contact_by_key = 0x1E
to_byte get_channel = 0x1F
to_byte set_channel = 0x20
to_byte sign_start = 0x21
to_byte sign_data = 0x22
to_byte sign_finish = 0x23
to_byte send_trace = 0x24
to_byte set_device_pin = 0x25
to_byte set_other_params = 0x26
to_byte get_telemetry = 0x27
to_byte get_custom_vars = 0x28
to_byte set_custom_var = 0x29
to_byte get_advert_path = 0x2A
to_byte get_tuning_params = 0x2B
to_byte binary_req = 0x32
to_byte factory_reset = 0x33
to_byte path_discovery = 0x34
to_byte set_flood_scope = 0x36
to_byte send_control_data = 0x37
to_byte get_stats = 0x38
to_byte send_anon_req = 0x39
to_byte set_autoadd_config = 0x3A
to_byte get_autoadd_config = 0x3B
to_byte get_allowed_repeat_freq = 0x3C
to_byte set_path_hash_mode = 0x3D
to_byte send_channel_data = 0x3E
to_byte set_default_flood_scope = 0x3F
to_byte get_default_flood_scope = 0x40
to_byte send_raw_packet = 0x41
to_byte run_cli_command = 0x42

unfoldable pub from_byte : ℕ → Option CommandCode
unfolding first_arm
from_byte b = first_arm b (
    (0x01, app_start)
    ∷ (0x02, send_msg)
    ∷ (0x03, send_chan_msg)
    ∷ (0x04, get_contacts)
    ∷ (0x05, get_time)
    ∷ (0x06, set_time)
    ∷ (0x07, send_advert)
    ∷ (0x08, set_name)
    ∷ (0x09, update_contact)
    ∷ (0x0A, get_msg)
    ∷ (0x0B, set_radio)
    ∷ (0x0C, set_tx_power)
    ∷ (0x0D, reset_path)
    ∷ (0x0E, set_coords)
    ∷ (0x0F, remove_contact)
    ∷ (0x10, share_contact)
    ∷ (0x11, export_contact)
    ∷ (0x12, import_contact)
    ∷ (0x13, reboot)
    ∷ (0x14, get_battery)
    ∷ (0x15, set_tuning)
    ∷ (0x16, device_query)
    ∷ (0x17, export_private_key)
    ∷ (0x18, import_private_key)
    ∷ (0x19, send_raw_data)
    ∷ (0x1A, send_login)
    ∷ (0x1B, send_status_req)
    ∷ (0x1C, has_connection)
    ∷ (0x1D, send_logout)
    ∷ (0x1E, get_contact_by_key)
    ∷ (0x1F, get_channel)
    ∷ (0x20, set_channel)
    ∷ (0x21, sign_start)
    ∷ (0x22, sign_data)
    ∷ (0x23, sign_finish)
    ∷ (0x24, send_trace)
    ∷ (0x25, set_device_pin)
    ∷ (0x26, set_other_params)
    ∷ (0x27, get_telemetry)
    ∷ (0x28, get_custom_vars)
    ∷ (0x29, set_custom_var)
    ∷ (0x2A, get_advert_path)
    ∷ (0x2B, get_tuning_params)
    ∷ (0x32, binary_req)
    ∷ (0x33, factory_reset)
    ∷ (0x34, path_discovery)
    ∷ (0x36, set_flood_scope)
    ∷ (0x37, send_control_data)
    ∷ (0x38, get_stats)
    ∷ (0x39, send_anon_req)
    ∷ (0x3A, set_autoadd_config)
    ∷ (0x3B, get_autoadd_config)
    ∷ (0x3C, get_allowed_repeat_freq)
    ∷ (0x3D, set_path_hash_mode)
    ∷ (0x3E, send_channel_data)
    ∷ (0x3F, set_default_flood_scope)
    ∷ (0x40, get_default_flood_scope)
    ∷ (0x41, send_raw_packet)
    ∷ (0x42, run_cli_command)
    ∷ [])

-- `fmt::Display`.
unfoldable pub to_string : CommandCode → String
to_string app_start = "CMD_APPSTART"
to_string send_msg = "CMD_SEND_MSG"
to_string send_chan_msg = "CMD_SEND_CHAN_MSG"
to_string get_contacts = "CMD_GET_CONTACTS"
to_string get_time = "CMD_GET_TIME"
to_string set_time = "CMD_SET_TIME"
to_string send_advert = "CMD_SEND_ADVERT"
to_string set_name = "CMD_SET_NAME"
to_string update_contact = "CMD_UPDATE_CONTACT"
to_string get_msg = "CMD_GET_MSG"
to_string set_radio = "CMD_SET_RADIO"
to_string set_tx_power = "CMD_SET_TX_POWER"
to_string reset_path = "CMD_RESET_PATH"
to_string set_coords = "CMD_SET_COORDS"
to_string remove_contact = "CMD_REMOVE_CONTACT"
to_string share_contact = "CMD_SHARE_CONTACT"
to_string export_contact = "CMD_EXPORT_CONTACT"
to_string import_contact = "CMD_IMPORT_CONTACT"
to_string reboot = "CMD_REBOOT"
to_string get_battery = "CMD_GET_BATTERY"
to_string set_tuning = "CMD_SET_TUNING"
to_string device_query = "CMD_DEVICE_QUERY"
to_string export_private_key = "CMD_EXPORT_PRIVATE_KEY"
to_string import_private_key = "CMD_IMPORT_PRIVATE_KEY"
to_string send_raw_data = "CMD_SEND_RAW_DATA"
to_string send_login = "CMD_SEND_LOGIN"
to_string send_status_req = "CMD_SEND_STATUS_REQ"
to_string has_connection = "CMD_HAS_CONNECTION"
to_string send_logout = "CMD_SEND_LOGOUT"
to_string get_contact_by_key = "CMD_GET_CONTACT_BY_KEY"
to_string get_channel = "CMD_GET_CHANNEL"
to_string set_channel = "CMD_SET_CHANNEL"
to_string sign_start = "CMD_SIGN_START"
to_string sign_data = "CMD_SIGN_DATA"
to_string sign_finish = "CMD_SIGN_FINISH"
to_string send_trace = "CMD_SEND_TRACE"
to_string set_device_pin = "CMD_SET_DEVICE_PIN"
to_string set_other_params = "CMD_SET_OTHER_PARAMS"
to_string get_telemetry = "CMD_GET_TELEMETRY"
to_string get_custom_vars = "CMD_GET_CUSTOM_VARS"
to_string set_custom_var = "CMD_SET_CUSTOM_VAR"
to_string get_advert_path = "CMD_GET_ADVERT_PATH"
to_string get_tuning_params = "CMD_GET_TUNING_PARAMS"
to_string binary_req = "CMD_BINARY_REQ"
to_string factory_reset = "CMD_FACTORY_RESET"
to_string path_discovery = "CMD_PATH_DISCOVERY"
to_string set_flood_scope = "CMD_SET_FLOOD_SCOPE"
to_string send_control_data = "CMD_SEND_CONTROL_DATA"
to_string get_stats = "CMD_GET_STATS"
to_string send_anon_req = "CMD_SEND_ANON_REQ"
to_string set_autoadd_config = "CMD_SET_AUTOADD_CONFIG"
to_string get_autoadd_config = "CMD_GET_AUTOADD_CONFIG"
to_string get_allowed_repeat_freq = "CMD_GET_ALLOWED_REPEAT_FREQ"
to_string set_path_hash_mode = "CMD_SET_PATH_HASH_MODE"
to_string send_channel_data = "CMD_SEND_CHANNEL_DATA"
to_string set_default_flood_scope = "CMD_SET_DEFAULT_FLOOD_SCOPE"
to_string get_default_flood_scope = "CMD_GET_DEFAULT_FLOOD_SCOPE"
to_string send_raw_packet = "CMD_SEND_RAW_PACKET"
to_string run_cli_command = "CMD_RUN_CLI_COMMAND"
