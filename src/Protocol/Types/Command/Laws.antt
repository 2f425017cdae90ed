-- ===== src/Protocol/Types/Command/Laws.antt =====
-- Bytes and names of `CommandCode`: each belongs to one code.
use Prim.Native.String.{String}
use coresplitter.Base.{
  ℕ, ◌<◌, ◌≡◌, ◌↔◌, refl, sym, ap, ◌∙◌, Bool, true, false, not, ◌==◌, ◌&&◌, ◌||◌, Option, none,
  some, List, [], ◌∷◌, arith, leb,
}
use coresplitter.Protocol.Types.Arms.{first_text, holds_below, holds_below_lem}
use coresplitter.Protocol.Types.Command.{
  CommandCode, app_start, send_msg, send_chan_msg, get_contacts, get_time, set_time, send_advert,
  set_name, update_contact, get_msg, set_radio, set_tx_power, reset_path, set_coords,
  remove_contact, share_contact, export_contact, import_contact, reboot, get_battery, set_tuning,
  device_query, export_private_key, import_private_key, send_raw_data, send_login, send_status_req,
  has_connection, send_logout, get_contact_by_key, get_channel, set_channel, sign_start, sign_data,
  sign_finish, send_trace, set_device_pin, set_other_params, get_telemetry, get_custom_vars,
  set_custom_var, get_advert_path, get_tuning_params, binary_req, factory_reset, path_discovery,
  set_flood_scope, send_control_data, get_stats, send_anon_req, set_autoadd_config,
  get_autoadd_config, get_allowed_repeat_freq, set_path_hash_mode, send_channel_data,
  set_default_flood_scope, get_default_flood_scope, send_raw_packet, run_cli_command, to_byte,
  from_byte, to_string,
}

from_byte-to_byte : (c : CommandCode) → from_byte (to_byte c) ≡ some c
unfolding from_byte to_byte
from_byte-to_byte app_start = refl
from_byte-to_byte _ = refl

-- The bytes that `from_byte` accepts.
abbrev pub is_assigned : ℕ → Bool
is_assigned b =
    (leb 0x01 b && leb b 0x2b) || (leb 0x32 b && leb b 0x34) || (leb 0x36 b && leb b 0x42)

code_at : Option CommandCode → ℕ → Bool
code_at none b = not (is_assigned b)
code_at (some c) b = is_assigned b && to_byte c == b

code_table : holds_below (λ b. code_at (from_byte b) b) 256 ≡ true
unfolding holds_below from_byte to_byte code_at
code_table = refl

code_at-true :
    (o : Option CommandCode) (b : ℕ) (c : CommandCode)
    → code_at o b ≡ true
    → (o ≡ some c → b ≡ to_byte c)
      × (o ≡ none → is_assigned b ≡ false)
      × (is_assigned b ≡ false → o ≡ none)
unfolding code_at
code_at-true none b c t = (λ e. cc, λ e. ground arith, λ a. refl)
code_at-true (some d) b c t = (λ e. ground arith, λ e. cc, λ a. ground arith)

-- For every byte, `from_byte` gives the code `c` exactly when the byte is the discriminant of `c`, and
-- gives no code exactly for the bytes outside 0x01 to 0x2b, 0x32 to 0x34 and 0x36 to 0x42.
pub from_byte-CommandCode :
    (b : ℕ) (c : CommandCode)
    → b < 256
    → ((from_byte b ≡ some c) ↔ (b ≡ to_byte c)) × ((from_byte b ≡ none) ↔ (is_assigned b ≡ false))
from_byte-CommandCode b c h =
    let (at, missing, unassigned) =
      code_at-true (from_byte b) b c (holds_below_lem _ 256 b h code_table) in
    ((at, λ e. rw e (from_byte-to_byte c)), (missing, unassigned))

names : List (String × CommandCode)
names =
    ("CMD_APPSTART", app_start)
    ∷ ("CMD_SEND_MSG", send_msg)
    ∷ ("CMD_SEND_CHAN_MSG", send_chan_msg)
    ∷ ("CMD_GET_CONTACTS", get_contacts)
    ∷ ("CMD_GET_TIME", get_time)
    ∷ ("CMD_SET_TIME", set_time)
    ∷ ("CMD_SEND_ADVERT", send_advert)
    ∷ ("CMD_SET_NAME", set_name)
    ∷ ("CMD_UPDATE_CONTACT", update_contact)
    ∷ ("CMD_GET_MSG", get_msg)
    ∷ ("CMD_SET_RADIO", set_radio)
    ∷ ("CMD_SET_TX_POWER", set_tx_power)
    ∷ ("CMD_RESET_PATH", reset_path)
    ∷ ("CMD_SET_COORDS", set_coords)
    ∷ ("CMD_REMOVE_CONTACT", remove_contact)
    ∷ ("CMD_SHARE_CONTACT", share_contact)
    ∷ ("CMD_EXPORT_CONTACT", export_contact)
    ∷ ("CMD_IMPORT_CONTACT", import_contact)
    ∷ ("CMD_REBOOT", reboot)
    ∷ ("CMD_GET_BATTERY", get_battery)
    ∷ ("CMD_SET_TUNING", set_tuning)
    ∷ ("CMD_DEVICE_QUERY", device_query)
    ∷ ("CMD_EXPORT_PRIVATE_KEY", export_private_key)
    ∷ ("CMD_IMPORT_PRIVATE_KEY", import_private_key)
    ∷ ("CMD_SEND_RAW_DATA", send_raw_data)
    ∷ ("CMD_SEND_LOGIN", send_login)
    ∷ ("CMD_SEND_STATUS_REQ", send_status_req)
    ∷ ("CMD_HAS_CONNECTION", has_connection)
    ∷ ("CMD_SEND_LOGOUT", send_logout)
    ∷ ("CMD_GET_CONTACT_BY_KEY", get_contact_by_key)
    ∷ ("CMD_GET_CHANNEL", get_channel)
    ∷ ("CMD_SET_CHANNEL", set_channel)
    ∷ ("CMD_SIGN_START", sign_start)
    ∷ ("CMD_SIGN_DATA", sign_data)
    ∷ ("CMD_SIGN_FINISH", sign_finish)
    ∷ ("CMD_SEND_TRACE", send_trace)
    ∷ ("CMD_SET_DEVICE_PIN", set_device_pin)
    ∷ ("CMD_SET_OTHER_PARAMS", set_other_params)
    ∷ ("CMD_GET_TELEMETRY", get_telemetry)
    ∷ ("CMD_GET_CUSTOM_VARS", get_custom_vars)
    ∷ ("CMD_SET_CUSTOM_VAR", set_custom_var)
    ∷ ("CMD_GET_ADVERT_PATH", get_advert_path)
    ∷ ("CMD_GET_TUNING_PARAMS", get_tuning_params)
    ∷ ("CMD_BINARY_REQ", binary_req)
    ∷ ("CMD_FACTORY_RESET", factory_reset)
    ∷ ("CMD_PATH_DISCOVERY", path_discovery)
    ∷ ("CMD_SET_FLOOD_SCOPE", set_flood_scope)
    ∷ ("CMD_SEND_CONTROL_DATA", send_control_data)
    ∷ ("CMD_GET_STATS", get_stats)
    ∷ ("CMD_SEND_ANON_REQ", send_anon_req)
    ∷ ("CMD_SET_AUTOADD_CONFIG", set_autoadd_config)
    ∷ ("CMD_GET_AUTOADD_CONFIG", get_autoadd_config)
    ∷ ("CMD_GET_ALLOWED_REPEAT_FREQ", get_allowed_repeat_freq)
    ∷ ("CMD_SET_PATH_HASH_MODE", set_path_hash_mode)
    ∷ ("CMD_SEND_CHANNEL_DATA", send_channel_data)
    ∷ ("CMD_SET_DEFAULT_FLOOD_SCOPE", set_default_flood_scope)
    ∷ ("CMD_GET_DEFAULT_FLOOD_SCOPE", get_default_flood_scope)
    ∷ ("CMD_SEND_RAW_PACKET", send_raw_packet)
    ∷ ("CMD_RUN_CLI_COMMAND", run_cli_command)
    ∷ []

first_text-to_string : (c : CommandCode) → first_text (to_string c) names ≡ some c
unfolding first_text to_string names
first_text-to_string app_start = refl
first_text-to_string _ = refl

-- Two codes with the same name in the log are the same code.
pub to_string-CommandCode : (c d : CommandCode) → to_string c ≡ to_string d → c ≡ d
to_string-CommandCode c d e =
    let same : some c ≡ some d =
      sym (first_text-to_string c) ∙ ap (λ s. first_text s names) e ∙ first_text-to_string d in
    cc
