-- ===== src/Protocol/Types/Response.antt =====
-- src/protocol/types.rs: `ResponseCode`, its bytes and its names.
pub mod Laws
use Prim.Native.String.{String}
use coresplitter.Base.{ℕ, Option, List, [], ◌∷◌}
use coresplitter.Protocol.Types.Arms.{first_arm}

pub data ResponseCode : Type 0 where
  ok error contact_start contact contact_end self_info msg_sent contact_msg_recv : ResponseCode
  channel_msg_recv current_time no_more_msgs contact_uri battery device_info private_key :
      ResponseCode
  disabled contact_msg_recv_v3 channel_msg_recv_v3 channel_info sign_start signature : ResponseCode
  custom_vars advert_path tuning_params stats autoadd_config allowed_repeat_freq : ResponseCode
  channel_data_recv default_flood_scope cli_reply advertisement path_update ack : ResponseCode
  messages_waiting raw_data login_success login_failed status_response log_data : ResponseCode
  trace_data new_advert telemetry_response binary_response path_discovery_response : ResponseCode
  control_data contact_deleted contacts_full : ResponseCode

-- The discriminants, `response as u8`.
unfoldable pub to_byte : ResponseCode → ℕ
to_byte ok = 0x00
to_byte error = 0x01
to_byte contact_start = 0x02
to_byte contact = 0x03
to_byte contact_end = 0x04
to_byte self_info = 0x05
to_byte msg_sent = 0x06
to_byte contact_msg_recv = 0x07
to_byte channel_msg_recv = 0x08
to_byte current_time = 0x09
to_byte no_more_msgs = 0x0A
to_byte contact_uri = 0x0B
to_byte battery = 0x0C
to_byte device_info = 0x0D
to_byte private_key = 0x0E
to_byte disabled = 0x0F
to_byte contact_msg_recv_v3 = 0x10
to_byte channel_msg_recv_v3 = 0x11
to_byte channel_info = 0x12
to_byte sign_start = 0x13
to_byte signature = 0x14
to_byte custom_vars = 0x15
to_byte advert_path = 0x16
to_byte tuning_params = 0x17
to_byte stats = 0x18
to_byte autoadd_config = 0x19
to_byte allowed_repeat_freq = 0x1A
to_byte channel_data_recv = 0x1B
to_byte default_flood_scope = 0x1C
to_byte cli_reply = 0x1D
to_byte advertisement = 0x80
to_byte path_update = 0x81
to_byte ack = 0x82
to_byte messages_waiting = 0x83
to_byte raw_data = 0x84
to_byte login_success = 0x85
to_byte login_failed = 0x86
to_byte status_response = 0x87
to_byte log_data = 0x88
to_byte trace_data = 0x89
to_byte new_advert = 0x8A
to_byte telemetry_response = 0x8B
to_byte binary_response = 0x8C
to_byte path_discovery_response = 0x8D
to_byte control_data = 0x8E
to_byte contact_deleted = 0x8F
to_byte contacts_full = 0x90

unfoldable pub from_byte : ℕ → Option ResponseCode
unfolding first_arm
from_byte b = first_arm b (
    (0x00, ok)
    ∷ (0x01, error)
    ∷ (0x02, contact_start)
    ∷ (0x03, contact)
    ∷ (0x04, contact_end)
    ∷ (0x05, self_info)
    ∷ (0x06, msg_sent)
    ∷ (0x07, contact_msg_recv)
    ∷ (0x08, channel_msg_recv)
    ∷ (0x09, current_time)
    ∷ (0x0A, no_more_msgs)
    ∷ (0x0B, contact_uri)
    ∷ (0x0C, battery)
    ∷ (0x0D, device_info)
    ∷ (0x0E, private_key)
    ∷ (0x0F, disabled)
    ∷ (0x10, contact_msg_recv_v3)
    ∷ (0x11, channel_msg_recv_v3)
    ∷ (0x12, channel_info)
    ∷ (0x13, sign_start)
    ∷ (0x14, signature)
    ∷ (0x15, custom_vars)
    ∷ (0x16, advert_path)
    ∷ (0x17, tuning_params)
    ∷ (0x18, stats)
    ∷ (0x19, autoadd_config)
    ∷ (0x1A, allowed_repeat_freq)
    ∷ (0x1B, channel_data_recv)
    ∷ (0x1C, default_flood_scope)
    ∷ (0x1D, cli_reply)
    ∷ (0x80, advertisement)
    ∷ (0x81, path_update)
    ∷ (0x82, ack)
    ∷ (0x83, messages_waiting)
    ∷ (0x84, raw_data)
    ∷ (0x85, login_success)
    ∷ (0x86, login_failed)
    ∷ (0x87, status_response)
    ∷ (0x88, log_data)
    ∷ (0x89, trace_data)
    ∷ (0x8A, new_advert)
    ∷ (0x8B, telemetry_response)
    ∷ (0x8C, binary_response)
    ∷ (0x8D, path_discovery_response)
    ∷ (0x8E, control_data)
    ∷ (0x8F, contact_deleted)
    ∷ (0x90, contacts_full)
    ∷ [])

-- `fmt::Display`.
unfoldable pub to_string : ResponseCode → String
to_string ok = "OK"
to_string error = "ERROR"
to_string contact_start = "CONTACT_START"
to_string contact = "CONTACT"
to_string contact_end = "CONTACT_END"
to_string self_info = "SELF_INFO"
to_string msg_sent = "MSG_SENT"
to_string contact_msg_recv = "CONTACT_MSG_RECV"
to_string channel_msg_recv = "CHANNEL_MSG_RECV"
to_string current_time = "CURRENT_TIME"
to_string no_more_msgs = "NO_MORE_MSGS"
to_string contact_uri = "CONTACT_URI"
to_string battery = "BATTERY"
to_string device_info = "DEVICE_INFO"
to_string private_key = "PRIVATE_KEY"
to_string disabled = "DISABLED"
to_string contact_msg_recv_v3 = "CONTACT_MSG_RECV_V3"
to_string channel_msg_recv_v3 = "CHANNEL_MSG_RECV_V3"
to_string channel_info = "CHANNEL_INFO"
to_string sign_start = "SIGN_START"
to_string signature = "SIGNATURE"
to_string custom_vars = "CUSTOM_VARS"
to_string advert_path = "ADVERT_PATH"
to_string tuning_params = "TUNING_PARAMS"
to_string stats = "STATS"
to_string autoadd_config = "AUTOADD_CONFIG"
to_string allowed_repeat_freq = "ALLOWED_REPEAT_FREQ"
to_string channel_data_recv = "CHANNEL_DATA_RECV"
to_string default_flood_scope = "DEFAULT_FLOOD_SCOPE"
to_string cli_reply = "CLI_REPLY"
to_string advertisement = "ADVERTISEMENT"
to_string path_update = "PATH_UPDATE"
to_string ack = "ACK"
to_string messages_waiting = "MESSAGES_WAITING"
to_string raw_data = "RAW_DATA"
to_string login_success = "LOGIN_SUCCESS"
to_string login_failed = "LOGIN_FAILED"
to_string status_response = "STATUS_RESPONSE"
to_string log_data = "LOG_DATA"
to_string trace_data = "TRACE_DATA"
to_string new_advert = "NEW_ADVERT"
to_string telemetry_response = "TELEMETRY_RESPONSE"
to_string binary_response = "BINARY_RESPONSE"
to_string path_discovery_response = "PATH_DISCOVERY_RESPONSE"
to_string control_data = "CONTROL_DATA"
to_string contact_deleted = "CONTACT_DELETED"
to_string contacts_full = "CONTACTS_FULL"
