-- ===== src/Protocol/Types/Response/Laws.antt =====
-- Bytes and names of `ResponseCode`: each belongs to one code.
use Prim.Native.String.{String}
use coresplitter.Base.{
  ℕ, ◌<◌, ◌≡◌, ◌↔◌, refl, sym, ap, ◌∙◌, Bool, true, false, not, ◌==◌, ◌&&◌, ◌||◌, Option, none,
  some, List, [], ◌∷◌, arith, leb,
}
use coresplitter.Protocol.Types.Arms.{first_text, holds_below, holds_below_lem}
use coresplitter.Protocol.Types.Response.{
  ResponseCode, ok, error, contact_start, contact, contact_end, self_info, msg_sent,
  contact_msg_recv, channel_msg_recv, current_time, no_more_msgs, contact_uri, battery, device_info,
  private_key, disabled, contact_msg_recv_v3, channel_msg_recv_v3, channel_info, sign_start,
  signature, custom_vars, advert_path, tuning_params, stats, autoadd_config, allowed_repeat_freq,
  channel_data_recv, default_flood_scope, cli_reply, advertisement, path_update, ack,
  messages_waiting, raw_data, login_success, login_failed, status_response, log_data, trace_data,
  new_advert, telemetry_response, binary_response, path_discovery_response, control_data,
  contact_deleted, contacts_full, to_byte, from_byte, to_string,
}

from_byte-to_byte : (c : ResponseCode) → from_byte (to_byte c) ≡ some c
unfolding from_byte to_byte
from_byte-to_byte ok = refl
from_byte-to_byte _ = refl

-- The bytes that `from_byte` accepts.
abbrev pub is_assigned : ℕ → Bool
is_assigned b = leb b 0x1d || (leb 0x80 b && leb b 0x90)

code_at : Option ResponseCode → ℕ → Bool
code_at none b = not (is_assigned b)
code_at (some c) b = is_assigned b && to_byte c == b

code_table : holds_below (λ b. code_at (from_byte b) b) 256 ≡ true
unfolding holds_below from_byte to_byte code_at
code_table = refl

code_at-true :
    (o : Option ResponseCode) (b : ℕ) (c : ResponseCode)
    → code_at o b ≡ true
    → (o ≡ some c → b ≡ to_byte c)
      × (o ≡ none → is_assigned b ≡ false)
      × (is_assigned b ≡ false → o ≡ none)
unfolding code_at
code_at-true none b c t = (λ e. cc, λ e. ground arith, λ a. refl)
code_at-true (some d) b c t = (λ e. ground arith, λ e. cc, λ a. ground arith)

-- For every byte, `from_byte` gives the code `c` exactly when the byte is the discriminant of `c`, and
-- gives no code exactly for the bytes outside 0x00 to 0x1d and 0x80 to 0x90.
pub from_byte-ResponseCode :
    (b : ℕ) (c : ResponseCode)
    → b < 256
    → ((from_byte b ≡ some c) ↔ (b ≡ to_byte c)) × ((from_byte b ≡ none) ↔ (is_assigned b ≡ false))
from_byte-ResponseCode b c h =
    let (at, missing, unassigned) =
      code_at-true (from_byte b) b c (holds_below_lem _ 256 b h code_table) in
    ((at, λ e. rw e (from_byte-to_byte c)), (missing, unassigned))

names : List (String × ResponseCode)
names =
    ("OK", ok)
    ∷ ("ERROR", error)
    ∷ ("CONTACT_START", contact_start)
    ∷ ("CONTACT", contact)
    ∷ ("CONTACT_END", contact_end)
    ∷ ("SELF_INFO", self_info)
    ∷ ("MSG_SENT", msg_sent)
    ∷ ("CONTACT_MSG_RECV", contact_msg_recv)
    ∷ ("CHANNEL_MSG_RECV", channel_msg_recv)
    ∷ ("CURRENT_TIME", current_time)
    ∷ ("NO_MORE_MSGS", no_more_msgs)
    ∷ ("CONTACT_URI", contact_uri)
    ∷ ("BATTERY", battery)
    ∷ ("DEVICE_INFO", device_info)
    ∷ ("PRIVATE_KEY", private_key)
    ∷ ("DISABLED", disabled)
    ∷ ("CONTACT_MSG_RECV_V3", contact_msg_recv_v3)
    ∷ ("CHANNEL_MSG_RECV_V3", channel_msg_recv_v3)
    ∷ ("CHANNEL_INFO", channel_info)
    ∷ ("SIGN_START", sign_start)
    ∷ ("SIGNATURE", signature)
    ∷ ("CUSTOM_VARS", custom_vars)
    ∷ ("ADVERT_PATH", advert_path)
    ∷ ("TUNING_PARAMS", tuning_params)
    ∷ ("STATS", stats)
    ∷ ("AUTOADD_CONFIG", autoadd_config)
    ∷ ("ALLOWED_REPEAT_FREQ", allowed_repeat_freq)
    ∷ ("CHANNEL_DATA_RECV", channel_data_recv)
    ∷ ("DEFAULT_FLOOD_SCOPE", default_flood_scope)
    ∷ ("CLI_REPLY", cli_reply)
    ∷ ("ADVERTISEMENT", advertisement)
    ∷ ("PATH_UPDATE", path_update)
    ∷ ("ACK", ack)
    ∷ ("MESSAGES_WAITING", messages_waiting)
    ∷ ("RAW_DATA", raw_data)
    ∷ ("LOGIN_SUCCESS", login_success)
    ∷ ("LOGIN_FAILED", login_failed)
    ∷ ("STATUS_RESPONSE", status_response)
    ∷ ("LOG_DATA", log_data)
    ∷ ("TRACE_DATA", trace_data)
    ∷ ("NEW_ADVERT", new_advert)
    ∷ ("TELEMETRY_RESPONSE", telemetry_response)
    ∷ ("BINARY_RESPONSE", binary_response)
    ∷ ("PATH_DISCOVERY_RESPONSE", path_discovery_response)
    ∷ ("CONTROL_DATA", control_data)
    ∷ ("CONTACT_DELETED", contact_deleted)
    ∷ ("CONTACTS_FULL", contacts_full)
    ∷ []

first_text-to_string : (c : ResponseCode) → first_text (to_string c) names ≡ some c
unfolding first_text to_string names
first_text-to_string ok = refl
first_text-to_string _ = refl

-- Two codes with the same name in the log are the same code.
pub to_string-ResponseCode : (c d : ResponseCode) → to_string c ≡ to_string d → c ≡ d
to_string-ResponseCode c d e =
    let same : some c ≡ some d =
      sym (first_text-to_string c) ∙ ap (λ s. first_text s names) e ∙ first_text-to_string d in
    cc
