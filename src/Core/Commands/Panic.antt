-- ===== src/Core/Commands/Panic.antt =====
-- Where `handle_client_command` of src/core.rs panics.
use coresplitter.Base.{
  ℕ, ◌≡◌, ◌≢◌, ◌<◌, ◌↔◌, refl, Bool, true, false, none, some, [], ◌∷◌, arith, length, if◌then◌else◌,
}
use coresplitter.Base.Bytes.{Bytes, byte_at}
use coresplitter.Protocol.Decode.{◌>>=◌}
use coresplitter.Protocol.Decode.Chain.{bind-panic}
use coresplitter.Protocol.Decode.Command.Panic.{decode_command_payload-panic}
use coresplitter.Core.State.{Core, Clock, ClientCommand, off}
use coresplitter.Core.Clients.{client_is_alive}
use coresplitter.Core.Log.{log_event, to_radio, decode_payload}
use coresplitter.Core.Log.Panic.{log_event-panic}
use coresplitter.Core.Commands.{handle_client_command, handle_payload, accept_command}

-- A GET_CONTACTS with a `since` that is cut short.
abbrev pub IsCutCommand : Bytes → Type 0
IsCutCommand payload = (byte_at payload 0 ≡ 0x04) × (1 < length payload) × (length payload < 5)

module _ (hex_encode : Bytes → Bytes) (clock : Clock) (cmd : ClientCommand) (c : Core) where
  logged-panic :
      (code : ℕ) (rest : Bytes)
      → (log_event hex_encode c.config.event_log_level to_radio code (code ∷ rest) ≡ none)
        ↔ ((c.config.event_log_level ≢ off) × IsCutCommand (code ∷ rest))
  unfolding decode_payload
  logged-panic code rest =
      let log = log_event-panic hex_encode c.config.event_log_level to_radio code (code ∷ rest) in
      let decoded = decode_command_payload-panic hex_encode code (code ∷ rest) in
      (λ e. let h = log.0 e in (h.0, decoded.0 h.1), λ h. log.1 (h.0, decoded.1 h.1))

  accepted-panic :
      (code : ℕ) (rest : Bytes) (alive : Bool)
      → ((if alive
            then (log_event hex_encode c.config.event_log_level to_radio code (code ∷ rest)
                >>= λ event. some (accept_command clock code cmd c))
            else some c)
          ≡ none)
        ↔ ((alive ≡ true) × (c.config.event_log_level ≢ off) × IsCutCommand (code ∷ rest))
  accepted-panic code rest true =
      let logged = logged-panic code rest in
      let both =
        bind-panic (log_event hex_encode c.config.event_log_level to_radio code (code ∷ rest))
          (λ event. accept_command clock code cmd c) in
      (λ e. let l = logged.0 (both.0 e) in (refl, l.0, l.1), λ h. both.1 (logged.1 (h.1, h.2)))
  accepted-panic code rest false = (λ e. cc, λ h. cc)

  payload-panic :
      (payload : Bytes)
      → (handle_payload hex_encode clock cmd payload c ≡ none) ↔ (
          (client_is_alive c cmd.client_id ≡ true)
          × (c.config.event_log_level ≢ off)
          × IsCutCommand payload)
  payload-panic [] = (λ e. cc, λ h. absurd (omega (arith, h.2.1)))
  payload-panic (code ∷ rest) = accepted-panic code rest (client_is_alive c cmd.client_id)

  -- A command stops the proxy exactly when its client is there, the event log is on, and it is a GET_CONTACTS of
  -- two to four bytes.
  pub handle_client_command-panic : (handle_client_command hex_encode clock cmd c ≡ none) ↔ (
      (client_is_alive c cmd.client_id ≡ true)
      × (c.config.event_log_level ≢ off)
      × IsCutCommand cmd.payload)
  unfolding handle_client_command
  handle_client_command-panic = payload-panic cmd.payload
