-- ===== src/Realtime/Types.antt =====
-- src/realtime/realtime.types.ts: the close codes, the events and the options.
use zudue_api.Base.{ℕ, ◌*◌, String, Option}

-- `CloseCode`, with the names of the source.
pub data CloseCode : Type 0 where
  going_away unavailable protocol unauthorized auth_timeout evicted : CloseCode

unfoldable pub close_code : CloseCode → ℕ
close_code going_away = 1001
close_code unavailable = 1013
close_code protocol = 4400
close_code unauthorized = 4401
close_code auth_timeout = 4408
close_code evicted = 4429

pub data EndedByRole : Type 0 where
  fan partner admin : EndedByRole

-- `CallChangedMessage`: what a client is sent.
pub record CallChangedMessage : Type 0 where
  pub call_id : String
  pub booking_id : String
  pub status : String
  pub ended_by_role : Option EndedByRole

-- `CallChangedEvent`: the message and whom it is for.
pub record CallChangedEvent : Type 0 where
  pub message : CallChangedMessage
  pub fan_id : String
  pub partner_id : String

pub data ServerMessage : Type 0 where
  ready : ℕ → ServerMessage
  ping resync : ServerMessage
  call_changed : CallChangedMessage → ServerMessage

pub record RealtimeOptions : Type 0 where
  pub auth_timeout_ms : ℕ
  pub ping_interval_ms : ℕ
  pub max_per_user : ℕ
  pub max_pending : ℕ
  pub max_payload_bytes : ℕ
  pub max_buffered_bytes : ℕ

abbrev pub default_realtime_options : RealtimeOptions
default_realtime_options = record {
  auth_timeout_ms = 5000;
  ping_interval_ms = 25000;
  max_per_user = 5;
  max_pending = 200;
  max_payload_bytes = 8 * 1024;
  max_buffered_bytes = 256 * 1024;
}
