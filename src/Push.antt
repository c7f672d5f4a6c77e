-- ===== src/Push.antt =====
-- `PushService` of src/push/push.service.ts. `Promise.all` is taken in the order of its list, but for OneSignal,
-- whose request, which cannot fail, goes out while FCM's first is under way: it stands before the messages of FCM.
pub mod Senders
pub mod Pruning
pub mod Reports
use zudue_api.Base.{
  ℕ, ◌+◌, String, Bool, true, false, not, ◌&&◌, ◌||◌, Option, none, some, List, [], ◌∷◌, ◌++◌,
  or_else, has, ◌==◌, leb, nat_eq, if◌then◌else◌,
}
use zudue_api.Json.{Json, obj, end}
use zudue_api.Text.{includes}
use zudue_api.Effect.{M, pure, ◌>>=◌, ◌>>◌, call, attempt}
use zudue_api.Effect.Database.{run_as, run_as_service}
use zudue_api.Effect.Statements.{
  TokenRow, NewToken, upsert_push_token, select_push_tokens, delete_push_tokens,
}
use zudue_api.Effect.Requests.{
  EndStatus, IncomingCall, PushValue, text_value, json_value, printed, status_value, FcmBlock, apns,
  android, visible, FcmMessage, OneSignalMessage, HttpAnswer, get_access_token, send_fcm,
  send_onesignal, statement,
}
use Senders.{
  Providers, is_filled, fcm_enabled, onesignal_enabled, Target, is_dead, send_each, Data,
  data_message, send_data, visible_message, fcm_notification, notify_players,
}

-- The texts of a column that are there and not empty.
unfoldable pub filled : List (Option String) → List String
filled [] = []
filled (none ∷ ts) = filled ts
filled (some t ∷ ts) = if t == "" then filled ts else t ∷ filled ts

unfoldable pub fcm_tokens : List TokenRow → List Target
fcm_tokens [] = []
fcm_tokens (r ∷ rows) =
    let rest = fcm_tokens rows in
    elim r.fcm_token [
      | none ↦ rest
      | some t ↦ if t == "" then rest else record { token = t; platform = r.platform } ∷ rest
    ]

unfoldable pub player_columns : List TokenRow → List (Option String)
player_columns [] = []
player_columns (r ∷ rows) = r.onesignal_player_id ∷ player_columns rows

unfoldable pub player_ids : List TokenRow → List String
unfolding filled player_columns
player_ids rows = filled (player_columns rows)

-- Deletes the tokens that are dead.
unfoldable pub prune : String → List String → M (Unit {0})
prune fan_id [] = pure tt
prune fan_id (t ∷ ts) = call (statement (delete_push_tokens fan_id (t ∷ ts)))

-- `registerToken`
unfoldable pub register_token :
    String → Option String → Option String → Option String → Option Json → M Bool
register_token user_id fcm player platform device = run_as user_id (do
  call (
      statement (
        upsert_push_token (record {
          profile_id = user_id;
          fcm_token = fcm;
          onesignal_player_id = player;
          platform = or_else platform "android";
          device_info = or_else device (obj end);
        })))
  pure true)

unfoldable pub incoming_data : IncomingCall → Data
incoming_data c =
    ("type", text_value "incoming_call")
    ∷ ("callId", json_value c.call_id)
    ∷ ("bookingId", text_value c.booking_id)
    ∷ ("meetingId", json_value c.meeting_id)
    ∷ ("callerName", text_value c.caller_name)
    ∷ ("callerId", text_value c.caller_id)
    ∷ ("durationMinutes", printed c.duration_minutes)
    ∷ []

unfoldable pub send_incoming_call : Providers → ℕ → String → IncomingCall → M (Unit {0})
unfolding incoming_data fcm_tokens player_ids notify_players send_data prune
send_incoming_call p now fan_id c = run_as_service (do
  rows ← call (statement (select_push_tokens (fan_id ∷ [])))
  notify_players p (some p.call_channel) (player_ids rows) (incoming_data c) c.caller_name
      "Incoming video call"
  dead ← send_data p now (fcm_tokens rows) (incoming_data c) 45
  prune fan_id dead)

unfoldable pub notify_queue_next : Providers → String → String → String → Data → M (Unit {0})
unfolding fcm_tokens player_ids notify_players fcm_notification prune
notify_queue_next p fan_id title body fields = run_as_service (do
  rows ← call (statement (select_push_tokens (fan_id ∷ [])))
  notify_players p none (player_ids rows) fields title body
  dead ← fcm_notification p (fcm_tokens rows) title body fields
  prune fan_id dead)

unfoldable pub cancel_call : Providers → ℕ → String → Option Json → M (Unit {0})
unfolding fcm_tokens player_ids notify_players send_data
cancel_call p now fan_id call_id = run_as_service (do
  rows ← call (statement (select_push_tokens (fan_id ∷ [])))
  let fields = ("type", text_value "call_cancelled") ∷ ("callId", json_value call_id) ∷ []
  notify_players p (some p.call_channel) (player_ids rows) fields "Call ended" "Missed call"
  send_data p now (fcm_tokens rows) fields 20
  pure tt)

-- `[...new Set(ids.filter(Boolean))]`: each text once, where it comes first.
unfoldable pub distinct : List String → List String → List String
distinct seen [] = []
distinct seen (s ∷ ss) =
    let skip = s == "" || has s seen in
    let rest = distinct (if skip then seen else s ∷ seen) ss in if skip then rest else s ∷ rest

unfoldable pub ended_data : String → String → EndStatus → Option String → Data
unfolding is_filled
ended_data call_id booking_id status role =
    ("type", text_value "call_ended")
    ∷ ("callId", text_value call_id)
    ∷ ("bookingId", text_value booking_id)
    ∷ ("status", status_value status)
    ∷ (if is_filled role then ("endedByRole", text_value (or_else role "")) ∷ [] else [])

tell_ended : Providers → ℕ → List String → Data → M (Unit {0})
unfolding fcm_tokens player_ids notify_players send_data
tell_ended p now [] fields = pure tt
tell_ended p now (i ∷ ids) fields = run_as_service (do
  rows ← call (statement (select_push_tokens (i ∷ ids)))
  notify_players p none (player_ids rows) fields "Call ended" "Your call has ended."
  send_data p now (fcm_tokens rows) fields 20
  pure tt)

unfoldable pub notify_call_ended :
    Providers → ℕ → List String → String → String → EndStatus → Option String → M (Unit {0})
unfolding distinct tell_ended ended_data
notify_call_ended p now recipients call_id booking_id status role =
    tell_ended p now (distinct [] recipients) (ended_data call_id booking_id status role)
