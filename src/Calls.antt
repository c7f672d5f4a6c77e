-- ===== src/Calls.antt =====
-- `CallsService` of src/calls/calls.module.ts: what each step of a call asks of the database, and whom it
-- tells. Titles and texts of notifications are left out but for the attribution of an ended call.
pub mod Missed
pub mod Announcements
pub mod Ends
pub mod Refusals
pub mod Access
use zudue_api.Base.{
  ℕ, zero, suc, String, Bool, true, false, not, ◌&&◌, ◌||◌, Option, none, some, List, [], ◌∷◌,
  head?, or_else, ◌==◌, if◌then◌else◌,
}
use zudue_api.Json.{Json, str, opt_prop, truthy, is_false}
use zudue_api.Effect.{
  Error, bad_request, forbidden, M, pure, throw, ◌>>=◌, ◌>>◌, call, tell, attempt,
}
use zudue_api.Effect.Requests.{
  MissedStatus, missed_fan_no_join, missed_fan_declined, dropped_technical_issue, EndStatus,
  completed_successful, missed, video_call_fan_ready_partner, video_call_initiated_for_fan,
  video_call_queue_next_fan, video_call_missed_attempt_fan, video_call_completed_partner, Wording,
  plain_text, you_ended, creator_ended, fan_ended, Notification, Parties, InitiateInfo, NextFan,
  IncomingCall, Actor, rpc_refund_booking, rpc_fan_signal_ready, rpc_partner_initiate_call,
  rpc_fan_join_call, rpc_call_heartbeat, complete_by_party, missed_by_party,
  rpc_create_notification, select_ringing_calls, select_ready_partner, select_initiate_info,
  select_parties, select_next_fan, select_deadline, select_party, mint, push_cancel_call,
  push_incoming_call, push_fan_ready, push_queue_next, push_call_ended,
}
use zudue_api.Effect.Database.{run_as, db_rpc}

-- `res?.success`
unfoldable pub succeeded : Option Json → Bool
succeeded res = truthy (opt_prop "success" res)

-- `res[k] as string | undefined`; where that is no text it counts as missing.
unfoldable pub text_of : String → Option Json → Option String
text_of k res = elim (opt_prop k res) [
  | none ↦ none
  | some j ↦ elim j [ str s ↦ some s | _ ↦ none ]
]

-- `createCallNotification`, which never throws; the envelope, if it came back.
unfoldable pub create_call_notification : Notification → M (Option (Option Json))
create_call_notification n = attempt (db_rpc (rpc_create_notification n))

-- The pushes of `cancelBooking`, one for each call that still rings.
unfoldable pub cancel_each : String → List String → M (Unit {0})
cancel_each user_id [] = pure tt
cancel_each user_id (c ∷ cs) = do
  tell (push_cancel_call user_id (some (str c)))
  cancel_each user_id cs

unfoldable pub cancel_booking : String → String → M (Option Json)
cancel_booking user_id booking_id = run_as user_id (do
  res ← db_rpc (rpc_refund_booking booking_id)
  (if succeeded res
      then (do rows ← call (select_ringing_calls booking_id); cancel_each user_id rows)
      else pure tt)
  pure res)

announce_ready : String → String → List String → M (Unit {0})
unfolding create_call_notification
announce_ready user_id booking_id [] = pure tt
announce_ready user_id booking_id (partner ∷ rows) = do
  create_call_notification (record {
    recipient_id = partner;
    actor_id = user_id;
    event_type = video_call_fan_ready_partner;
    wording = plain_text;
    related_entity_id = booking_id;
  })
  tell (push_fan_ready partner booking_id)

unfoldable pub signal_ready : String → String → M (Option Json)
unfolding announce_ready
signal_ready user_id booking_id = run_as user_id (do
  res ← db_rpc (rpc_fan_signal_ready booking_id)
  (if succeeded res
      then (do
        rows ← call (select_ready_partner booking_id)
        announce_ready user_id booking_id rows)
      else pure tt)
  pure res)

-- `parseInt(…, 10) || d`
unfoldable pub minutes_or : ℕ → Option ℕ → ℕ
minutes_or d none = d
minutes_or d (some zero) = d
minutes_or d (some (suc n)) = suc n

-- `notifyResult?.created`
unfoldable pub was_created : Option (Option Json) → Bool
was_created none = false
was_created (some envelope) = truthy (opt_prop "created" envelope)

-- The alert of the next fan in the queue, pushed only where its notification is new.
unfoldable pub alert_next : String → ℕ → List NextFan → M (Unit {0})
unfolding create_call_notification
alert_next user_id wait [] = pure tt
alert_next user_id wait (next ∷ rows) = do
  notified ← create_call_notification (record {
    recipient_id = next.fan_id;
    actor_id = user_id;
    event_type = video_call_queue_next_fan;
    wording = plain_text;
    related_entity_id = next.booking_id;
  })
  (if was_created notified
      then tell (push_queue_next next.fan_id next.booking_id wait)
      else pure tt)

-- An id of the envelope as a text, for the column of the notification.
unfoldable pub id_of : Option Json → String
id_of (some (str s)) = s
id_of _ = ""

ring_fan : String → String → Option Json → List InitiateInfo → M (Unit {0})
unfolding alert_next create_call_notification
ring_fan user_id booking_id res [] = pure tt
ring_fan user_id booking_id res (info ∷ rows) = do
  create_call_notification (record {
    recipient_id = info.fan_id;
    actor_id = user_id;
    event_type = video_call_initiated_for_fan;
    wording = plain_text;
    related_entity_id = id_of (opt_prop "call_id" res);
  })
  tell (
      push_incoming_call info.fan_id (record {
        call_id = opt_prop "call_id" res;
        booking_id = booking_id;
        meeting_id = opt_prop "meeting_id" res;
        caller_name = or_else info.display_name "Creator";
        caller_id = user_id;
        duration_minutes = minutes_or 5 info.selected_duration;
      }))
  next_rows ← call (select_next_fan user_id booking_id info.fan_id)
  alert_next user_id (minutes_or 15 info.selected_duration) next_rows

unfoldable pub initiate : String → String → M (Option Json)
unfolding ring_fan
initiate user_id booking_id = run_as user_id (do
  res ← db_rpc (rpc_partner_initiate_call booking_id)
  (if succeeded res
      then (do rows ← call (select_initiate_info booking_id); ring_fan user_id booking_id res rows)
      else pure tt)
  pure res)

-- The envelope of `join`, and the deadline where the call is live.
pub record Joined : Type 0 where
  pub envelope : Option Json
  pub deadline_at : Option (Option String)

unfoldable pub join : String → String → M Joined
join user_id booking_id = run_as user_id (do
  res ← db_rpc (rpc_fan_join_call booking_id)
  (if succeeded res && truthy (opt_prop "call_id" res)
      then (do
        tell (push_cancel_call user_id (opt_prop "call_id" res))
        rows ← call (select_deadline (opt_prop "call_id" res))
        pure (record { envelope = res; deadline_at = some (or_else (head? rows) none) }))
      else pure (record { envelope = res; deadline_at = none })))

unfoldable pub heartbeat : String → String → Actor → Option Bool → M (Option Json)
heartbeat user_id call_id actor peer_present =
    run_as user_id (db_rpc (rpc_call_heartbeat call_id actor peer_present))

-- The status that `complete` sends: what the database resolved the call to.
unfoldable pub resolved_status : Option Json → EndStatus
resolved_status res =
    if is_false (opt_prop "completed" res)
    then missed dropped_technical_issue
    else completed_successful

unfoldable pub announce_end : String → Option Json → List Parties → M (Unit {0})
unfolding resolved_status
announce_end call_id res [] = pure tt
announce_end call_id res (p ∷ rows) = tell (
    push_call_ended (p.fan_id ∷ p.partner_id ∷ []) call_id p.booking_id (resolved_status res)
      (text_of "ended_by_role" res))

unfoldable pub complete : String → String → M (Option Json)
unfolding announce_end
complete user_id call_id = run_as user_id (do
  res ← db_rpc (complete_by_party call_id)
  (if succeeded res
      then (do rows ← call (select_parties call_id); announce_end call_id res rows)
      else pure tt)
  pure res)

mint_for : String → List (Unit {0}) → M String
mint_for meeting_id [] = throw (forbidden "NOT_A_PARTY")
mint_for meeting_id (row ∷ rows) = call (mint meeting_id)

unfoldable pub call_credential : String → String → M String
unfolding mint_for
call_credential user_id meeting_id =
    run_as user_id (do rows ← call (select_party meeting_id user_id); mint_for meeting_id rows)
