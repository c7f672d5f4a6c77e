-- ===== src/Calls/Missed.antt =====
-- `markMissed` of src/calls/calls.module.ts: a call that was missed, declined or dropped.
use zudue_api.Base.{String, Option, none, some, List, [], ◌∷◌, ◌==◌, if◌then◌else◌}
use zudue_api.Json.{Json, str}
use zudue_api.Effect.{bad_request, M, pure, throw, ◌>>=◌, ◌>>◌, call, tell}
use zudue_api.Effect.Requests.{
  MissedStatus, missed_fan_no_join, missed_fan_declined, dropped_technical_issue, missed,
  video_call_missed_attempt_fan, video_call_completed_partner, Wording, plain_text, you_ended,
  creator_ended, fan_ended, Parties, missed_by_party, select_parties, push_cancel_call,
  push_call_ended,
}
use zudue_api.Effect.Database.{run_as, db_rpc}
use zudue_api.Calls.{succeeded, text_of, create_call_notification}

-- `MISSED_STATUSES.includes(status)`, with the status that it is.
unfoldable pub missed_status : String → Option MissedStatus
missed_status s =
    if s == "MISSED_FAN_NO_JOIN"
    then some missed_fan_no_join
    else if s == "MISSED_FAN_DECLINED"
    then some missed_fan_declined
    else if s == "DROPPED_TECHNICAL_ISSUE"
    then some dropped_technical_issue
    else none

-- A role that is missing or empty attributes the end to nobody.
unfoldable pub named_role : Option String → Option String
named_role none = none
named_role (some r) = if r == "" then none else some r

fan_wording : String → Wording
fan_wording role = if role == "FAN" then you_ended else creator_ended

partner_wording : String → Wording
partner_wording role = if role == "PARTNER" then you_ended else fan_ended

missed_notification : String → String → Parties → M (Unit {0})
unfolding create_call_notification
missed_notification user_id call_id p = do
  create_call_notification (record {
    recipient_id = p.fan_id;
    actor_id = user_id;
    event_type = video_call_missed_attempt_fan;
    wording = plain_text;
    related_entity_id = call_id;
  })
  pure tt

dropped_notifications : String → String → Parties → Option String → M (Unit {0})
unfolding create_call_notification fan_wording partner_wording
dropped_notifications user_id call_id p none = pure tt
dropped_notifications user_id call_id p (some role) = do
  create_call_notification (record {
    recipient_id = p.fan_id;
    actor_id = user_id;
    event_type = video_call_missed_attempt_fan;
    wording = fan_wording role;
    related_entity_id = call_id;
  })
  create_call_notification (record {
    recipient_id = p.partner_id;
    actor_id = user_id;
    event_type = video_call_completed_partner;
    wording = partner_wording role;
    related_entity_id = call_id;
  })
  pure tt

unfoldable pub notify_missed :
    String → String → MissedStatus → Parties → Option String → M (Unit {0})
unfolding missed_notification dropped_notifications
notify_missed user_id call_id missed_fan_no_join p role = missed_notification user_id call_id p
notify_missed user_id call_id missed_fan_declined p role = missed_notification user_id call_id p
notify_missed user_id call_id dropped_technical_issue p role =
    dropped_notifications user_id call_id p role

unfoldable pub announce_missed :
    String → String → MissedStatus → Option Json → List Parties → M (Unit {0})
unfolding notify_missed
announce_missed user_id call_id status res [] = pure tt
announce_missed user_id call_id status res (p ∷ rows) = do
  tell (push_cancel_call p.fan_id (some (str call_id)))
  tell (
      push_call_ended (p.fan_id ∷ p.partner_id ∷ []) call_id p.booking_id (missed status)
        (text_of "ended_by_role" res))
  notify_missed user_id call_id status p (named_role (text_of "ended_by_role" res))

unfoldable pub resolve_missed : String → String → Option MissedStatus → M (Option Json)
unfolding announce_missed
resolve_missed user_id call_id none = throw (bad_request "status must be one of MISSED_STATUSES")
resolve_missed user_id call_id (some status) = run_as user_id (do
  res ← db_rpc (missed_by_party call_id status)
  (if succeeded res
      then (do
        rows ← call (select_parties call_id)
        announce_missed user_id call_id status res rows)
      else pure tt)
  pure res)

unfoldable pub mark_missed : String → String → String → M (Option Json)
unfolding resolve_missed missed_status
mark_missed user_id call_id status = resolve_missed user_id call_id (missed_status status)
