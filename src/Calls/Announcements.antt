-- ===== src/Calls/Announcements.antt =====
-- Whom the steps of a call (src/calls/calls.module.ts) tell, and of what.
use zudue_api.Base.{String, Option, none, some, List, [], ◌∷◌}
use zudue_api.Json.{Json}
use zudue_api.Effect.{History}
use zudue_api.Effect.Requests.{
  MissedStatus, missed_fan_no_join, missed_fan_declined, dropped_technical_issue, EndStatus,
  Parties, rpc, rpc_create_notification, push_call_ended,
}

-- The recipients of the notifications of a history, newest first.
abbrev pub recipients : History → List String
recipients [] = []
recipients (rpc (rpc_create_notification n) ∷ h) = n.recipient_id ∷ recipients h
recipients (q ∷ h) = recipients h

-- The statuses with which calls were said to have ended.
abbrev pub ended_with : History → List EndStatus
ended_with [] = []
ended_with (push_call_ended ids c b s r ∷ h) = s ∷ ended_with h
ended_with (q ∷ h) = ended_with h

-- Whom `markMissed` owes a lasting notification: the fan for a miss, both parties for a live call that
-- somebody is known to have dropped, nobody for a drop that has no author.
abbrev pub owed : MissedStatus → Option String → Parties → List String
owed missed_fan_no_join role p = p.fan_id ∷ []
owed missed_fan_declined role p = p.fan_id ∷ []
owed dropped_technical_issue none p = []
owed dropped_technical_issue (some role) p = p.partner_id ∷ p.fan_id ∷ []
