-- ===== src/Realtime/Notification/RoundTrip.antt =====
-- Which payloads `parseNotification` (src/realtime/pg-notify.source.ts) reads, and as what.
use zudue_api.Base.{◌≡◌, refl, true, false, Option, none, some, ◌==◌, arith}
use zudue_api.Json.{Json, null, str, obj, field, end, prop, is_object, non_empty, is_text}
use zudue_api.Realtime.Types.{CallChangedEvent, EndedByRole, fan, partner, admin}
use zudue_api.Realtime.Notification.{call, role_of, parse_notification}

role_text : Option EndedByRole → Json
role_text none = null
role_text (some fan) = str "FAN"
role_text (some partner) = str "PARTNER"
role_text (some admin) = str "ADMIN"

-- The payload that the trigger of migrations/0102_call_events_notify.sql sends for a change.
pub encode : CallChangedEvent → Json
unfolding role_text
encode e = obj (
    field "type" (str "call.changed") (
      field "callId" (str e.message.call_id) (
        field "bookingId" (str e.message.booking_id) (
          field "fanId" (str e.fan_id) (
            field "partnerId" (str e.partner_id) (
              field "status" (str e.message.status)
                (field "endedByRole" (role_text e.message.ended_by_role) end)))))))

pub record IsComplete (e : CallChangedEvent) : Type 0 where
  pub has_call : (e.message.call_id == "") ≡ false
  pub has_booking : (e.message.booking_id == "") ≡ false
  pub has_fan : (e.fan_id == "") ≡ false
  pub has_partner : (e.partner_id == "") ≡ false
  pub has_status : (e.message.status == "") ≡ false

role_of-role_text : (r : Option EndedByRole) → role_of (some (role_text r)) ≡ r
unfolding role_of role_text
role_of-role_text none = refl
role_of-role_text (some fan) = refl
role_of-role_text (some partner) = refl
role_of-role_text (some admin) = refl

-- Every change that names a call, a booking, both parties and a status comes through the channel as it
-- was sent, with or without the role that ended the call.
pub parse_notification-encode :
    (e : CallChangedEvent) → IsComplete e → parse_notification (some (encode e)) ≡ some (call e)
unfolding parse_notification encode prop is_object non_empty is_text
parse_notification-encode e c = ground (arith, role_of-role_text e.message.ended_by_role)

-- A payload that is read as a change is one of type `call.changed` in which the five texts are there and
-- not empty, and they are the event's.
parse_notification_sound :
    (j : Json) (e : CallChangedEvent)
    → parse_notification (some j) ≡ some (call e)
    → (is_text "call.changed" (prop "type" j) ≡ true)
      × (non_empty (prop "callId" j) ≡ some e.message.call_id)
      × (non_empty (prop "bookingId" j) ≡ some e.message.booking_id)
      × (non_empty (prop "fanId" j) ≡ some e.fan_id)
      × (non_empty (prop "partnerId" j) ≡ some e.partner_id)
      × (non_empty (prop "status" j) ≡ some e.message.status)
      × (role_of (prop "endedByRole" j) ≡ e.message.ended_by_role)
unfolding parse_notification
parse_notification_sound j e h = ground arith
