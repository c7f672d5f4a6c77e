-- ===== src/Realtime/Notification.antt =====
-- `parseNotification` of src/realtime/pg-notify.source.ts, after `JSON.parse`.
pub mod RoundTrip
use zudue_api.Base.{String, Option, none, some, ◌==◌, if◌then◌else◌}
use zudue_api.Json.{Json, str, prop, is_object, non_empty, is_text}
use zudue_api.Realtime.Types.{CallChangedEvent, EndedByRole, fan, partner, admin}

pub data ParsedNotification : Type 0 where
  call : CallChangedEvent → ParsedNotification
  probe : String → ParsedNotification

-- `ROLES.has(v) ? v : null`
unfoldable pub role_of : Option Json → Option EndedByRole
role_of (some (str s)) =
    if s == "FAN"
    then some fan
    else if s == "PARTNER"
    then some partner
    else if s == "ADMIN"
    then some admin
    else none
role_of _ = none

infixl 5 ◌>>=◌
abbrev ◌>>=◌ : {A B : Type 0} → Option A → (A → Option B) → Option B
none >>= f = none
some a >>= f = f a

-- The part after the tests on `type`.
unfoldable pub parse_call : Json → Option ParsedNotification
unfolding role_of
parse_call j = do
  call_id ← non_empty (prop "callId" j)
  booking_id ← non_empty (prop "bookingId" j)
  fan_id ← non_empty (prop "fanId" j)
  partner_id ← non_empty (prop "partnerId" j)
  status ← non_empty (prop "status" j)
  some (
      call (record {
        message = record {
          call_id = call_id;
          booking_id = booking_id;
          status = status;
          ended_by_role = role_of (prop "endedByRole" j);
        };
        fan_id = fan_id;
        partner_id = partner_id;
      }))

parse_probe : Json → Option ParsedNotification
parse_probe j = do id ← non_empty (prop "id" j); some (probe id)

-- `none` as the argument is a payload that `JSON.parse` throws on.
unfoldable pub parse_notification : Option Json → Option ParsedNotification
unfolding parse_call parse_probe
parse_notification none = none
parse_notification (some j) =
    if is_object j
    then (if is_text "probe" (prop "type" j)
        then parse_probe j
        else if is_text "call.changed" (prop "type" j)
        then parse_call j
        else none)
    else none
