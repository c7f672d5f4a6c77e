-- ===== src/Tests/Realtime.antt =====
-- The theorems on src/realtime/pg-notify.source.ts at concrete inputs.
use zudue_api.Base.{◌≡◌, refl, true, false, some, [], ◌∷◌, arith}
use zudue_api.Json.{Json, str, obj, field, end, prop, is_object, non_empty, is_text}
use zudue_api.Realtime.Types.{CallChangedEvent, fan}
use zudue_api.Realtime.Notification.{parse_notification, call, probe}
use zudue_api.Realtime.Notification.RoundTrip.{encode, IsComplete, parse_notification-encode}
use zudue_api.Realtime.Source.{
  Source, new, defaults, listening, notified, probe_due, connect, stop, step, run,
}
use zudue_api.Realtime.Source.Health.{
  announced, run-announced, IsRoundTrip, healthy_needs-IsRoundTrip, working, run_recovers,
}
use zudue_api.Realtime.Source.Generations.{stop_is_final, IsStopped}

abbrev pub change : CallChangedEvent
change = record {
  message = record {
    call_id = "call";
    booking_id = "booking";
    status = "COMPLETED_SUCCESSFUL";
    ended_by_role = some fan;
  };
  fan_id = "f";
  partner_id = "p";
}

change-IsComplete : IsComplete change
change-IsComplete = record {
  has_call = refl;
  has_booking = refl;
  has_fan = refl;
  has_partner = refl;
  has_status = refl;
}

parse_notification-encode_example : parse_notification (some (encode change)) ≡ some (call change)
parse_notification-encode_example = parse_notification-encode change change-IsComplete

abbrev echo : Json
echo = obj (field "type" (str "probe") (field "id" (str "p1") end))

echo_parsed : parse_notification (some echo) ≡ some (probe "p1")
unfolding parse_notification prop is_object is_text non_empty
echo_parsed = refl

run_recovers_example :
    let s = (run defaults (working 1 "p1" (some echo) 0) new).0 in
    (s.healthy ≡ true) × (s.reconnect_attempts ≡ 0) × (s.probe_failures ≡ 0) × (s.sql ≡ some 1)
run_recovers_example = run_recovers defaults new "p1" (some echo) 0 refl echo_parsed

-- A source that listens and awaits its first probe, and the same once that came back.
abbrev waiting : Source
waiting = (run defaults (connect ∷ listening 1 ∷ probe_due 1 "p1" ∷ []) new).0

abbrev listener : Source
listener = record new {
  sql = some 1;
  generation = 1;
  ever_listened = true;
  pending_probes = record { id = "p1"; gen = 1 } ∷ [];
}

healthy_needs-IsRoundTrip_example : IsRoundTrip listener (notified 1 (some echo) 0)
unfolding step parse_notification prop is_object is_text non_empty
healthy_needs-IsRoundTrip_example =
    healthy_needs-IsRoundTrip defaults (notified 1 (some echo) 0) listener refl refl

run-announced_example :
    (run defaults (connect ∷ listening 1 ∷ []) new).0.healthy
    ≡ announced false (run defaults (connect ∷ listening 1 ∷ []) new).1
run-announced_example =
    run-announced defaults (connect ∷ listening 1 ∷ []) new (unfold run step in refl)

stop_is_final_example :
    let after = run defaults (listening 1 ∷ connect ∷ []) (step defaults stop listener).0 in
    (after.1 ≡ []) × IsStopped after.0
stop_is_final_example = stop_is_final defaults (listening 1 ∷ connect ∷ []) listener (omega arith)
