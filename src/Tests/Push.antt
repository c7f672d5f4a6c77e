-- ===== src/Tests/Push.antt =====
-- The theorem on src/push at a concrete input.
use zudue_api.Base.{◌≡◌, refl, true, some, List, String, [], ◌∷◌}
use zudue_api.Json.{null}
use zudue_api.Effect.{history}
use zudue_api.Effect.Database.{run_as_service}
use zudue_api.Effect.Requests.{IncomingCall, text_value}
use zudue_api.Push.Senders.{Providers, Data}
use zudue_api.Push.{send_incoming_call}
use zudue_api.Push.Reports.{deletion_asked}
use zudue_api.Tests.Samples.{sample}

abbrev providers : Providers
providers = record {
  has_jwt = true;
  project_id = some "zudue";
  app_id = some "app";
  rest_key = some "rest";
  call_channel = "zudue_calls";
}

abbrev incoming : IncomingCall
incoming = record {
  call_id = some null;
  booking_id = "booking";
  meeting_id = some null;
  caller_name = "Creator";
  caller_id = "partner";
  duration_minutes = 5;
}

abbrev next_data : Data
next_data = ("type", text_value "queue_next") ∷ []

abbrev both : List String
both = "fan" ∷ "partner" ∷ []

-- The token of the sample is found dead, and its deletion is asked for.
deleted_one :
    deletion_asked "fan" "t" (history (send_incoming_call providers 9 "fan" incoming sample []))
    ≡ true
unfolding send_incoming_call run_as_service
deleted_one = refl
