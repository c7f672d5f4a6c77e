-- ===== src/Services/Availability.antt =====
-- src/availability/availability.module.ts: the minutes that a date has open.
use zudue_api.Base.{String, Option, [], ◌∷◌}
use zudue_api.Json.{Json, prop}
use zudue_api.Effect.{M}
use zudue_api.Effect.Database.{run_as, db_rpc}
use zudue_api.Effect.Requests.{named, text_arg}
use zudue_api.Admin.Arguments.{arg_of}

unfoldable pub set_availability : String → Option Json → Option Json → M (Option Json)
unfolding arg_of
set_availability u date minutes =
    run_as u (
      db_rpc
        (named "rpc_partner_set_availability" (text_arg u ∷ arg_of date ∷ arg_of minutes ∷ [])))

-- The routes that write, with the path's `id` and the body.
pub data AvailabilityAction : Type 0 where
  post_availability : Json → AvailabilityAction

unfoldable pub availability : String → AvailabilityAction → M (Option Json)
unfolding set_availability prop
availability u (post_availability b) = set_availability u (prop "date" b) (prop "minutes" b)
