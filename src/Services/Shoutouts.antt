-- ===== src/Services/Shoutouts.antt =====
-- src/shoutouts/shoutouts.module.ts: the steps of a shout-out.
use zudue_api.Base.{String, Option, some, [], ◌∷◌, ◌==◌, if◌then◌else◌}
use zudue_api.Json.{Json, str, prop, truthy}
use zudue_api.Effect.{M, throw, bad_request, type_error}
use zudue_api.Effect.Database.{run_as, db_rpc}
use zudue_api.Effect.Requests.{named, text_arg}
use zudue_api.Services.Catalog.{trim}
use zudue_api.Admin.Arguments.{arg_of}

unfoldable pub request_shoutout : String → Json → M (Option Json)
unfolding arg_of prop
request_shoutout u b = run_as u (
    db_rpc (
      named "rpc_request_shoutout" (
        text_arg u
        ∷ arg_of (prop "partnerId" b)
        ∷ arg_of (prop "recipient" b)
        ∷ arg_of (prop "message" b)
        ∷ [])))

unfoldable pub upload_shoutout : String → String → Option Json → M (Option Json)
unfolding arg_of
upload_shoutout u id video_path =
    run_as u (db_rpc (named "rpc_upload_shoutout" (text_arg id ∷ arg_of video_path ∷ [])))

unfoldable pub report_text : String → String → String → M (Option Json)
unfolding trim
report_text u id reason =
    if trim reason == ""
    then throw (bad_request "reason is required")
    else run_as u (db_rpc (named "rpc_report_shoutout" (text_arg id ∷ text_arg reason ∷ [])))

-- `report`, where a reason that is no text has no `trim`.
unfoldable pub report_shoutout : String → String → Option Json → M (Option Json)
unfolding report_text truthy
report_shoutout u id (some (str reason)) = report_text u id reason
report_shoutout u id v =
    if truthy v then throw type_error else throw (bad_request "reason is required")

unfoldable pub confirm_shoutout : String → String → M (Option Json)
confirm_shoutout u id =
    run_as u (db_rpc (named "rpc_confirm_shoutout" (text_arg u ∷ text_arg id ∷ [])))

unfoldable pub correct_shoutout : String → String → Option Json → M (Option Json)
unfolding arg_of
correct_shoutout u id note =
    run_as u (db_rpc (named "rpc_request_correction" (text_arg u ∷ text_arg id ∷ arg_of note ∷ [])))

-- The routes that write, with the path's `id` and the body.
pub data ShoutoutsAction : Type 0 where
  post_request : Json → ShoutoutsAction
  post_upload : String → Json → ShoutoutsAction
  post_report : String → Json → ShoutoutsAction
  post_confirm : String → ShoutoutsAction
  post_correction : String → Json → ShoutoutsAction

unfoldable pub shoutouts : String → ShoutoutsAction → M (Option Json)
unfolding confirm_shoutout correct_shoutout report_shoutout request_shoutout upload_shoutout prop
shoutouts u (post_request b) = request_shoutout u b
shoutouts u (post_upload id b) = upload_shoutout u id (prop "videoPath" b)
shoutouts u (post_report id b) = report_shoutout u id (prop "reason" b)
shoutouts u (post_confirm id) = confirm_shoutout u id
shoutouts u (post_correction id b) = correct_shoutout u id (prop "note" b)
