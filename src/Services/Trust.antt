-- ===== src/Services/Trust.antt =====
-- src/trust/trust.module.ts: blocks and reports.
use zudue_api.Base.{String, false, Option, none, some, List, [], ◌∷◌, has, ◌==◌, if◌then◌else◌}
use zudue_api.Text.{◌<>◌}
use zudue_api.Json.{Json, null, str, obj, field, end, prop, truthy}
use zudue_api.Effect.{M, pure, throw, bad_request, type_error, ◌>>=◌, ◌>>◌, call, attempt}
use zudue_api.Effect.Database.{run_as, db_rpc}
use zudue_api.Effect.Statements.{Report, insert_report, select_admins}
use zudue_api.Effect.Requests.{
  Arg, named, text_arg, null_arg, flag_arg, jsonb_arg, cast_arg, statement,
}
use zudue_api.Services.Answers.{success}
use zudue_api.Services.Catalog.{trim}
use zudue_api.Admin.Arguments.{arg_of, or_default}

unfoldable pub block : String → Option Json → Option Json → M (Option Json)
unfolding arg_of or_default
block u blocked scope = run_as u (
    db_rpc (
      named "rpc_block_user" (
        text_arg u
        ∷ arg_of blocked
        ∷ arg_of (or_default scope (str "ALL"))
        ∷ flag_arg false
        ∷ null_arg
        ∷ [])))

unfoldable pub unblock : String → Option Json → Option Json → M (Option Json)
unfolding arg_of or_default
unblock u blocked scope = run_as u (
    db_rpc (
      named "rpc_unblock_user"
        (text_arg u ∷ arg_of blocked ∷ arg_of (or_default scope (str "ALL")) ∷ [])))

abbrev pub target_types : List String
target_types = "PROFILE" ∷ "CALL" ∷ "DM" ∷ "MESSAGE" ∷ "SHOUTOUT" ∷ []

-- `toLowerCase` of a type of the list.
unfoldable pub lower_type : String → String
lower_type t =
    if t == "PROFILE"
    then "profile"
    else if t == "CALL"
    then "call"
    else if t == "DM"
    then "dm"
    else if t == "MESSAGE"
    then "message"
    else "shoutout"

unfoldable pub announcement : String → Report → List Arg
unfolding lower_type
announcement admin r =
    text_arg admin
    ∷ text_arg r.reporter_id
    ∷ cast_arg (str "PLATFORM_ANNOUNCEMENT") "public.notification_event_type_enum"
    ∷ text_arg "New report filed"
    ∷ text_arg ("A " <> (lower_type r.target_type <> (" was reported: " <> r.reason)))
    ∷ null_arg
    ∷ null_arg
    ∷ jsonb_arg (obj (field "targetType" (str r.target_type) (field "targetId" r.target_id end)))
    ∷ []

unfoldable pub tell_admins : Report → List String → M (Unit {0})
unfolding announcement
tell_admins r [] = pure tt
tell_admins r (admin ∷ admins) = do
  attempt (db_rpc (named "rpc_create_notification" (announcement admin r)))
  tell_admins r admins

unfoldable pub file_report : Report → M (Option Json)
unfolding tell_admins
file_report r = run_as r.reporter_id (do
  call (statement (insert_report r))
  admins ← call (statement select_admins)
  tell_admins r admins
  pure (some success))

-- From the checks of `targetId` and of `reason` on.
unfoldable pub report_reason :
    String → String → Option Json → Option Json → Option Json → M (Option Json)
unfolding file_report trim
report_reason u target (some (str reason)) (some id) details =
    if trim reason == ""
    then throw (bad_request "targetId and reason are required")
    else file_report (record {
      reporter_id = u;
      target_type = target;
      target_id = id;
      reason = reason;
      details = details;
    })
report_reason u target none id details = throw (bad_request "targetId and reason are required")
report_reason u target (some null) id details =
    throw (bad_request "targetId and reason are required")
report_reason u target reason id details = throw type_error

unfoldable pub report_on : String → Option Json → Json → M (Option Json)
unfolding report_reason prop truthy
report_on u (some (str target)) b =
    if has target target_types
    then if truthy (prop "targetId" b)
      then report_reason u target (prop "reason" b) (prop "targetId" b) (prop "details" b)
      else throw (bad_request "targetId and reason are required")
    else throw (bad_request "targetType must be one of PROFILE, CALL, DM, MESSAGE, SHOUTOUT")
report_on u target b =
    throw (bad_request "targetType must be one of PROFILE, CALL, DM, MESSAGE, SHOUTOUT")

unfoldable pub report : String → Json → M (Option Json)
unfolding report_on prop
report u b = report_on u (prop "targetType" b) b

-- The routes that write, with the path's `id` and the body.
pub data TrustAction : Type 0 where
  post_block : Json → TrustAction
  post_unblock : Json → TrustAction
  post_report : Json → TrustAction

unfoldable pub trust : String → TrustAction → M (Option Json)
unfolding block report unblock prop
trust u (post_block b) = block u (prop "blocked" b) (prop "scope" b)
trust u (post_unblock b) = unblock u (prop "blocked" b) (prop "scope" b)
trust u (post_report b) = report u b
