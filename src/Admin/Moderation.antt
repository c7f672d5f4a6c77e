-- ===== src/Admin/Moderation.antt =====
-- The actions of src/admin/admin-moderation.module.ts: the RPC of each, and the route that reads the body for it.
use zudue_api.Base.{String, Option, some, [], ◌∷◌}
use zudue_api.Json.{Json, str, prop, coalesce}
use zudue_api.Effect.{M}
use zudue_api.Effect.Database.{run_as, db_rpc}
use zudue_api.Effect.Requests.{named, text_arg}
use zudue_api.Admin.Arguments.{arg_of, or_null}

unfoldable pub resolve_report :
    String → String → Option Json → Option Json → Option Json → M (Option Json)
unfolding arg_of or_null
resolve_report u id status resolution refund_paise = run_as u (
    db_rpc (
      named "rpc_admin_resolve_report" (
        text_arg u ∷ text_arg id ∷ arg_of status ∷ or_null resolution ∷ or_null refund_paise ∷ [])))

unfoldable pub resolve_shoutout_report :
    String → String → Option Json → Option Json → M (Option Json)
unfolding arg_of or_null
resolve_shoutout_report u id action notes = run_as u (
    db_rpc (
      named "rpc_admin_resolve_shoutout_report"
        (text_arg u ∷ text_arg id ∷ arg_of action ∷ or_null notes ∷ [])))

unfoldable pub deliver_shoutout : String → String → Option Json → Option Json → M (Option Json)
unfolding arg_of or_null
deliver_shoutout u id approve note = run_as u (
    db_rpc (
      named "rpc_admin_deliver_shoutout"
        (text_arg u ∷ text_arg id ∷ arg_of approve ∷ or_null note ∷ [])))

unfoldable pub cancel_shoutout : String → String → Option Json → M (Option Json)
unfolding or_null
cancel_shoutout u id notes =
    run_as u
      (db_rpc (named "rpc_admin_cancel_shoutout" (text_arg u ∷ text_arg id ∷ or_null notes ∷ [])))

unfoldable pub expire_booking : String → String → Option Json → M (Option Json)
unfolding arg_of
expire_booking u id status =
    run_as u
      (db_rpc (named "rpc_admin_expire_booking" (text_arg u ∷ text_arg id ∷ arg_of status ∷ [])))

unfoldable pub force_settle_booking : String → String → M (Option Json)
force_settle_booking u id =
    run_as u (db_rpc (named "rpc_admin_force_settle_booking" (text_arg u ∷ text_arg id ∷ [])))

unfoldable pub force_settle_window : String → String → M (Option Json)
force_settle_window u id =
    run_as u (db_rpc (named "rpc_admin_force_settle_window" (text_arg u ∷ text_arg id ∷ [])))

unfoldable pub force_settle_shoutout : String → String → M (Option Json)
force_settle_shoutout u id =
    run_as u (db_rpc (named "rpc_admin_force_settle_shoutout" (text_arg u ∷ text_arg id ∷ [])))

unfoldable pub recover_call : String → String → Option Json → M (Option Json)
unfolding coalesce arg_of
recover_call u id reason = run_as u (
    db_rpc (
      named "rpc_admin_recover_call" (
        text_arg u
        ∷ text_arg id
        ∷ arg_of (coalesce reason (some (str "Admin manual recovery")))
        ∷ [])))

unfoldable pub resolve_partial_call :
    String → String → Option Json → Option Json → Option Json → M (Option Json)
unfolding arg_of or_null
resolve_partial_call u id partner_paise fan_refund_paise notes = run_as u (
    db_rpc (
      named "rpc_admin_resolve_partial_call" (
        text_arg u
        ∷ text_arg id
        ∷ arg_of partner_paise
        ∷ arg_of fan_refund_paise
        ∷ or_null notes
        ∷ [])))

unfoldable pub set_service_platform_availability : String → String → Option Json → M (Option Json)
unfolding arg_of
set_service_platform_availability u id available = run_as u (
    db_rpc (
      named "rpc_admin_set_service_platform_availability"
        (text_arg u ∷ text_arg id ∷ arg_of available ∷ [])))

-- The POST routes, by the path's `id` and the body.
pub data ModerationAction : Type 0 where
  post_resolve_report : String → Json → ModerationAction
  post_resolve_shoutout_report : String → Json → ModerationAction
  post_deliver_shoutout : String → Json → ModerationAction
  post_cancel_shoutout : String → Json → ModerationAction
  post_expire_booking : String → Json → ModerationAction
  post_force_settle_booking : String → ModerationAction
  post_force_settle_window : String → ModerationAction
  post_force_settle_shoutout : String → ModerationAction
  post_recover_call : String → Json → ModerationAction
  post_resolve_partial_call : String → Json → ModerationAction
  post_set_service_platform_availability : String → Json → ModerationAction

unfoldable pub moderation : String → ModerationAction → M (Option Json)
unfolding resolve_report resolve_shoutout_report deliver_shoutout cancel_shoutout expire_booking
    force_settle_booking force_settle_window force_settle_shoutout recover_call resolve_partial_call
    set_service_platform_availability prop coalesce
moderation u (post_resolve_report id b) =
    resolve_report u id (prop "status" b) (prop "resolution" b) (prop "refundPaise" b)
moderation u (post_resolve_shoutout_report id b) =
    resolve_shoutout_report u id (prop "action" b) (prop "notes" b)
moderation u (post_deliver_shoutout id b) = deliver_shoutout u id (prop "approve" b) (prop "note" b)
moderation u (post_cancel_shoutout id b) = cancel_shoutout u id (prop "notes" b)
moderation u (post_expire_booking id b) = expire_booking u id (prop "status" b)
moderation u (post_force_settle_booking id) = force_settle_booking u id
moderation u (post_force_settle_window id) = force_settle_window u id
moderation u (post_force_settle_shoutout id) = force_settle_shoutout u id
moderation u (post_recover_call id b) = recover_call u id (prop "reason" b)
moderation u (post_resolve_partial_call id b) =
    resolve_partial_call u id (prop "partnerPaise" b) (prop "fanRefundPaise" b) (prop "notes" b)
moderation u (post_set_service_platform_availability id b) =
    set_service_platform_availability u id (prop "available" b)
