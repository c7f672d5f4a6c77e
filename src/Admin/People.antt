-- ===== src/Admin/People.antt =====
-- The actions of src/admin/admin-people.module.ts: the RPC of each, and the route that reads the body for it.
use zudue_api.Base.{String, not, ◌&&◌, Option, [], ◌∷◌, if◌then◌else◌}
use zudue_api.Json.{Json, prop, coalesce, is_text}
use zudue_api.Effect.{M, throw, bad_request}
use zudue_api.Effect.Database.{run_as, db_rpc}
use zudue_api.Effect.Requests.{named, text_arg, cast_arg}
use zudue_api.Admin.Arguments.{value_of, arg_of, or_null}

-- `setUserRole`, which refuses any other role before a unit of work is opened.
unfoldable pub set_user_role : String → String → Option Json → Option Json → M (Option Json)
unfolding or_null is_text
set_user_role u id role reason =
    if not (is_text "FAN" role) && not (is_text "PARTNER" role)
    then throw (bad_request "role must be FAN or PARTNER")
    else run_as u (
        db_rpc (
          named "rpc_admin_set_user_role" (
            text_arg u
            ∷ text_arg id
            ∷ cast_arg (value_of role) "public.user_role"
            ∷ or_null reason
            ∷ [])))

unfoldable pub set_account_status : String → String → Option Json → Option Json → M (Option Json)
unfolding arg_of or_null
set_account_status u id status reason = run_as u (
    db_rpc (
      named "rpc_admin_set_account_status"
        (text_arg u ∷ text_arg id ∷ arg_of status ∷ or_null reason ∷ [])))

unfoldable pub decide_kyc : String → String → Option Json → Option Json → M (Option Json)
unfolding arg_of or_null
decide_kyc u id verified reason = run_as u (
    db_rpc (
      named "rpc_admin_manage_kyc"
        (text_arg u ∷ text_arg id ∷ arg_of verified ∷ or_null reason ∷ [])))

unfoldable pub review_application : String → String → Option Json → Option Json → M (Option Json)
unfolding arg_of or_null
review_application u id decision reason = run_as u (
    db_rpc (
      named "rpc_admin_review_application"
        (text_arg u ∷ text_arg id ∷ arg_of decision ∷ or_null reason ∷ [])))

unfoldable pub final_approve : String → String → Option Json → Option Json → M (Option Json)
unfolding arg_of or_null
final_approve u id decision reason = run_as u (
    db_rpc (
      named "rpc_admin_final_approve_partner"
        (text_arg u ∷ text_arg id ∷ arg_of decision ∷ or_null reason ∷ [])))

unfoldable pub toggle_featured : String → String → Option Json → Option Json → M (Option Json)
unfolding arg_of or_null
toggle_featured u id on reason = run_as u (
    db_rpc (
      named "rpc_admin_toggle_featured"
        (text_arg u ∷ text_arg id ∷ arg_of on ∷ or_null reason ∷ [])))

unfoldable pub toggle_premium : String → String → Option Json → Option Json → M (Option Json)
unfolding arg_of or_null
toggle_premium u id on reason = run_as u (
    db_rpc (
      named "rpc_admin_toggle_premium"
        (text_arg u ∷ text_arg id ∷ arg_of on ∷ or_null reason ∷ [])))

unfoldable pub set_commission : String → String → Option Json → M (Option Json)
unfolding arg_of
set_commission u id rate =
    run_as u
      (db_rpc (named "rpc_admin_set_commission" (text_arg u ∷ text_arg id ∷ arg_of rate ∷ [])))

unfoldable pub approve_social_link : String → String → Option Json → M (Option Json)
unfolding arg_of
approve_social_link u id approved = run_as u (
    db_rpc
      (named "rpc_admin_approve_social_link" (text_arg u ∷ text_arg id ∷ arg_of approved ∷ [])))

unfoldable pub reset_payout_methods : String → String → M (Option Json)
reset_payout_methods u id =
    run_as u (db_rpc (named "rpc_admin_reset_payout_methods" (text_arg u ∷ text_arg id ∷ [])))

-- The POST routes, by the path's `id` and the body.
pub data PeopleAction : Type 0 where
  post_set_user_role : String → Json → PeopleAction
  post_set_account_status : String → Json → PeopleAction
  post_decide_kyc : String → Json → PeopleAction
  post_review_application : String → Json → PeopleAction
  post_final_approve : String → Json → PeopleAction
  post_toggle_featured : String → Json → PeopleAction
  post_toggle_premium : String → Json → PeopleAction
  post_set_commission : String → Json → PeopleAction
  post_approve_social_link : String → Json → PeopleAction
  post_reset_payout_methods : String → PeopleAction

unfoldable pub people : String → PeopleAction → M (Option Json)
unfolding set_user_role set_account_status decide_kyc review_application final_approve
    toggle_featured toggle_premium set_commission approve_social_link reset_payout_methods prop
    coalesce
people u (post_set_user_role id b) = set_user_role u id (prop "role" b) (prop "reason" b)
people u (post_set_account_status id b) =
    set_account_status u id (prop "status" b) (prop "reason" b)
people u (post_decide_kyc id b) = decide_kyc u id (prop "verified" b) (prop "reason" b)
people u (post_review_application id b) =
    review_application u id (prop "decision" b) (prop "reason" b)
people u (post_final_approve id b) = final_approve u id (prop "decision" b) (prop "reason" b)
people u (post_toggle_featured id b) = toggle_featured u id (prop "on" b) (prop "reason" b)
people u (post_toggle_premium id b) = toggle_premium u id (prop "on" b) (prop "reason" b)
people u (post_set_commission id b) = set_commission u id (prop "rate" b)
people u (post_approve_social_link id b) = approve_social_link u id (prop "approved" b)
people u (post_reset_payout_methods id) = reset_payout_methods u id
