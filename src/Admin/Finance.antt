-- ===== src/Admin/Finance.antt =====
-- The actions of src/admin/admin-finance.module.ts: the RPC of each, and the route that reads the body for it.
use zudue_api.Base.{String, Option, some, [], ◌∷◌}
use zudue_api.Json.{Json, str, prop, coalesce}
use zudue_api.Effect.{M}
use zudue_api.Effect.Database.{run_as, db_rpc}
use zudue_api.Effect.Requests.{named, text_arg}
use zudue_api.Admin.Arguments.{arg_of, or_null}

unfoldable pub grant_credit :
    String → Option Json → Option Json → Option Json → Option Json → M (Option Json)
unfolding arg_of or_null
grant_credit u profile_id amount_paise source reason = run_as u (
    db_rpc (
      named "rpc_admin_grant_credit" (
        text_arg u
        ∷ arg_of profile_id
        ∷ arg_of amount_paise
        ∷ arg_of source
        ∷ or_null reason
        ∷ [])))

unfoldable pub verify_payout_method : String → String → Option Json → M (Option Json)
unfolding arg_of
verify_payout_method u id verified = run_as u (
    db_rpc
      (named "rpc_admin_verify_payout_method" (text_arg u ∷ text_arg id ∷ arg_of verified ∷ [])))

unfoldable pub process_payout : String → String → Option Json → Option Json → M (Option Json)
unfolding arg_of or_null
process_payout u id approve utr =
    run_as u (db_rpc (named "rpc_process_payout" (text_arg id ∷ arg_of approve ∷ or_null utr ∷ [])))

unfoldable pub resolve_dispute : String → String → Option Json → Option Json → M (Option Json)
unfolding arg_of or_null
resolve_dispute u id status notes = run_as u (
    db_rpc (
      named "rpc_admin_resolve_dispute"
        (text_arg u ∷ text_arg id ∷ arg_of status ∷ or_null notes ∷ [])))

unfoldable pub create_promo :
    String
    → Option Json
    → Option Json
    → Option Json
    → Option Json
    → Option Json
    → Option Json
    → Option Json
    → M (Option Json)
unfolding coalesce arg_of or_null
create_promo u code type value applies max_total max_per_user expiry = run_as u (
    db_rpc (
      named "rpc_admin_create_promo" (
        text_arg u
        ∷ arg_of code
        ∷ arg_of type
        ∷ arg_of value
        ∷ arg_of (coalesce applies (some (str "ALL")))
        ∷ or_null max_total
        ∷ or_null max_per_user
        ∷ or_null expiry
        ∷ [])))

unfoldable pub set_promo_active : String → String → Option Json → M (Option Json)
unfolding arg_of
set_promo_active u id active =
    run_as u
      (db_rpc (named "rpc_admin_set_promo_active" (text_arg u ∷ text_arg id ∷ arg_of active ∷ [])))

-- The POST routes, by the path's `id` and the body.
pub data FinanceAction : Type 0 where
  post_grant_credit : Json → FinanceAction
  post_verify_payout_method : String → Json → FinanceAction
  post_process_payout : String → Json → FinanceAction
  post_resolve_dispute : String → Json → FinanceAction
  post_create_promo : Json → FinanceAction
  post_set_promo_active : String → Json → FinanceAction

unfoldable pub finance : String → FinanceAction → M (Option Json)
unfolding grant_credit verify_payout_method process_payout resolve_dispute create_promo
    set_promo_active prop coalesce
finance u (post_grant_credit b) =
    grant_credit u (prop "profileId" b) (prop "amountPaise" b) (prop "source" b) (prop "reason" b)
finance u (post_verify_payout_method id b) = verify_payout_method u id (prop "verified" b)
finance u (post_process_payout id b) =
    process_payout u id (prop "approve" b) (coalesce (prop "utr" b) (prop "reference" b))
finance u (post_resolve_dispute id b) = resolve_dispute u id (prop "status" b) (prop "notes" b)
finance u (post_create_promo b) =
    create_promo u (prop "code" b) (prop "type" b) (prop "value" b) (prop "applies" b)
      (prop "maxTotal" b) (prop "maxPerUser" b) (prop "expiry" b)
finance u (post_set_promo_active id b) = set_promo_active u id (prop "active" b)
