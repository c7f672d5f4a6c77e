-- ===== src/Services/Earnings.antt =====
-- src/earnings/earnings.module.ts: payout methods and withdrawals.
use zudue_api.Base.{String, Option, some, [], ◌∷◌}
use zudue_api.Json.{Json, null, prop, coalesce}
use zudue_api.Effect.{M, pure, ◌>>◌, call}
use zudue_api.Effect.Database.{run_as, db_rpc}
use zudue_api.Effect.Statements.{insert_payout_method}
use zudue_api.Effect.Requests.{named, text_arg, statement}
use zudue_api.Services.Answers.{success}
use zudue_api.Admin.Arguments.{arg_of}

unfoldable pub add_payout_method : String → Json → M (Option Json)
unfolding prop coalesce
add_payout_method u b = run_as u (do
  call (
      statement (
        insert_payout_method u (
          prop "methodType" b
          ∷ coalesce (prop "accountHolderName" b) (some null)
          ∷ coalesce (prop "accountNumber" b) (some null)
          ∷ coalesce (prop "ifscCode" b) (some null)
          ∷ coalesce (prop "bankName" b) (some null)
          ∷ coalesce (prop "upiId" b) (some null)
          ∷ [])))
  pure (some success))

unfoldable pub request_withdrawal : String → Option Json → M (Option Json)
unfolding arg_of
request_withdrawal u method_id =
    run_as u (db_rpc (named "rpc_create_payout_batch" (text_arg u ∷ arg_of method_id ∷ [])))

-- The routes that write, with the path's `id` and the body.
pub data EarningsAction : Type 0 where
  post_method : Json → EarningsAction
  post_withdraw : Json → EarningsAction

unfoldable pub earnings : String → EarningsAction → M (Option Json)
unfolding add_payout_method request_withdrawal prop coalesce
earnings u (post_method b) = add_payout_method u b
earnings u (post_withdraw b) = request_withdrawal u (prop "methodId" b)
