-- ===== src/Services/Onboarding.antt =====
-- The handlers of src/identity/identity.module.ts that only pass on.
use zudue_api.Base.{String, Option, some, [], ◌∷◌, head?}
use zudue_api.Json.{Json, null, arr, nil, prop, coalesce}
use zudue_api.Effect.{M, pure, ◌>>=◌, call}
use zudue_api.Effect.Database.{run_as, db_rpc}
use zudue_api.Effect.Statements.{insert_application}
use zudue_api.Effect.Requests.{named, jsonb_arg, statement}
use zudue_api.Admin.Arguments.{value_of, arg_of, or_null}

-- The argument is `b.documents ?? []`.
unfoldable pub submit_kyc : String → Json → M (Option Json)
submit_kyc u documents = run_as u (db_rpc (named "rpc_submit_kyc" (jsonb_arg documents ∷ [])))

unfoldable pub request_deletion : String → Option Json → M (Option Json)
unfolding or_null
request_deletion u reason =
    run_as u (db_rpc (named "rpc_request_account_deletion" (or_null reason ∷ [])))

unfoldable pub cancel_deletion : String → M (Option Json)
cancel_deletion u = run_as u (db_rpc (named "rpc_cancel_account_deletion" []))

unfoldable pub submit_application : String → Json → M (Option Json)
unfolding prop coalesce
submit_application u b = run_as u (do
  rows ← call (
      statement (
        insert_application u (
          prop "applicantFullName" b
          ∷ prop "email" b
          ∷ prop "mobileNumber" b
          ∷ coalesce (prop "primarySocialLink" b) (some null)
          ∷ coalesce (prop "expertiseDescription" b) (some null)
          ∷ [])))
  pure (head? rows))

unfoldable pub submit_for_review : String → Option Json → M (Option Json)
unfolding arg_of
submit_for_review u application_id =
    run_as u (db_rpc (named "rpc_partner_submit_for_review" (arg_of application_id ∷ [])))

-- The routes that write, with the path's `id` and the body.
pub data OnboardingAction : Type 0 where
  post_kyc : Json → OnboardingAction
  post_deletion : Json → OnboardingAction
  post_deletion_cancel : OnboardingAction
  post_application : Json → OnboardingAction
  post_review : Json → OnboardingAction

unfoldable pub onboarding : String → OnboardingAction → M (Option Json)
unfolding cancel_deletion request_deletion submit_application submit_for_review submit_kyc prop
    coalesce
onboarding u (post_kyc b) = submit_kyc u (value_of (coalesce (prop "documents" b) (some (arr nil))))
onboarding u (post_deletion b) = request_deletion u (prop "reason" b)
onboarding u post_deletion_cancel = cancel_deletion u
onboarding u (post_application b) = submit_application u b
onboarding u (post_review b) = submit_for_review u (prop "applicationId" b)
