-- ===== src/Identity.antt =====
-- `IdentityService` of src/identity/identity.module.ts: the lifecycle of a user, and what a user writes about
-- themself.
pub mod States
pub mod Updates
pub mod Signup
use zudue_api.Base.{
  ℕ, String, Bool, true, false, Option, none, some, List, [], ◌∷◌, ltb, ◌==◌, has, object_prototype,
  ◌||◌, ◌++◌, if◌then◌else◌,
}
use zudue_api.Json.{Json, null, str, num, arr, coalesce, opt_prop, is_false}
use zudue_api.Effect.{M, pure, ◌>>=◌, ◌>>◌, call, attempt}
use zudue_api.Effect.Database.{run_as, db_rpc}
use zudue_api.Effect.Statements.{
  NewProfile, Value, sql_null, string_of, number_of, gender_of, jsonb_of, bound, inherited_of,
  text_array, Setter, Statement, insert_profile, update_partner_profile,
}
use zudue_api.Effect.Requests.{named, text_arg, statement}

pub data AccountStatus : Type 0 where
  active suspended banned : AccountStatus

pub data Role : Type 0 where
  fan partner admin : Role

pub data PartnerStatus : Type 0 where
  pending_approval active inactive rejected_onboarding suspended : PartnerStatus

pub data ApplicationStatus : Type 0 where
  pending_initial_review awaiting_kyc_and_profile_completion pending_final_admin_approval active :
      ApplicationStatus
  rejected_initial rejected_kyc rejected_final : ApplicationStatus

pub record Application : Type 0 where
  pub status : ApplicationStatus
  pub submitted_at : ℕ

pub data Lifecycle : Type 0 where
  suspended needs_application pending_initial awaiting_completion pending_final rejected live :
      Lifecycle

-- `order by submitted_at desc limit 1`
unfoldable pub newest : List Application → Option Application
newest [] = none
newest (a ∷ rest) = elim (newest rest) [
  | none ↦ some a
  | some b ↦ if ltb a.submitted_at b.submitted_at then some b else some a
]

-- The inner CASE, with its `else 'PENDING_INITIAL'`.
unfoldable pub of_application : ApplicationStatus → Lifecycle
of_application pending_initial_review = pending_initial
of_application awaiting_kyc_and_profile_completion = awaiting_completion
of_application pending_final_admin_approval = pending_final
of_application rejected_initial = rejected
of_application rejected_kyc = rejected
of_application rejected_final = rejected
of_application ApplicationStatus.active = pending_initial

unfoldable pub of_newest : Option Application → Lifecycle
unfolding of_application
of_newest none = needs_application
of_newest (some a) = of_application a.status

-- `LIFECYCLE_SQL`; the status of the partner is null where the left join finds no row.
unfoldable pub lifecycle :
    AccountStatus → Role → Option PartnerStatus → List Application → Lifecycle
unfolding of_newest newest
lifecycle AccountStatus.suspended role status apps = suspended
lifecycle AccountStatus.banned role status apps = suspended
lifecycle AccountStatus.active fan status apps = live
lifecycle AccountStatus.active admin status apps = live
lifecycle AccountStatus.active partner (some PartnerStatus.active) apps = live
lifecycle AccountStatus.active partner status apps = of_newest (newest apps)

-- `createProfile`
unfoldable pub create_profile : String → String → Option String → Option String → M Bool
create_profile user_id full_name email mobile_number = run_as user_id (do
  call (
      statement (
        insert_profile (record {
          id = user_id;
          full_name = full_name;
          email = email;
          mobile_number = mobile_number;
        })))
  attempt (db_rpc (named "rpc_send_welcome_notification" (text_arg user_id ∷ [])))
  pure true)

-- The own entries of the patch; `none` is undefined.
abbrev pub Patch : Type 0
Patch = List (String × Option Json)

-- `patch[k]`
unfoldable pub entry : String → Patch → Option Json
entry k [] = none
entry k ((j, v) ∷ patch) = if j == k then v else entry k patch

-- The columns of `setters`.
abbrev pub setter_columns : List String
setter_columns = "full_name" ∷ "mobile_number" ∷ "age" ∷ "gender" ∷ "notification_prefs" ∷ []

age_value : Json → Value
age_value null = sql_null
age_value (str s) = if s == "" then sql_null else number_of (str s)
age_value v = number_of v

gender_value : Json → Value
gender_value null = sql_null
gender_value v = gender_of v

-- `setters[k](v)`
unfoldable pub set_value : String → Json → Value
unfolding age_value gender_value
set_value k v =
    if k == "age"
    then age_value v
    else if k == "gender"
    then gender_value v
    else if k == "notification_prefs"
    then jsonb_of v
    else if has k setter_columns
    then string_of v
    else inherited_of v

-- `k in setters`
unfoldable pub in_setters : String → Bool
in_setters k = has k setter_columns || has k object_prototype

unfoldable pub parts : Patch → List Setter
unfolding in_setters set_value
parts [] = []
parts ((k, none) ∷ patch) = parts patch
parts ((k, some v) ∷ patch) =
    if in_setters k then record { column = k; value = set_value k v } ∷ parts patch else parts patch

apply_parts : String → List Setter → M Bool
apply_parts user_id [] = pure false
apply_parts user_id (s ∷ ss) = do
  call (statement (Statement.update_profile (s ∷ ss) user_id))
  pure true

-- `updateProfile`, with `updated` as its result.
unfoldable pub update_profile : String → Patch → M Bool
unfolding parts apply_parts
update_profile user_id patch = run_as user_id (apply_parts user_id (parts patch))

abbrev pub partner_columns : List String
partner_columns =
    "display_name" ∷ "bio" ∷ "profile_image_path" ∷ "vacation_mode" ∷ "profile_complete" ∷ []

unfoldable pub assignments : Patch → List Setter
assignments [] = []
assignments ((k, none) ∷ patch) = assignments patch
assignments ((k, some v) ∷ patch) =
    if has k partner_columns
    then record { column = k; value = bound v } ∷ assignments patch
    else assignments patch

-- `if (Array.isArray(patch.languages))`
unfoldable pub languages : Option Json → List Setter
languages (some (arr xs)) = record { column = "languages"; value = text_array xs } ∷ []
languages _ = []

apply_assignments : String → List Setter → M Bool
apply_assignments user_id [] = pure false
apply_assignments user_id (s ∷ ss) = do
  call (statement (update_partner_profile (s ∷ ss) user_id))
  pure true

-- The number of fans who were told, as the RPC gives it.
notify_waitlist : String → Bool → M (Option Json)
notify_waitlist user_id true = do
  res ← db_rpc (named "rpc_notify_waitlist" (text_arg user_id ∷ []))
  pure (coalesce (opt_prop "notified" res) (some (num 0)))
notify_waitlist user_id false = pure (some (num 0))

-- `updatePartnerProfile`, with `updated` and `waitlistNotified`.
unfoldable pub update_partner : String → Patch → M (Bool × Option Json)
unfolding assignments languages apply_assignments notify_waitlist entry
update_partner user_id patch = run_as user_id (do
  updated ← apply_assignments user_id (assignments patch ++ languages (entry "languages" patch))
  notified ← notify_waitlist user_id (is_false (entry "vacation_mode" patch))
  pure (updated, notified))
