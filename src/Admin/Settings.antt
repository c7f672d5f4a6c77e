-- ===== src/Admin/Settings.antt =====
-- The actions of src/admin/admin-settings.module.ts: the RPC of each, and the route that reads the body for it.
use zudue_api.Base.{String, Option, some, [], ◌∷◌}
use zudue_api.Json.{Json, obj, end, prop, coalesce}
use zudue_api.Effect.{M}
use zudue_api.Effect.Database.{run_as, db_rpc}
use zudue_api.Effect.Requests.{named, text_arg, jsonb_arg, stringified_arg}
use zudue_api.Admin.Arguments.{value_of, arg_of}

unfoldable pub create_admin : String → Option Json → Option Json → Option Json → M (Option Json)
unfolding arg_of coalesce
create_admin u profile_id role permissions = run_as u (
    db_rpc (
      named "rpc_admin_create_admin" (
        text_arg u
        ∷ arg_of profile_id
        ∷ arg_of role
        ∷ stringified_arg (value_of (coalesce permissions (some (obj end))))
        ∷ [])))

unfoldable pub revoke_admin : String → String → M (Option Json)
revoke_admin u id =
    run_as u (db_rpc (named "rpc_admin_revoke_admin" (text_arg u ∷ text_arg id ∷ [])))

unfoldable pub update_platform_settings : String → Json → M (Option Json)
update_platform_settings u patch =
    run_as u (db_rpc (named "rpc_admin_update_settings" (jsonb_arg patch ∷ [])))

-- The POST routes, by the path's `id` and the body.
pub data SettingsAction : Type 0 where
  post_create_admin : Json → SettingsAction
  post_revoke_admin : String → SettingsAction
  post_update_platform_settings : Json → SettingsAction

unfoldable pub settings : String → SettingsAction → M (Option Json)
unfolding create_admin revoke_admin update_platform_settings prop coalesce
settings u (post_create_admin b) =
    create_admin u (prop "profileId" b) (prop "role" b) (prop "permissions" b)
settings u (post_revoke_admin id) = revoke_admin u id
settings u (post_update_platform_settings b) = update_platform_settings u b
