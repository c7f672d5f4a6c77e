-- ===== src/Admin.antt =====
-- src/admin: `AdminGuard`, and a route behind it and behind `JwtGuard`.
pub mod Arguments
pub mod Finance
pub mod Moderation
pub mod People
pub mod Settings
pub mod Access
use zudue_api.Base.{String, Bool, false, Option, none, some, List, [], ◌∷◌, ◌==◌, if◌then◌else◌}
use zudue_api.Json.{Json}
use zudue_api.Auth
use zudue_api.Auth.{VerifiedToken, JoseResult, Verdict, accepted}
use zudue_api.Effect.{M, pure, throw, forbidden, unauthorized, ◌>>=◌, ◌>>◌, call}
use zudue_api.Effect.Database.{run_as}
use zudue_api.Effect.Statements.{select_role}
use zudue_api.Effect.Requests.{statement}
use Finance.{FinanceAction, finance}
use Moderation.{ModerationAction, moderation}
use People.{PeopleAction, people}
use Settings.{SettingsAction, settings}

-- `rows[0]?.role === 'ADMIN'`
unfoldable pub is_admin : List String → Bool
is_admin [] = false
is_admin (role ∷ rows) = role == "ADMIN"

unfoldable pub require_admin : Bool → M (Unit {0})
require_admin b = if b then pure tt else throw (forbidden "ADMIN_ONLY")

-- `AdminGuard.canActivate`; the argument is the id of the request's user.
unfoldable pub admin_guard : Option String → M (Unit {0})
unfolding run_as is_admin require_admin
admin_guard none = throw (forbidden "NOT_AUTHENTICATED")
admin_guard (some u) =
    if u == ""
    then throw (forbidden "NOT_AUTHENTICATED")
    else run_as u (do rows ← call (statement (select_role u)); pure (is_admin rows))
      >>= require_admin

unfoldable pub as_user : Verdict VerifiedToken → M VerifiedToken
as_user (accepted u) = pure u
as_user (Verdict.unauthorized m) = throw (unauthorized m)

pub data AdminAction : Type 0 where
  finance_action : FinanceAction → AdminAction
  moderation_action : ModerationAction → AdminAction
  people_action : PeopleAction → AdminAction
  settings_action : SettingsAction → AdminAction

unfoldable pub act : String → AdminAction → M (Option Json)
unfolding finance moderation people settings
act u (finance_action a) = finance u a
act u (moderation_action a) = moderation u a
act u (people_action a) = people u a
act u (settings_action a) = settings u a

-- `@UseGuards(JwtGuard, AdminGuard)` before an action, given the header `authorization`.
unfoldable pub admin_route : (String → JoseResult) → Option String → AdminAction → M (Option Json)
unfolding as_user admin_guard act
admin_route jwt_verify auth a = do
  u ← as_user (Auth.can_activate jwt_verify auth)
  admin_guard (some u.id)
  act u.id a
