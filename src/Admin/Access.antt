-- ===== src/Admin/Access.antt =====
-- Who may run an action of src/admin.
use mathlib.Core.Path.{subst}
use zudue_api.Base.{
  eq_iff, ◌≡◌, refl, ap, ◌∙◌, String, Bool, true, false, not, ◌&&◌, ◌⊎◌, inl, inr, Option, some,
  List, [], ◌∷◌, arith, if◌then◌else◌,
}
use zudue_api.Json.{Json, prop, is_text}
use zudue_api.Auth
use zudue_api.Auth.{VerifiedToken, JoseResult, Verdict, accepted}
use zudue_api.Effect.{M, Env, Error, History, Outcome, ok, err, answer, history, throw, ◌>>=◌, ◌>>◌}
use zudue_api.Effect.Database.{run_as, db_rpc}
use zudue_api.Effect.Statements.{select_role}
use zudue_api.Effect.Requests.{Rpc, rpc, statement, begin, commit, rollback, set_user}
use zudue_api.Admin.{
  is_admin, admin_guard, as_user, AdminAction, finance_action, moderation_action, people_action,
  settings_action, act, admin_route,
}
use zudue_api.Admin.Finance.{FinanceAction, finance}
use zudue_api.Admin.Moderation.{ModerationAction, moderation}
use zudue_api.Admin.People.{PeopleAction, people, set_user_role}
use zudue_api.Admin.Settings.{SettingsAction, settings}

-- The RPCs of a history, the newest first.
abbrev pub rpcs : History → List Rpc
rpcs [] = []
rpcs (rpc p ∷ h) = p ∷ rpcs h
rpcs (r ∷ h) = rpcs h

-- An action refuses at once or is one RPC in a unit of work of the caller.
data IsSingle (u : String) (m : M (Option Json)) : Type 0 where
  refused : (e : Error) → m ≡ throw e → IsSingle u m
  single : (p : Rpc) → m ≡ run_as u (db_rpc p) → IsSingle u m

finance-IsSingle : (u : String) (a : FinanceAction) → IsSingle u (finance u a)
unfolding finance
finance-IsSingle u (FinanceAction.post_grant_credit b) = single _ refl
finance-IsSingle u (FinanceAction.post_verify_payout_method id b) = single _ refl
finance-IsSingle u (FinanceAction.post_process_payout id b) = single _ refl
finance-IsSingle u (FinanceAction.post_resolve_dispute id b) = single _ refl
finance-IsSingle u (FinanceAction.post_create_promo b) = single _ refl
finance-IsSingle u (FinanceAction.post_set_promo_active id b) = single _ refl

if-IsSingle :
    (u : String) (b : Bool) (e : Error) (p : Rpc)
    → IsSingle u (if b then throw e else run_as u (db_rpc p))
if-IsSingle u true e p = refused e refl
if-IsSingle u false e p = single p refl

set_user_role-IsSingle :
    (u id : String) (role reason : Option Json) → IsSingle u (set_user_role u id role reason)
unfolding set_user_role
set_user_role-IsSingle u id role reason =
    if-IsSingle u (not (is_text "FAN" role) && not (is_text "PARTNER" role)) _ _

moderation-IsSingle : (u : String) (a : ModerationAction) → IsSingle u (moderation u a)
unfolding moderation
moderation-IsSingle u (ModerationAction.post_resolve_report id b) = single _ refl
moderation-IsSingle u (ModerationAction.post_resolve_shoutout_report id b) = single _ refl
moderation-IsSingle u (ModerationAction.post_deliver_shoutout id b) = single _ refl
moderation-IsSingle u (ModerationAction.post_cancel_shoutout id b) = single _ refl
moderation-IsSingle u (ModerationAction.post_expire_booking id b) = single _ refl
moderation-IsSingle u (ModerationAction.post_force_settle_booking id) = single _ refl
moderation-IsSingle u (ModerationAction.post_force_settle_window id) = single _ refl
moderation-IsSingle u (ModerationAction.post_force_settle_shoutout id) = single _ refl
moderation-IsSingle u (ModerationAction.post_recover_call id b) = single _ refl
moderation-IsSingle u (ModerationAction.post_resolve_partial_call id b) = single _ refl
moderation-IsSingle u (ModerationAction.post_set_service_platform_availability id b) = single _ refl

people-IsSingle : (u : String) (a : PeopleAction) → IsSingle u (people u a)
unfolding people
people-IsSingle u (PeopleAction.post_set_user_role id b) =
    set_user_role-IsSingle u id (prop "role" b) (prop "reason" b)
people-IsSingle u (PeopleAction.post_set_account_status id b) = single _ refl
people-IsSingle u (PeopleAction.post_decide_kyc id b) = single _ refl
people-IsSingle u (PeopleAction.post_review_application id b) = single _ refl
people-IsSingle u (PeopleAction.post_final_approve id b) = single _ refl
people-IsSingle u (PeopleAction.post_toggle_featured id b) = single _ refl
people-IsSingle u (PeopleAction.post_toggle_premium id b) = single _ refl
people-IsSingle u (PeopleAction.post_set_commission id b) = single _ refl
people-IsSingle u (PeopleAction.post_approve_social_link id b) = single _ refl
people-IsSingle u (PeopleAction.post_reset_payout_methods id) = single _ refl

settings-IsSingle : (u : String) (a : SettingsAction) → IsSingle u (settings u a)
unfolding settings
settings-IsSingle u (SettingsAction.post_create_admin b) = single _ refl
settings-IsSingle u (SettingsAction.post_revoke_admin id) = single _ refl
settings-IsSingle u (SettingsAction.post_update_platform_settings b) = single _ refl

act-IsSingle : (u : String) (a : AdminAction) → IsSingle u (act u a)
unfolding act
act-IsSingle u (finance_action a) = finance-IsSingle u a
act-IsSingle u (moderation_action a) = moderation-IsSingle u a
act-IsSingle u (people_action a) = people-IsSingle u a
act-IsSingle u (settings_action a) = settings-IsSingle u a

run_as-one :
    (u : String) (p : Rpc) (env : Env) (h : History)
    → (rpcs (history (run_as u (db_rpc p) env h)) ≡ rpcs h)
      ⊎ ((history (run_as u (db_rpc p) env h) ≡ commit ∷ rpc p ∷ set_user u ∷ begin ∷ h)
          ⊎ (history (run_as u (db_rpc p) env h) ≡ rollback ∷ rpc p ∷ set_user u ∷ begin ∷ h))
unfolding run_as db_rpc
run_as-one u p env h = ground arith

admin_guard-rpcs :
    (u : Option String) (env : Env) (h : History) → rpcs (history (admin_guard u env h)) ≡ rpcs h
unfolding admin_guard
admin_guard-rpcs u env h = ground arith

admin_guard-ok :
    (u : String) (env : Env) (h h' : History)
    → admin_guard (some u) env h ≡ ok tt h'
    → (rows : List String) × (env (statement (select_role u)) (set_user u ∷ begin ∷ h)
        ≡ answer rows)
      × (is_admin rows ≡ true)
      × (h' ≡ commit ∷ statement (select_role u) ∷ set_user u ∷ begin ∷ h)
unfolding admin_guard
admin_guard-ok u env h h' e = ground arith

-- The requests with which `AdminGuard` admits a user, after those of `h`.
abbrev pub admitted : String → History → History
admitted u h = commit ∷ statement (select_role u) ∷ set_user u ∷ begin ∷ h

-- This one RPC was made, in a unit of work of this user that was then closed.
abbrev pub RanOne : String → Rpc → History → History → Type 0
RanOne u p h h' =
    (h' ≡ commit ∷ rpc p ∷ set_user u ∷ begin ∷ h)
    ⊎ (h' ≡ rollback ∷ rpc p ∷ set_user u ∷ begin ∷ h)

-- The caller's first row, read in a unit of work of their own, has the role ADMIN.
pub record IsAdmin (u : String) (env : Env) (h : History) : Type 0 where
  pub others : List String
  pub read : env (statement (select_role u)) (set_user u ∷ begin ∷ h) ≡ answer ("ADMIN" ∷ others)

is_admin-IsAdmin :
    (u : String) (rows : List String) (env : Env) (h : History)
    → env (statement (select_role u)) (set_user u ∷ begin ∷ h) ≡ answer rows
    → is_admin rows ≡ true
    → IsAdmin u env h
unfolding is_admin
is_admin-IsAdmin u [] env h read role = cc role
is_admin-IsAdmin u (role ∷ others) env h read e = record {
  others = others;
  read = read ∙ ap (λ r. answer (r ∷ others)) ((eq_iff role "ADMIN").0 e);
}

acted :
    (u : String) (m : M (Option Json)) (env : Env) (h : History)
    → IsSingle u m
    → (rpcs (history (m env h)) ≡ rpcs h)
      ⊎ ((p : Rpc) × (m ≡ run_as u (db_rpc p)) × RanOne u p h (history (m env h)))
acted u m env h (refused e q) = inl (ap (λ n. rpcs (history (n env h))) q)
acted u m env h (single p q) = elim (run_as-one u p env h) [
  | inl k ↦ inl (ap (λ n. rpcs (history (n env h))) q ∙ k)
  | inr (inl k) ↦ inr (p, q, inl (ap (λ n. history (n env h)) q ∙ k))
  | inr (inr k) ↦ inr (p, q, inr (ap (λ n. history (n env h)) q ∙ k))
]

guarded :
    (u : String) (a : AdminAction) (env : Env) (h : History) (o : Outcome (Unit {0}))
    → admin_guard (some u) env h ≡ o
    → rpcs (history o) ≡ rpcs h
    → (rpcs (history (elim o [ ok t h' ↦ act u a env h' | err x h' ↦ err x h' ])) ≡ rpcs h)
      ⊎ (IsAdmin u env h
          × (p : Rpc) × (act u a ≡ run_as u (db_rpc p))
          × RanOne u p
              (admitted u h)
              (history (elim o [ ok t h' ↦ act u a env h' | err x h' ↦ err x h' ])))
guarded u a env h (ok t h') e k =
    let (rows, read, role, after) = admin_guard-ok u env h h' e in
    elim (acted u (act u a) env h' (act-IsSingle u a)) [
      | inl same ↦ inl (same ∙ k)
      | inr (p, q, one) ↦ inr (
        is_admin-IsAdmin u rows env h read role,
        p,
        q,
        subst (λ t. RanOne u p t (history (act u a env h'))) after one,
      )
    ]
guarded u a env h (err x h') e k = inl k

-- A route of the admin API makes no RPC at all, or exactly the one RPC of its action: then jose verified the caller's
-- token, the caller's role was read as ADMIN in a unit of work of their own, and the RPC ran in a second one of theirs.
pub admin_route-guarded :
    (jwt_verify : String → JoseResult) (auth : Option String) (a : AdminAction) (env : Env)
    (h : History)
    → (rpcs (history (admin_route jwt_verify auth a env h)) ≡ rpcs h)
      ⊎ ((u : VerifiedToken) × (Auth.can_activate jwt_verify auth ≡ accepted u)
          × IsAdmin u.id env h
          × (p : Rpc) × (act u.id a ≡ run_as u.id (db_rpc p))
          × RanOne u.id p (admitted u.id h) (history (admin_route jwt_verify auth a env h)))
unfolding admin_route as_user
admin_route-guarded jwt_verify auth a env h = by_verdict (Auth.can_activate jwt_verify auth) refl
  where
    by_verdict :
        (v : Verdict VerifiedToken)
        → Auth.can_activate jwt_verify auth ≡ v
        → (rpcs (history ((do u ← as_user v; admin_guard (some u.id); act u.id a) env h)) ≡ rpcs h)
          ⊎ ((u : VerifiedToken) × (Auth.can_activate jwt_verify auth ≡ accepted u)
              × IsAdmin u.id env h
              × (p : Rpc) × (act u.id a ≡ run_as u.id (db_rpc p))
              × RanOne u.id p
                  (admitted u.id h)
                  (history ((do u ← as_user v; admin_guard (some u.id); act u.id a) env h)))
    by_verdict (Verdict.unauthorized m) e = inl refl
    by_verdict (accepted u) e =
        elim (guarded u.id a env h (admin_guard (some u.id) env h) refl
          (admin_guard-rpcs (some u.id) env h)) [
            | inl same ↦ inl same
            | inr (is, p, q, one) ↦ inr (u, e, is, p, q, one)
          ]
