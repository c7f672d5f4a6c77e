-- ===== src/Services/Caller.antt =====
-- As whom the services write.
pub mod Links
pub mod Reports
pub mod Routes
use zudue_api.Base.{
  ◌≡◌, refl, ap, String, Bool, true, false, not, ◌&&◌, ◌||◌, ◌⊎◌, inl, inr, Option, none, some,
  List, [], ◌∷◌, has, ◌==◌, eq_refl, arith, if◌then◌else◌, Bool-cases,
}
use zudue_api.Json.{Json, Items, null, bool, num, str, arr, obj, prop, coalesce, truthy}
use zudue_api.Auth
use zudue_api.Auth.{VerifiedToken, JoseResult, Verdict, accepted}
use zudue_api.Effect.{
  M, Env, Error, History, Outcome, ok, err, Reply, answer, fail, history, throw, driver, pure, call,
  attempt, ◌>>=◌, ◌>>◌, bad_request,
}
use zudue_api.Effect.Database.{run_as, db_rpc, transaction, closing}
use zudue_api.Effect.History.{is_write}
use zudue_api.Effect.Rules.{
  Keeps, Keeps-bind, Keeps-pure, Keeps-throw, Keeps-if, Keeps-call, Keeps-attempt, Keeps-db_rpc,
}
use zudue_api.Effect.Statements.{
  Statement, RowsOf, Report, insert_report, select_admins, insert_application, insert_payout_method,
  read_notification, read_notifications, delete_social_link, upsert_social_link,
}
use zudue_api.Effect.Requests.{
  Request, Rpc, rpc, named, statement, begin, commit, rollback, set_user, set_anon, set_service,
}
use zudue_api.Admin.{as_user}
use zudue_api.Services.Answers.{success}
use zudue_api.Services.{
  ServiceAction, serve, user_route, messaging_action, availability_action, catalog_action,
  shoutouts_action, trust_action, earnings_action, notifications_action, onboarding_action,
  booking_action,
}
use zudue_api.Services.Messaging.{MessagingAction, messaging}
use zudue_api.Services.Availability.{AvailabilityAction, availability}
use zudue_api.Services.Catalog.{CatalogAction, catalog}
use zudue_api.Services.Shoutouts.{ShoutoutsAction, shoutouts}
use zudue_api.Services.Trust.{TrustAction, trust}
use zudue_api.Services.Earnings.{EarningsAction, earnings}
use zudue_api.Services.Notifications.{NotificationsAction, notifications}
use zudue_api.Services.Onboarding.{OnboardingAction, onboarding}
use zudue_api.Services.Booking.{BookingAction, booking}

-- The user that the open unit of work was set to, if it was set to one.
abbrev pub speaker : History → Option String
speaker [] = none
speaker (begin ∷ h) = none
speaker (commit ∷ h) = none
speaker (rollback ∷ h) = none
speaker (set_user u ∷ h) = some u
speaker (set_anon ∷ h) = none
speaker (set_service ∷ h) = none
speaker (r ∷ h) = speaker h

abbrev pub is_user : String → Option String → Bool
is_user u none = false
is_user u (some v) = v == u

-- Every change of data stands in a unit of work that was set to this user.
abbrev pub only_as : String → History → Bool
only_as u [] = true
only_as u (r ∷ h) = (not (is_write r) || is_user u (speaker h)) && only_as u h

abbrev pub OnlyAs : String → Env → History → Type 0
OnlyAs u env h = only_as u h ≡ true

pub record Inside (u : String) (env : Env) (h : History) : Type 0 where
  set : is_user u (speaker h) ≡ true
  only : only_as u h ≡ true

closed :
    {A : Type 0} (u : String) (env : Env) (o : Outcome A)
    → Inside u env (history o)
    → only_as u (
        history
          (elim o [ ok a h' ↦ (do call commit; pure a) env h' | err e h' ↦ err e (rollback ∷ h') ]))
      ≡ true
unfolding is_write
closed u env (ok a h') i = let only = i.only in ground arith
closed u env (err e h') i = i.only

-- The start of a unit of work, from the answer to `set_user` and then from that to `begin`.
set_user-Inside :
    {A : Type 0} (u : String) (m : M A) (env : Env) (h : History)
    → Keeps (Inside u) m
    → only_as u h ≡ true
    → (r : Reply (Unit {0}))
    → Inside u env (
        history
          (elim (elim r as (λ _. Outcome (Unit {0})) [
            | answer a ↦ ok a (set_user u ∷ begin ∷ h)
            | fail e ↦ err (driver e) (set_user u ∷ begin ∷ h)
          ]) [ ok a h' ↦ m env h' | err e h' ↦ err e h' ]))
unfolding is_write
set_user-Inside u m env h k p (answer a) =
    k.at env (set_user u ∷ begin ∷ h) (record { set = eq_refl u; only = p })
set_user-Inside u m env h k p (fail e) = record { set = eq_refl u; only = p }

pub run_as-OnlyAs :
    {A : Type 0} (u : String) (m : M A) → Keeps (Inside u) m → Keeps (OnlyAs u) (run_as u m)
unfolding run_as transaction is_write
run_as-OnlyAs {A} u m k = record { at = λ env h p. begun env h p (env begin h) }
  where
    begun :
        (env : Env) (h : History)
        → only_as u h ≡ true
        → (r : Reply (Unit {0}))
        → only_as u (
            history
              (elim (elim r as (λ _. Outcome (Unit {0})) [
                | answer a ↦ ok a (begin ∷ h)
                | fail e ↦ err (driver e) (begin ∷ h)
              ]) [ ok a h' ↦ closing (call (set_user u) >> m) env h' | err e h' ↦ err e h' ]))
          ≡ true
    begun env h p (answer a) =
        closed u env ((call (set_user u) >> m) env (begin ∷ h))
          (set_user-Inside u m env h k p (env (set_user u) (begin ∷ h)))
    begun env h p (fail e) = p

pub rpc-Inside : (u : String) (p : Rpc) → Keeps (Inside u) (db_rpc p)
unfolding is_write
rpc-Inside u p =
    Keeps-db_rpc p
      (λ env h i. record { set = i.set; only = both (is_user u (speaker h)) _ i.set i.only })
  where
    both : (a b : Bool) → a ≡ true → b ≡ true → (a && b) ≡ true
    both a b x y = ground arith

pub statement-Inside : (u : String) (s : Statement) → Keeps (Inside u) (call (statement s))
unfolding is_write
statement-Inside u s = Keeps-call (statement s) (λ env h i. record {
  set = i.set;
  only = allowed (is_write (statement s)) (is_user u (speaker h)) (only_as u h) i.set i.only;
})
  where
    allowed : (w a b : Bool) → a ≡ true → b ≡ true → ((not w || a) && b) ≡ true
    allowed w a b x y = ground arith

pub rpc-OnlyAs : (u : String) (p : Rpc) → Keeps (OnlyAs u) (run_as u (db_rpc p))
rpc-OnlyAs u p = run_as-OnlyAs u (db_rpc p) (rpc-Inside u p)

pub write-OnlyAs :
    {A : Type 0} (u : String) (s : Statement) (f : RowsOf s → A)
    → Keeps (OnlyAs u) (run_as u (do a ← call (statement s); pure (f a)))
write-OnlyAs u s f =
    run_as-OnlyAs u _ (Keeps-bind _ _ (statement-Inside u s) (λ a. Keeps-pure (f a)))
