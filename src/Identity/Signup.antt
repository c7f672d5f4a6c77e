-- ===== src/Identity/Signup.antt =====
-- What becomes of a signup of src/identity/identity.module.ts whose welcome notification fails.
use zudue_api.Base.{◌≡◌, String, false, Option, [], ◌∷◌, arith}
use zudue_api.Effect.{Env, History, history, fail}
use zudue_api.Effect.Database.{run_as, db_rpc}
use zudue_api.Effect.Statements.{insert_profile}
use zudue_api.Effect.Requests.{named, text_arg, rpc, statement, begin, set_user}
use zudue_api.Effect.Aborted.{durable}
use zudue_api.Identity.{create_profile}

-- Where the statement of the welcome notification fails, nothing of the signup stays in the tables, although the
-- handler catches the error and goes on to its commit: the notification is not best-effort.
pub create_profile_lost :
    (u name : String) (email mobile : Option String) (env : Env) (h : History) (m : String)
    → env (rpc (named "rpc_send_welcome_notification" (text_arg u ∷ []))) (
        statement (
          insert_profile
            (record { id = u; full_name = name; email = email; mobile_number = mobile }))
        ∷ set_user u
        ∷ begin
        ∷ h)
      ≡ fail m
    → durable env false (history (create_profile u name email mobile env h)) ≡ durable env false h
unfolding create_profile run_as db_rpc durable
create_profile_lost u name email mobile env h m e = ground arith
