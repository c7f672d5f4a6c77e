-- ===== src/Jobs/Deletions.antt =====
-- The order of the steps of `purgeDeletions` (src/jobs/jobs.module.ts).
use zudue_api.Base.{
  ℕ, suc, refl, ◌≡◌, String, Bool, true, false, ◌&&◌, List, [], ◌∷◌, arith, ◌==◌, eq_refl,
}
use zudue_api.Effect.{Env, History, Reply, answer, fail, history, call}
use zudue_api.Effect.Rules.{Keeps, Keeps-bind, Keeps-pure}
use zudue_api.Effect.Requests.{
  rpc, rpc_purge_profile, delete_user, Deletion, begin, set_service, select_due_deletions,
}
use zudue_api.Effect.Database.{run_as_service, db_rpc}
use zudue_api.Jobs.{Tally, zeros, count, purge_one, purge_each, purge_deletions, gone}

abbrev removed : Reply ℕ → Bool
removed (answer status) = gone status
removed (fail e) = false

-- The last request before the transaction of a purge deleted the login of that same user, and the
-- provider answered that it is gone.
abbrev pub login_deleted : Env → String → History → Bool
login_deleted env user (set_service ∷ begin ∷ delete_user u ∷ h) =
    u == user && removed (env (delete_user u) h)
login_deleted env user _ = false

-- Every profile was purged only after its login was deleted.
abbrev pub purges_follow : Env → History → Bool
purges_follow env [] = true
purges_follow env (rpc (rpc_purge_profile u) ∷ h) = login_deleted env u h && purges_follow env h
purges_follow env (q ∷ h) = purges_follow env h

PurgesFollow : Env → History → Type 0
PurgesFollow env h = purges_follow env h ≡ true

purge_one-follow : (d : Deletion) → Keeps PurgesFollow (purge_one true d)
unfolding purge_one run_as_service db_rpc PurgesFollow
purge_one-follow d = record { at = λ env h p. ground (arith, eq_refl d.profile_id) }

purge_each-follow : (ds : List Deletion) (t : Tally) → Keeps PurgesFollow (purge_each true ds t)
unfolding purge_each
purge_each-follow [] t = Keeps-pure t
purge_each-follow (d ∷ ds) t =
    Keeps-bind (purge_one true d) _ (purge_one-follow d)
      (λ fine. purge_each-follow ds (count fine t))

select_due-follow : Keeps PurgesFollow (run_as_service (call select_due_deletions))
unfolding run_as_service PurgesFollow
select_due-follow = record { at = λ env h p. ground arith }

-- How often the deletion of a login was asked for.
abbrev pub logins_asked : History → ℕ
logins_asked [] = 0
logins_asked (delete_user u ∷ h) = suc (logins_asked h)
logins_asked (q ∷ h) = logins_asked h

LoginsKept : ℕ → Env → History → Type 0
LoginsKept n env h = logins_asked h ≡ n

purge_one-kept : (n : ℕ) (d : Deletion) → Keeps (LoginsKept n) (purge_one false d)
unfolding purge_one run_as_service db_rpc LoginsKept
purge_one-kept n d = record { at = λ env h p. ground arith }

purge_each-kept :
    (n : ℕ) (ds : List Deletion) (t : Tally) → Keeps (LoginsKept n) (purge_each false ds t)
unfolding purge_each
purge_each-kept n [] t = Keeps-pure t
purge_each-kept n (d ∷ ds) t =
    Keeps-bind (purge_one false d) _ (purge_one-kept n d)
      (λ fine. purge_each-kept n ds (count fine t))

select_due-kept : (n : ℕ) → Keeps (LoginsKept n) (run_as_service (call select_due_deletions))
unfolding run_as_service LoginsKept
select_due-kept n = record { at = λ env h p. ground arith }

-- With the admin provider enabled, a profile is purged only after the deletion of its login was answered
-- as done: the credential goes first, and a failed deletion leaves the profile and the request as they
-- were. With the provider not enabled, no deletion of a login is asked for.
pub purge_deletions-follow :
    (env : Env) (h : History)
    → purges_follow env h ≡ true
    → (purges_follow env (history (purge_deletions true env h)) ≡ true)
      × (logins_asked (history (purge_deletions false env h)) ≡ logins_asked h)
unfolding purge_deletions PurgesFollow LoginsKept
purge_deletions-follow env h p = (
  (Keeps-bind _ _ select_due-follow (λ due. purge_each-follow due zeros)).at env h p,
  (Keeps-bind _ _ (select_due-kept (logins_asked h))
        (λ due. purge_each-kept (logins_asked h) due zeros)).at
      env h refl,
)
