-- ===== src/Effect/Rules.antt =====
-- Rules for proofs about handlers, one for each way to build one.
use zudue_api.Base.{◌∷◌, String, none, some, ◌≡◌, Bool, true, false, if◌then◌else◌}
use zudue_api.Effect.{
  Env, History, Error, driver, M, Outcome, ok, err, history, pure, throw, ◌>>=◌, ◌>>◌, call,
  attempt, try_catch, Reply, answer, fail,
}
use zudue_api.Effect.Requests.{
  Request, ReplyOf, begin, commit, rollback, set_user, set_service, set_anon, Rpc, rpc,
}
use zudue_api.Effect.Database.{closing, transaction, run_as, run_as_service, run_anon, db_rpc}

-- A handler whose first part returned goes on with what it returned.
pub bind-ok :
    {A B : Type 0} (m : M A) (f : A → M B) (env : Env) (h h' : History) (a : A)
    → m env h ≡ ok a h'
    → (m >>= f) env h ≡ f a env h'
bind-ok m f env h h' a e = rw (e, ◌>>=◌)

pub bind-err :
    {A B : Type 0} (m : M A) (f : A → M B) (env : Env) (h h' : History) (e : Error)
    → m env h ≡ err e h'
    → (m >>= f) env h ≡ err e h'
bind-err m f env h h' e q = rw (q, ◌>>=◌)

pub call-ok :
    (r : Request) (env : Env) (h : History) (a : ReplyOf r)
    → env r h ≡ answer a
    → call r env h ≡ ok a (r ∷ h)
call-ok r env h a q = rw (q, call)

pub call-err :
    (r : Request) (env : Env) (h : History) (e : String)
    → env r h ≡ fail e
    → call r env h ≡ err (driver e) (r ∷ h)
call-err r env h e q = rw (q, call)

-- Whatever `m` is answered and however it ends, `P` still holds of the history.
pub record Keeps (P : Env → History → Type 0) {A : Type 0} (m : M A) : Type 0 where
  pub at : (env : Env) (h : History) → P env h → P env (history (m env h))

module _ {P : Env → History → Type 0} {A B : Type 0} where
  pub Keeps-bind :
      (m : M A) (f : A → M B) → Keeps P m → ((a : A) → Keeps P (f a)) → Keeps P (m >>= f)
  Keeps-bind m f km kf = record { at = λ env h p. after env (m env h) (km.at env h p) }
    where
      after :
          (env : Env) (o : Outcome A)
          → P env (history o)
          → P env (history (elim o [ ok a h' ↦ f a env h' | err e h' ↦ err e h' ]))
      after env (ok a h') p = (kf a).at env h' p
      after env (err e h') p = p

module _ {P : Env → History → Type 0} {A : Type 0} where
  pub Keeps-pure : (a : A) → Keeps P (pure a)
  Keeps-pure a = record { at = λ env h p. p }

  pub Keeps-throw : (e : Error) → Keeps P (throw {A = A} e)
  Keeps-throw e = record { at = λ env h p. p }

  pub Keeps-if : (b : Bool) (m n : M A) → Keeps P m → Keeps P n → Keeps P (if b then m else n)
  Keeps-if true m n km kn = km
  Keeps-if false m n km kn = kn

-- What holds still after each of the requests that open and close a unit of work.
pub record IsClosed (P : Env → History → Type 0) : Type 0 where
  pub opened : (env : Env) (h : History) → P env h → P env (begin ∷ h)
  pub committed : (env : Env) (h : History) → P env h → P env (commit ∷ h)
  pub undone : (env : Env) (h : History) → P env h → P env (rollback ∷ h)
  pub as_user : (u : String) (env : Env) (h : History) → P env h → P env (set_user u ∷ h)
  pub as_service : (env : Env) (h : History) → P env h → P env (set_service ∷ h)
  pub as_anon : (env : Env) (h : History) → P env h → P env (set_anon ∷ h)

module _ {P : Env → History → Type 0} where
  pub Keeps-call :
      (r : Request) → ((env : Env) (h : History) → P env h → P env (r ∷ h)) → Keeps P (call r)
  Keeps-call r step = record { at = λ env h p. after env h p (env r h) }
    where
      after :
          (env : Env) (h : History)
          → P env h
          → (reply : Reply (ReplyOf r))
          → P env
              (history (elim reply [ answer a ↦ ok a (r ∷ h) | fail e ↦ err (driver e) (r ∷ h) ]))
      after env h p (answer a) = step env h p
      after env h p (fail e) = step env h p

  pub Keeps-attempt : {A : Type 0} (m : M A) → Keeps P m → Keeps P (attempt m)
  Keeps-attempt {A} m km = record { at = λ env h p. after env (m env h) (km.at env h p) }
    where
      after :
          (env : Env) (o : Outcome A)
          → P env (history o)
          → P env (history (elim o [ ok a h' ↦ ok (some a) h' | err e h' ↦ ok none h' ]))
      after env (ok a h') p = p
      after env (err e h') p = p

  pub Keeps-try_catch :
      {A : Type 0} (m : M A) (k : Error → M A)
      → Keeps P m
      → ((e : Error) → Keeps P (k e))
      → Keeps P (try_catch m k)
  Keeps-try_catch {A} m k km kk = record { at = λ env h p. after env (m env h) (km.at env h p) }
    where
      after :
          (env : Env) (o : Outcome A)
          → P env (history o)
          → P env (history (elim o [ ok a h' ↦ ok a h' | err e h' ↦ k e env h' ]))
      after env (ok a h') p = p
      after env (err e h') p = (kk e).at env h' p

  Keeps-closing : {A : Type 0} (m : M A) → IsClosed P → Keeps P m → Keeps P (closing m)
  Keeps-closing {A} m c km = record { at = λ env h p. after env (m env h) (km.at env h p) }
    where
      after :
          (env : Env) (o : Outcome A)
          → P env (history o)
          → P env (
              history (elim o [
                | ok a h' ↦ (do call commit; pure a) env h'
                | err e h' ↦ err e (rollback ∷ h')
              ]))
      after env (ok a h') p =
          (Keeps-bind (call commit) (λ _. pure a) (Keeps-call commit c.committed)
              (λ _. Keeps-pure a)).at
            env h' p
      after env (err e h') p = c.undone env h' p

  pub Keeps-transaction : {A : Type 0} (m : M A) → IsClosed P → Keeps P m → Keeps P (transaction m)
  unfolding transaction
  Keeps-transaction m c km =
      Keeps-bind (call begin) _ (Keeps-call begin c.opened) (λ _. Keeps-closing m c km)

  pub Keeps-run_as :
      {A : Type 0} (u : String) (m : M A) → IsClosed P → Keeps P m → Keeps P (run_as u m)
  unfolding run_as
  Keeps-run_as u m c km =
      Keeps-transaction _ c
        (Keeps-bind (call (set_user u)) _ (Keeps-call (set_user u) (c.as_user u)) (λ _. km))

  pub Keeps-run_as_service :
      {A : Type 0} (m : M A) → IsClosed P → Keeps P m → Keeps P (run_as_service m)
  unfolding run_as_service
  Keeps-run_as_service m c km =
      Keeps-transaction _ c
        (Keeps-bind (call set_service) _ (Keeps-call set_service c.as_service) (λ _. km))

  pub Keeps-run_anon : {A : Type 0} (m : M A) → IsClosed P → Keeps P m → Keeps P (run_anon m)
  unfolding run_anon
  Keeps-run_anon m c km =
      Keeps-transaction _ c (Keeps-bind (call set_anon) _ (Keeps-call set_anon c.as_anon) (λ _. km))

  pub Keeps-db_rpc :
      (p : Rpc) → ((env : Env) (h : History) → P env h → P env (rpc p ∷ h)) → Keeps P (db_rpc p)
  unfolding db_rpc
  Keeps-db_rpc p step =
      Keeps-bind (call (rpc p)) _ (Keeps-call (rpc p) step)
        (λ rows. Keeps-if _ _ _ (Keeps-throw _) (Keeps-pure _))

pub ruleset keeps_rules = (Keeps-bind, Keeps-pure, Keeps-throw, Keeps-if)
