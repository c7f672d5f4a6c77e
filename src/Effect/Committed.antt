-- ===== src/Effect/Committed.antt =====
-- What a handler that returned was answered (src/db/database.service.ts): each part of it returned, and the COMMIT of a
-- unit of work was confirmed.
use zudue_api.Base.{◌≡◌, refl, ap, ◌∙◌, sym, true, ◌∷◌, arith}
use zudue_api.Effect.{
  Env, History, Outcome, ok, err, Reply, answer, fail, history, call, M, pure, ◌>>=◌, ◌>>◌, driver,
}
use zudue_api.Effect.History.{answered}
use zudue_api.Effect.Requests.{Request, ReplyOf, begin, commit, rollback, set_service}
use zudue_api.Effect.Database.{transaction, closing, run_as_service}

-- Where a handler in two parts returned, so did both of them.
pub bind-returned :
    {A B : Type 0} (m : M A) (f : A → M B) (env : Env) (h h' : History) (b : B)
    → (m >>= f) env h ≡ ok b h'
    → (a : A) × (h'' : History) × (m env h ≡ ok a h'') × (f a env h'' ≡ ok b h')
bind-returned {A = A} {B = B} m f env h h' b e = first (m env h) refl e
  where
    first :
        (o : Outcome A)
        → m env h ≡ o
        → elim o [ ok a h'' ↦ f a env h'' | err x h'' ↦ err x h'' ] ≡ ok b h'
        → (a : A) × (h'' : History) × (m env h ≡ ok a h'') × (f a env h'' ≡ ok b h')
    first (ok a h'') r e = (a, h'', r, e)
    first (err x h'') r e = absurd (ground arith)

pub call-returned :
    (r : Request) (env : Env) (h h' : History) (a : ReplyOf r)
    → call r env h ≡ ok a h'
    → (h' ≡ r ∷ h) × (answered (env r h) ≡ true)
unfolding answered
call-returned r env h h' a e = replied (env r h) e
  where
    replied :
        (q : Reply (ReplyOf r))
        → elim q [ answer x ↦ ok x (r ∷ h) | fail x ↦ err (driver x) (r ∷ h) ] ≡ ok a h'
        → (h' ≡ r ∷ h) × (answered q ≡ true)
    replied (answer x) e = (ap history (sym e), refl)
    replied (fail x) e = absurd (ground arith)

-- A unit of work that returned has its COMMIT answered.
pub closing-committed :
    {A : Type 0} (m : M A) (env : Env) (h h' : History) (a : A)
    → closing m env h ≡ ok a h'
    → (h'' : History) × (m env h ≡ ok a h'')
      × (h' ≡ commit ∷ h'')
      × (answered (env commit h'') ≡ true)
closing-committed {A = A} m env h h' a e = ended (m env h) refl e
  where
    ended :
        (o : Outcome A)
        → m env h ≡ o
        → elim o [
          | ok b h'' ↦ (do call commit; pure b) env h''
          | err x h'' ↦ err x (rollback ∷ h'')
        ]
          ≡ ok a h'
        → (h'' : History) × (m env h ≡ ok a h'')
          × (h' ≡ commit ∷ h'')
          × (answered (env commit h'') ≡ true)
    ended (ok b h'') r e =
        let (u, last, c, same) = bind-returned (call commit) (λ _. pure b) env h'' h' a e in
        let (newest, done) = call-returned commit env h'' last u c in
        (h'', ground (arith, r, same), sym (ap history same) ∙ newest, done)
    ended (err x h'') r e = absurd (ground arith)

pub run_as_service-committed :
    {A : Type 0} (m : M A) (env : Env) (h h' : History) (a : A)
    → run_as_service m env h ≡ ok a h'
    → (h'' : History) × (m env (set_service ∷ begin ∷ h) ≡ ok a h'')
      × (h' ≡ commit ∷ h'')
      × (answered (env commit h'') ≡ true)
unfolding run_as_service transaction
run_as_service-committed {A = A} m env h h' a e =
    let (u, h1, b, rest) =
      bind-returned (call begin) (λ x. closing (call set_service >> m)) env h h' a e in
    let (h2, ran, last, done) = closing-committed (call set_service >> m) env h1 h' a rest in
    let (v, h3, s, body) = bind-returned (call set_service) (λ _. m) env h1 h2 a ran in
    let opened = (call-returned begin env h h1 u b).0 in
    let served = (call-returned set_service env h1 h3 v s).0 in
    (
      h2,
      ap (λ x. m env (set_service ∷ x)) (sym opened) ∙ ap (m env) (sym served) ∙ body,
      last,
      done,
    )
