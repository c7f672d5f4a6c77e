-- ===== src/Effect/History.antt =====
-- What a history of requests says: whether a transaction is open after it, and which of its changes of
-- data were rolled back.
use zudue_api.Base.{◌≡◌, Bool, true, false, not, ◌&&◌, [], ◌∷◌, some, arith}
use zudue_api.Effect.{Env, Error, driver, thrown, History, M, answer, fail, Reply, history}
use zudue_api.Effect.Statements.{changes}
use zudue_api.Effect.Requests.{
  Request, begin, commit, rollback, set_service, rpc, statement, insert_topup_order,
  insert_webhook_event, update_webhook_event, insert_settle_failure, refund_window,
  update_window_expired, update_deletion_completed,
}
use zudue_api.Effect.Database.{transaction, run_as_service}

unfoldable pub answered : {A : Type 0} → Reply A → Bool
answered (answer a) = true
answered (fail e) = false

-- A transaction is open: the last of `begin`, `commit` and `rollback` is a `begin` that was answered.
unfoldable pub in_transaction : Env → History → Bool
unfolding answered
in_transaction env [] = false
in_transaction env (begin ∷ h) = answered (env begin h)
in_transaction env (commit ∷ h) = false
in_transaction env (rollback ∷ h) = false
in_transaction env (r ∷ h) = in_transaction env h

-- Requests that change the tables.
unfoldable pub is_write : Request → Bool
unfolding changes
is_write (statement s) = changes s
is_write (rpc p) = true
is_write (insert_topup_order o) = true
is_write (insert_webhook_event i t p) = true
is_write (update_webhook_event s i) = true
is_write (insert_settle_failure i) = true
is_write (refund_window w) = true
is_write (update_window_expired w) = true
is_write (update_deletion_completed d) = true
is_write _ = false

-- The writes of a history that no rollback undid. `undone`: the walk, from the newest request, is in a
-- transaction that was rolled back.
unfoldable pub surviving : Bool → History → History
unfolding is_write
surviving undone [] = []
surviving undone (begin ∷ h) = surviving false h
surviving undone (commit ∷ h) = surviving false h
surviving undone (rollback ∷ h) = surviving true h
surviving undone (r ∷ h) =
    let rest = surviving undone h in
    elim (is_write r && not undone) [ true ↦ r ∷ rest | false ↦ rest ]

-- A unit of work leaves no transaction open, whatever its body does and however it ends.
transaction_closes :
    {A : Type 0} (m : M A) (env : Env) (h : History)
    → in_transaction env h ≡ false
    → in_transaction env (history (transaction m env h)) ≡ false
unfolding transaction in_transaction
transaction_closes m env h out = ground arith

-- The error is a refusal of the handler's own, not a failure of a library that it called.
abbrev pub IsRefusal : Error → Type 0
IsRefusal (driver m) = ⊥
IsRefusal _ = Unit {0}

-- A unit of work that refuses leaves no write behind: the rollback undoes those of its body, which
-- closes no transaction itself.
pub transaction_refused :
    {A : Type 0} (m : M A) (env : Env) (h : History) (e : Error)
    → ((h' : History) → surviving true (history (m env h')) ≡ surviving true h')
    → thrown (transaction m env h) ≡ some e
    → IsRefusal e
    → surviving false (history (transaction m env h)) ≡ surviving false h
unfolding transaction surviving
transaction_refused m env h e undone t r = ground (arith, undone (begin ∷ h))

pub run_as_service_refused :
    {A : Type 0} (m : M A) (env : Env) (h : History) (e : Error)
    → ((h' : History) → surviving true (history (m env h')) ≡ surviving true h')
    → thrown (run_as_service m env h) ≡ some e
    → IsRefusal e
    → surviving false (history (run_as_service m env h)) ≡ surviving false h
unfolding run_as_service surviving
run_as_service_refused m env h e undone t r = ground (arith, undone (set_service ∷ begin ∷ h))
