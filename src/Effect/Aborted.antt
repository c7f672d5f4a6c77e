-- ===== src/Effect/Aborted.antt =====
-- Transactions that PostgreSQL aborts: once a statement of a transaction fails, the rest is refused and its COMMIT
-- rolls back, also where the handler caught the error.
use zudue_api.Base.{Bool, true, false, not, ◌&&◌, ◌||◌, [], ◌∷◌}
use zudue_api.Effect.{Env, History}
use zudue_api.Effect.Requests.{
  Request, begin, commit, rollback, create_order, fetch_payment, delete_user, mint, presign,
  get_access_token, send_fcm, send_onesignal, push_cancel_call, push_incoming_call, push_fan_ready,
  push_queue_next, push_call_ended,
}
use zudue_api.Effect.History.{answered, is_write}

-- Requests that the database does not see.
unfoldable pub is_external : Request → Bool
is_external (create_order a u) = true
is_external (fetch_payment p) = true
is_external (delete_user u) = true
is_external (mint m) = true
is_external (presign b k t e) = true
is_external get_access_token = true
is_external (send_fcm m) = true
is_external (send_onesignal m) = true
is_external (push_cancel_call u c) = true
is_external (push_incoming_call u c) = true
is_external (push_fan_ready u c) = true
is_external (push_queue_next u c n) = true
is_external (push_call_ended us c b s r) = true
is_external _ = false

-- A statement failed since the last `begin`.
unfoldable pub aborted : Env → History → Bool
unfolding is_external answered
aborted env [] = false
aborted env (begin ∷ h) = false
aborted env (commit ∷ h) = false
aborted env (rollback ∷ h) = false
aborted env (r ∷ h) = (not (is_external r) && not (answered (env r h))) || aborted env h

-- The writes that are in the tables in the end. `undone`: the walk, from the newest request, is in a transaction
-- that was rolled back, by the handler or at its commit.
unfoldable pub durable : Env → Bool → History → History
unfolding aborted is_write answered
durable env undone [] = []
durable env undone (begin ∷ h) = durable env false h
durable env undone (commit ∷ h) = durable env (aborted env h || not (answered (env commit h))) h
durable env undone (rollback ∷ h) = durable env true h
durable env undone (r ∷ h) =
    let rest = durable env undone h in
    elim (is_write r && answered (env r h) && not undone) [ true ↦ r ∷ rest | false ↦ rest ]
