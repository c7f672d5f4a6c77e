-- ===== src/Effect/Database.antt =====
-- src/db/database.service.ts: one transaction for each unit of work, with the caller's identity set
-- first. `transaction` is drizzle's, by its documentation: it commits where the body returns, and rolls
-- back and throws the same error where the body throws.
use zudue_api.Base.{String, Option, List, ◌∷◌, head?, or_else, if◌then◌else◌, none, ◌&&◌}
use zudue_api.Json.{Json, opt_prop, is_false, truthy}
use zudue_api.Effect.{rejected, M, pure, throw, ◌>>=◌, ◌>>◌, call, ok, err}
use zudue_api.Effect.Requests.{begin, commit, rollback, set_user, set_anon, set_service, Rpc, rpc}

abbrev pub closing : {A : Type 0} → M A → M A
closing m env h = elim (m env h) [
  | ok a h' ↦ (do call commit; pure a) env h'
  | err e h' ↦ err e (rollback ∷ h')
]

unfoldable pub transaction : {A : Type 0} → M A → M A
transaction body = do call begin; closing body

unfoldable pub run_as : {A : Type 0} → String → M A → M A
unfolding transaction
run_as user_id fn = transaction (call (set_user user_id) >> fn)

unfoldable pub run_anon : {A : Type 0} → M A → M A
unfolding transaction
run_anon fn = transaction (call set_anon >> fn)

unfoldable pub run_as_service : {A : Type 0} → M A → M A
unfolding transaction
run_as_service fn = transaction (call set_service >> fn)

-- `res[0]?.result`
unfoldable pub first_result : List (Option Json) → Option Json
first_result rows = or_else (head? rows) none

-- `rpc`, whose envelope with `success: false` is thrown as a 400 that carries it.
unfoldable pub db_rpc : Rpc → M (Option Json)
unfolding first_result
db_rpc p = do
  rows ← call (rpc p)
  let envelope = first_result rows
  if truthy envelope && is_false (opt_prop "success" envelope)
      then throw (rejected envelope)
      else pure envelope
