-- ===== src/Jobs/Order.antt =====
-- `settle` (src/jobs/jobs.module.ts) expires overdue bookings before it settles any.
use zudue_api.Base.{
  ◌≡◌, refl, ap, ◌∙◌, sym, String, Bool, true, false, ◌&&◌, ◌||◌, not, Option, List, [], ◌∷◌, arith,
}
use zudue_api.Effect.{Env, History, Outcome, ok, err, Reply, answer, fail, history, call, attempt}
use zudue_api.Effect.History.{answered}
use zudue_api.Effect.Committed.{run_as_service-committed}
use zudue_api.Effect.Rules.{
  Keeps, Keeps-bind, Keeps-pure, Keeps-try_catch, Keeps-call, Keeps-attempt, Keeps-db_rpc,
  Keeps-run_as_service, IsClosed,
}
use zudue_api.Effect.Requests.{
  begin, commit, set_service, insert_settle_failure, Rpc, rpc, item_rpc, ItemRpc, Sweep, select_ids,
  process_end_of_day_expired_bookings,
}
use zudue_api.Effect.Database.{run_as_service, db_rpc, first_result}
use zudue_api.Json.{Json, truthy, is_false, opt_prop}
use zudue_api.Jobs.{Tally, zeros, count, settle_item, for_each_id, sweep, settle_due, settle}

-- The RPC was answered, and not with an envelope that refuses.
abbrev pub went_through : Reply (List (Option Json)) → Bool
went_through (answer rows) =
    not (truthy (first_result rows) && is_false (opt_prop "success" (first_result rows)))
went_through (fail e) = false

-- The newest request is the expiry RPC, it went through, and the COMMIT right after it is answered.
abbrev pub expiry_done : Env → History → Bool
expiry_done env (rpc process_end_of_day_expired_bookings ∷ h) =
    answered (env commit (rpc process_end_of_day_expired_bookings ∷ h))
    && went_through (env (rpc process_end_of_day_expired_bookings) h)
expiry_done env h = false

-- The expiry of overdue bookings went through: the database did it, and its transaction was committed.
abbrev pub expired_first : Env → History → Bool
expired_first env [] = false
expired_first env (commit ∷ h) = expiry_done env h || expired_first env h
expired_first env (q ∷ h) = expired_first env h

-- Every RPC for a single item came after the expiry of overdue bookings went through.
abbrev pub items_after_expiry : Env → History → Bool
items_after_expiry env [] = true
items_after_expiry env (rpc (item_rpc r id) ∷ h) = expired_first env h && items_after_expiry env h
items_after_expiry env (q ∷ h) = items_after_expiry env h

Expired : Env → History → Type 0
Expired env h = (expired_first env h ≡ true) × (items_after_expiry env h ≡ true)

Expired-IsClosed : IsClosed Expired
unfolding Expired
Expired-IsClosed = record {
  opened = λ env h p. p;
  committed = λ env h p. (or_right (expiry_done env h) _ p.0, p.1);
  undone = λ env h p. p;
  as_user = λ u env h p. p;
  as_service = λ env h p. p;
  as_anon = λ env h p. p;
}
  where
    or_right : (a b : Bool) → b ≡ true → (a || b) ≡ true
    or_right a b h = ground arith

item_rpc-Expired :
    (r : ItemRpc) (id : String) → Keeps Expired (run_as_service (db_rpc (item_rpc r id)))
unfolding Expired
item_rpc-Expired r id =
    Keeps-run_as_service _ Expired-IsClosed
      (Keeps-db_rpc (item_rpc r id) (λ env h p. (p.0, ground (arith, p.0, p.1))))

failure-Expired :
    (id : String) → Keeps Expired (attempt (run_as_service (call (insert_settle_failure id))))
unfolding Expired
failure-Expired id =
    Keeps-attempt _ (
      Keeps-run_as_service _ Expired-IsClosed
        (Keeps-call (insert_settle_failure id) (λ env h p. p)))

settle_item-Expired : (r : ItemRpc) (id : String) → Keeps Expired (settle_item r id)
unfolding settle_item
settle_item-Expired r id =
    Keeps-try_catch _ _ (Keeps-bind _ _ (item_rpc-Expired r id) (λ a. Keeps-pure true))
      (λ e. Keeps-bind _ _ (failure-Expired id) (λ a. Keeps-pure false))

for_each_id-Expired :
    (r : ItemRpc) (ids : List String) (t : Tally) → Keeps Expired (for_each_id r ids t)
unfolding for_each_id
for_each_id-Expired r [] t = Keeps-pure t
for_each_id-Expired r (id ∷ ids) t =
    Keeps-bind (settle_item r id) _ (settle_item-Expired r id)
      (λ fine. for_each_id-Expired r ids (count fine t))

select_ids-Expired : (s : Sweep) → Keeps Expired (run_as_service (call (select_ids s)))
unfolding Expired
select_ids-Expired s =
    Keeps-run_as_service _ Expired-IsClosed (Keeps-call (select_ids s) (λ env h p. p))

sweep-Expired : (s : Sweep) (r : ItemRpc) → Keeps Expired (sweep s r)
unfolding sweep
sweep-Expired s r = Keeps-bind _ _ (select_ids-Expired s) (λ ids. for_each_id-Expired r ids zeros)

settle_due-Expired : Keeps Expired settle_due
unfolding settle_due
settle_due-Expired = Keeps-bind _ _ (sweep-Expired _ _) λ b. Keeps-bind _ _ (sweep-Expired _ _) λ w.
    Keeps-bind _ _ (sweep-Expired _ _) λ c.
      Keeps-bind _ _ (sweep-Expired _ _) λ e. Keeps-bind _ _ (sweep-Expired _ _) λ s. Keeps-pure _

db_rpc-went_through :
    (p : Rpc) (env : Env) (h h' : History) (a : Option Json)
    → db_rpc p env h ≡ ok a h'
    → (h' ≡ rpc p ∷ h) × (went_through (env (rpc p) h) ≡ true)
unfolding db_rpc
db_rpc-went_through p env h h' a e = ground arith

-- The history of the expiry: it is in it if it went through.
Started : Env → Outcome (Option Json) → Type 0
Started env (ok a h) = Expired env h
Started env (err e h) = items_after_expiry env h ≡ true

IsAfter : Env → History → Type 0
IsAfter env h = items_after_expiry env h ≡ true

expiry-IsAfter : Keeps IsAfter (run_as_service (db_rpc process_end_of_day_expired_bookings))
unfolding IsAfter
expiry-IsAfter =
    Keeps-run_as_service _
      (record {
        opened = λ env h p. p;
        committed = λ env h p. p;
        undone = λ env h p. p;
        as_user = λ u env h p. p;
        as_service = λ env h p. p;
        as_anon = λ env h p. p;
      })
      (Keeps-db_rpc process_end_of_day_expired_bookings (λ env h p. p))

expiry_starts :
    (env : Env) (o : Outcome (Option Json)) (h : History)
    → items_after_expiry env (history o) ≡ true
    → run_as_service (db_rpc process_end_of_day_expired_bookings) env h ≡ o
    → Started env o
unfolding Expired Started
expiry_starts env (ok a h') h p e =
    let (h'', ran, same, done) =
      run_as_service-committed (db_rpc process_end_of_day_expired_bookings) env h h' a e in
    let (last, went) =
      db_rpc-went_through process_end_of_day_expired_bookings env (set_service ∷ begin ∷ h) h'' a
        ran in
    let newest = same ∙ ap (λ x. commit ∷ x) last in
    let committed = ap (λ x. answered (env commit x)) (sym last) ∙ done in
    (ap (expired_first env) newest ∙ ground (arith, committed, went), p)
expiry_starts env (err x h') h p e = p

after_expiry :
    (env : Env) (o : Outcome (Option Json))
    → Started env o
    → items_after_expiry env (history (elim o [ ok a h ↦ settle_due env h | err e h ↦ err e h ]))
      ≡ true
unfolding Expired Started
after_expiry env (ok a h) p = (settle_due-Expired.at env h p).1
after_expiry env (err e h) p = p

-- `settle` runs no RPC for a single item before the expiry of overdue bookings went through; where that
-- fails, is refused or is not committed, it runs none.
pub settle-items_after_expiry :
    (env : Env) (h : History)
    → items_after_expiry env h ≡ true
    → items_after_expiry env (history (settle env h)) ≡ true
unfolding settle IsAfter
settle-items_after_expiry env h p =
    after_expiry env _ (expiry_starts env _ h (expiry-IsAfter.at env h p) refl)
