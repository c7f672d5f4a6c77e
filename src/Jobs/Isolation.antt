-- ===== src/Jobs/Isolation.antt =====
-- Each item of a sweep (src/jobs/jobs.module.ts) stands and falls alone.
use zudue_api.Base.{
  ℕ, suc, ◌+◌, ◌≡◌, ◌∙◌, refl, ap, sym, String, Bool, true, false, List, [], ◌∷◌, arith, length,
  ◌++◌, ◌&&◌, if◌then◌else◌,
}
use zudue_api.Effect.{Env, History, Outcome, ok, err, history}
use zudue_api.Effect.Rules.{bind-ok}
use zudue_api.Effect.Requests.{rpc, item_rpc, ItemRpc, commit}
use zudue_api.Effect.Database.{run_as_service, db_rpc}
use zudue_api.Jobs.Order.{went_through}
use zudue_api.Effect.History.{answered}
use zudue_api.Jobs.{Tally, count, settle_item, for_each_id}

-- The id of the newest request, where that is the RPC of an item that went through and whose COMMIT is answered.
abbrev pub newest_item : Env → History → List String
newest_item env (rpc (item_rpc r id) ∷ h) =
    if answered (env commit (rpc (item_rpc r id) ∷ h)) && went_through (env (rpc (item_rpc r id)) h)
    then id ∷ []
    else []
newest_item env h = []

-- The ids of the items that are done: the database confirmed the transaction of the RPC, newest first.
abbrev pub items_done : Env → History → List String
items_done env [] = []
items_done env (commit ∷ h) = newest_item env h ++ items_done env h
items_done env (q ∷ h) = items_done env h

-- The ids at which the outcome is true, put before a list one after the other.
abbrev pub successes : List String → List Bool → List String → List String
successes (id ∷ ids) (true ∷ bs) done = successes ids bs (id ∷ done)
successes (id ∷ ids) (false ∷ bs) done = successes ids bs done
successes _ _ done = done

-- How many of the outcomes are this one.
abbrev pub how_many : Bool → List Bool → ℕ
how_many b [] = 0
how_many true (true ∷ bs) = suc (how_many true bs)
how_many true (false ∷ bs) = how_many true bs
how_many false (true ∷ bs) = how_many false bs
how_many false (false ∷ bs) = suc (how_many false bs)

abbrev value : Outcome Bool → Bool
value (ok b h) = b
value (err e h) = false

-- A turn never throws, and its item is done exactly where it reports success.
settle_item-done :
    (r : ItemRpc) (id : String) (env : Env) (h : History)
    → let out = settle_item r id env h in
      (out ≡ ok (value out) (history out))
      × (items_done env (history out) ≡ (if value out then id ∷ [] else []) ++ items_done env h)
unfolding settle_item run_as_service db_rpc answered
settle_item-done r id env h = ground arith

successes-one :
    (b : Bool) (id : String) (ids : List String) (bs : List Bool) (done : List String)
    → successes (id ∷ ids) (b ∷ bs) done ≡ successes ids bs ((if b then id ∷ [] else []) ++ done)
successes-one true id ids bs done = refl
successes-one false id ids bs done = refl

count-adds :
    (b : Bool) (bs : List Bool) (t : Tally)
    → ((count b t).done + how_many true bs ≡ t.done + how_many true (b ∷ bs))
      × ((count b t).failed + how_many false bs ≡ t.failed + how_many false (b ∷ bs))
count-adds true bs t = (omega arith, refl)
count-adds false bs t = (refl, omega arith)

-- The loop of `forEachId` never throws, whatever its items and the database do. Each id has one outcome: the tally
-- counts as done the ids whose outcome is true and as failed the others, and those ids, each in its turn, are
-- exactly the ones whose RPC went through and was confirmed by the answer of its own COMMIT. A failed item takes
-- no other with it.
pub for_each_id-done :
    (r : ItemRpc) (ids : List String) (t : Tally) (env : Env) (h : History)
    → (t' : Tally) × (bs : List Bool) × (h' : History) × (for_each_id r ids t env h ≡ ok t' h')
      × (length bs ≡ length ids)
      × (t'.done ≡ t.done + how_many true bs)
      × (t'.failed ≡ t.failed + how_many false bs)
      × (items_done env h' ≡ successes ids bs (items_done env h))
unfolding for_each_id
for_each_id-done r [] t env h = (t, [], h, refl, refl, omega arith, omega arith, refl)
for_each_id-done r (id ∷ ids) t env h =
    let out = settle_item r id env h in
    let (same, done) = settle_item-done r id env h in
    let (t', bs, h', runs, one_each, d, f, items) =
      for_each_id-done r ids (count (value out) t) env (history out) in
    let (more_done, more_failed) = count-adds (value out) bs t in
    (
      t',
      value out ∷ bs,
      h',
      bind-ok (settle_item r id) (λ fine. for_each_id r ids (count fine t)) env h (history out)
            (value out) same
          ∙ runs,
      ap suc one_each,
      d ∙ more_done,
      f ∙ more_failed,
      items
          ∙ ap (successes ids bs) done
          ∙ sym (successes-one (value out) id ids bs (items_done env h)),
    )
