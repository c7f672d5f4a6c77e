-- ===== src/Tests/Jobs.antt =====
-- The theorems on src/jobs/jobs.module.ts and src/db/database.service.ts at concrete inputs.
use zudue_api.Base.{
  ℕ, List, length, ◌+◌, ◌≡◌, refl, true, false, not, Bool, ◌&&◌, ◌==◌, some, [], ◌∷◌, if◌then◌else◌,
}
use zudue_api.Effect.{history, ok, M, throw, bad_request, History}
use zudue_api.Effect.Requests.{rpc_settle_booking}
use zudue_api.Effect.History.{surviving}
use zudue_api.Jobs.{Tally, zeros, for_each_id, expire_windows, purge_deletions, settle, bullmq, run}
use zudue_api.Jobs.Isolation.{items_done, how_many, successes, for_each_id-done}
use zudue_api.Jobs.Refunds.{RefundsMatch, expire_windows-match}
use zudue_api.Jobs.Deletions.{purges_follow, logins_asked, purge_deletions-follow}
use zudue_api.Jobs.Order.{items_after_expiry, settle-items_after_expiry}
use zudue_api.Jobs.Schedule.{
  Job, get_jobs, has_redis, new_scheduler, on_module_init, on_module_destroy,
}
use zudue_api.Jobs.Schedule.Started.{
  all_accepted, asks_due, work_of, works, first_names, on_module_init_worker,
}
use zudue_api.Tests.Samples.{sample}

for_each_id-done_example :
    (t' : Tally) × (bs : List Bool) × (h' : History) × (for_each_id rpc_settle_booking
        ("a" ∷ "b" ∷ [])
        zeros
        sample
        []
      ≡ ok t' h')
    × (length bs ≡ 2)
    × (t'.done ≡ 0 + how_many true bs)
    × (t'.failed ≡ 0 + how_many false bs)
    × (items_done sample h' ≡ successes ("a" ∷ "b" ∷ []) bs [])
for_each_id-done_example = for_each_id-done rpc_settle_booking ("a" ∷ "b" ∷ []) zeros sample []

expire_windows-match_example : RefundsMatch (history (expire_windows sample []))
expire_windows-match_example = expire_windows-match sample [] (unfold surviving in refl)

purge_deletions-follow_example :
    (purges_follow sample (history (purge_deletions true sample [])) ≡ true)
    × (logins_asked (history (purge_deletions false sample [])) ≡ 0)
purge_deletions-follow_example = purge_deletions-follow sample [] refl

settle-items_after_expiry_example : items_after_expiry sample (history (settle sample [])) ≡ true
settle-items_after_expiry_example = settle-items_after_expiry sample [] refl

abbrev refusing : M ℕ
refusing = throw (bad_request "NO")

-- A queue that takes everything but the purge.
abbrev no_purge : Job → Bool
no_purge j = not (j.0 == "purge-deletions")

on_module_init_worker_example :
    ((on_module_init bullmq (some "redis://r") no_purge new_scheduler).worker
      ≡ (true && has_redis (some "redis://r") && all_accepted no_purge (get_jobs bullmq)))
    × ((on_module_init bullmq (some "redis://r") no_purge new_scheduler).thrown
        ≡ (true && has_redis (some "redis://r") && not (all_accepted no_purge (get_jobs bullmq))))
    × ((on_module_init bullmq (some "redis://r") no_purge new_scheduler).asked ≡ (
        if true && has_redis (some "redis://r") then asks_due no_purge (get_jobs bullmq) else []))
    × (run true "monthly-payouts" ≡ work_of "monthly-payouts" (works true))
    × (first_names (works true) ≡ first_names (get_jobs bullmq))
    × ((on_module_destroy (on_module_init bullmq (some "redis://r") no_purge new_scheduler)).worker
        ≡ false)
on_module_init_worker_example =
    on_module_init_worker bullmq (some "redis://r") no_purge true "monthly-payouts"
