-- ===== src/Jobs/Schedule/Started.antt =====
-- What src/jobs/jobs.module.ts has scheduled once it is started.
use zudue_api.Base.{
  append_assoc, ◌≡◌, refl, ◌∙◌, String, Bool, true, false, not, ◌&&◌, Option, List, [], ◌∷◌, ◌++◌,
  arith, ◌==◌, Bool-cases, inl, inr, if◌then◌else◌,
}
use zudue_api.Effect.{M, pure, ◌>>◌}
use zudue_api.Jobs.{
  Driver, pgcron, bullmq, run, settle, stalled_calls, expire_windows, purge_deletions,
  cleanup_topups,
}
use zudue_api.Jobs.Schedule.{
  QueueCall, add_repeat, remove_repeatable, old_key, Job, get_jobs, planned, Scheduler,
  new_scheduler, every_job, has_redis, on_module_init, on_module_destroy,
}

abbrev pub all_accepted : (Job → Bool) → List Job → Bool
all_accepted accepts [] = true
all_accepted accepts (j ∷ js) = accepts j && all_accepted accepts js

-- What is asked of the queue for these jobs: they are added up to the first that it refuses, and if it refuses
-- none the old job is removed.
abbrev pub asks_due : (Job → Bool) → List Job → List QueueCall
asks_due accepts [] = remove_repeatable old_key ∷ []
asks_due accepts (j ∷ js) = add_repeat j ∷ (if accepts j then asks_due accepts js else [])

-- The work of each job, by its name.
abbrev pub works : Bool → List (String × M (Unit {0}))
works enabled =
    ("settle", settle >> pure tt)
    ∷ ("stalled-calls", stalled_calls >> pure tt)
    ∷ ("expire-windows", expire_windows >> pure tt)
    ∷ ("purge-deletions", purge_deletions enabled >> pure tt)
    ∷ ("cleanup-topups", cleanup_topups >> pure tt)
    ∷ []

abbrev pub work_of : String → List (String × M (Unit {0})) → M (Unit {0})
work_of name [] = pure tt
work_of name ((k, m) ∷ ws) = if name == k then m else work_of name ws

abbrev pub first_names {ℓ} : {A : Type ℓ} → List (String × A) → List String
first_names [] = []
first_names ((k, a) ∷ rest) = k ∷ first_names rest

abbrev pub is_bullmq : Driver → Bool
is_bullmq pgcron = false
is_bullmq bullmq = true

every_job-worker :
    (accepts : Job → Bool) (js : List Job) (s : Scheduler)
    → s.worker ≡ false
    → s.thrown ≡ false
    → ((every_job accepts js s).worker ≡ all_accepted accepts js)
      × ((every_job accepts js s).thrown ≡ not (all_accepted accepts js))
unfolding every_job
every_job-worker accepts [] s w t = (refl, t)
every_job-worker accepts (j ∷ js) s w t =
    let ih = every_job-worker accepts js (record s { asked = s.asked ++ add_repeat j ∷ [] }) w t in
    ground arith

every_job-asked :
    (accepts : Job → Bool) (js : List Job) (s : Scheduler)
    → (every_job accepts js s).asked ≡ s.asked ++ asks_due accepts js
unfolding every_job
every_job-asked accepts [] s = refl
every_job-asked accepts (j ∷ js) s =
    let ih = every_job-asked accepts js (record s { asked = s.asked ++ add_repeat j ∷ [] }) in
    let c = append_assoc s.asked (add_repeat j ∷ []) (asks_due accepts js) in
    elim (Bool-cases (accepts j)) [ inl e ↦ rw (e) (ih ∙ c) | inr e ↦ rw (e) refl ]

every_job-connection :
    (accepts : Job → Bool) (js : List Job) (s : Scheduler)
    → (every_job accepts js s).connection ≡ s.connection
unfolding every_job
every_job-connection accepts [] s = refl
every_job-connection accepts (j ∷ js) s =
    let ih = every_job-connection accepts js (record s { asked = s.asked ++ add_repeat j ∷ [] }) in
    ground arith

-- The service before its queue was asked anything.
connected : Scheduler
connected = record { connection = true; queue = true; asked = []; worker = false; thrown = false }

destroyed-worker :
    (accepts : Job → Bool)
    → (on_module_destroy (every_job accepts planned connected)).worker ≡ false
unfolding connected on_module_destroy
destroyed-worker accepts = let c = every_job-connection accepts planned connected in rw (c) refl

run-works : (enabled : Bool) (name : String) → run enabled name ≡ work_of name (works enabled)
unfolding run
run-works enabled name = refl

-- The service, started on a new instance with whatever configuration and queue: a worker runs exactly where the
-- driver is BullMQ, Redis is configured and the queue takes each job that `getJobs` reports; a queue that refuses
-- one fails the start. The queue is asked nothing but to repeat these jobs, one after the other, each with the
-- pattern that `getJobs` reports, up to the first that it refuses, and then to remove the old monthly job. The jobs
-- that a worker does are those of these names, and for any other name it does nothing. After the end of the
-- module no worker runs.
pub on_module_init_worker :
    (driver : Driver) (redis_url : Option String) (accepts : Job → Bool) (enabled : Bool)
    (name : String)
    → ((on_module_init driver redis_url accepts new_scheduler).worker
        ≡ (is_bullmq driver && has_redis redis_url && all_accepted accepts (get_jobs bullmq)))
      × ((on_module_init driver redis_url accepts new_scheduler).thrown ≡ (
          is_bullmq driver && has_redis redis_url && not (all_accepted accepts (get_jobs bullmq))))
      × ((on_module_init driver redis_url accepts new_scheduler).asked ≡ (
          if is_bullmq driver && has_redis redis_url
          then asks_due accepts (get_jobs bullmq)
          else []))
      × (run enabled name ≡ work_of name (works enabled))
      × (first_names (works enabled) ≡ first_names (get_jobs bullmq))
      × ((on_module_destroy (on_module_init driver redis_url accepts new_scheduler)).worker ≡ false)
unfolding on_module_init new_scheduler get_jobs connected on_module_destroy
on_module_init_worker pgcron redis_url accepts enabled name =
    (refl, refl, refl, run-works enabled name, refl, refl)
on_module_init_worker bullmq redis_url accepts enabled name =
    elim (Bool-cases (has_redis redis_url)) [
      | inl e ↦
          let w = every_job-worker accepts planned connected refl refl in
          let a = every_job-asked accepts planned connected in
          rw (e) (w.0, w.1, a, run-works enabled name, refl, destroyed-worker accepts)
      | inr e ↦ rw (e) (refl, refl, refl, run-works enabled name, refl, refl)
    ]
