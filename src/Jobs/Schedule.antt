-- ===== src/Jobs/Schedule.antt =====
-- The scheduler of src/jobs/jobs.module.ts: what is scheduled where, how it starts and ends, and what it reports.
-- The queue of BullMQ answers each `add` as it likes, and so does the database its one query.
pub mod Started
use zudue_api.Base.{
  ℕ, String, Bool, true, false, not, ◌&&◌, Option, none, some, List, [], ◌∷◌, ◌++◌, ◌==◌,
  if◌then◌else◌,
}
use zudue_api.Json.{Json}
use zudue_api.Effect.{Reply, answer, fail}
use zudue_api.Jobs.{Driver, pgcron, bullmq, is_job_running}

-- A job by its name, and its pattern.
abbrev pub Job : Type 0
Job = String × String

-- `getJobs`
unfoldable pub get_jobs : Driver → List Job
get_jobs pgcron =
    ("zudue-sweep-calls", "* * * * *")
    ∷ ("zudue-settle", "*/5 * * * *")
    ∷ ("zudue-expire-windows", "*/5 * * * *")
    ∷ ("zudue-cleanup-topups", "30 2 * * *")
    ∷ ("zudue-purge-deletions", "0 3 * * *")
    ∷ []
get_jobs bullmq =
    ("settle", "*/15 * * * *")
    ∷ ("stalled-calls", "* * * * *")
    ∷ ("expire-windows", "*/15 * * * *")
    ∷ ("purge-deletions", "0 3 * * *")
    ∷ ("cleanup-topups", "30 2 * * *")
    ∷ []

-- What `onModuleInit` hands to `every`, one after the other.
abbrev pub planned : List Job
planned =
    ("settle", "*/15 * * * *")
    ∷ ("stalled-calls", "* * * * *")
    ∷ ("expire-windows", "*/15 * * * *")
    ∷ ("purge-deletions", "0 3 * * *")
    ∷ ("cleanup-topups", "30 2 * * *")
    ∷ []

-- What is asked of the queue: `add` of a repeatable job, and `removeRepeatableByKey`. What Redis makes of it, and
-- which repeatable jobs it has from earlier, is the queue's.
pub data QueueCall : Type 0 where
  add_repeat : Job → QueueCall
  remove_repeatable : String → QueueCall

-- The key of the job that was scheduled formerly.
abbrev pub old_key : String
old_key = "lifecycle:monthly-payouts::0 6 * * *"

-- The fields of the service, with the calls of its queue, in their order; `thrown` says that the hook has failed.
pub record Scheduler : Type 0 where
  pub connection : Bool
  pub queue : Bool
  pub asked : List QueueCall
  pub worker : Bool
  pub thrown : Bool

unfoldable pub new_scheduler : Scheduler
new_scheduler = record {
  connection = false;
  queue = false;
  asked = [];
  worker = false;
  thrown = false;
}

-- After the last `every` the old job is removed, whatever comes of it, and the worker is started.
unfoldable pub every_job : (Job → Bool) → List Job → Scheduler → Scheduler
every_job accepts [] s = record s {
  asked = s.asked ++ remove_repeatable old_key ∷ [];
  worker = true;
}
every_job accepts (j ∷ js) s =
    let s' = record s { asked = s.asked ++ add_repeat j ∷ [] } in
    let rest = every_job accepts js s' in if accepts j then rest else record s' { thrown = true }

-- `this.config.get('REDIS_URL')` is a text that is not empty.
unfoldable pub has_redis : Option String → Bool
has_redis none = false
has_redis (some url) = not (url == "")

unfoldable pub on_module_init : Driver → Option String → (Job → Bool) → Scheduler → Scheduler
unfolding every_job has_redis
on_module_init pgcron redis_url accepts s = s
on_module_init bullmq redis_url accepts s =
    if has_redis redis_url
    then every_job accepts planned (record s { connection = true; queue = true })
    else s

unfoldable pub on_module_destroy : Scheduler → Scheduler
on_module_destroy s =
    if s.connection then record s { connection = false; queue = false; worker = false } else s

-- What `lifecycleHealth` answers.
pub data Health : Type 0 where
  worker_health : Bool → List Job → Health
  cron_health : Json → Health
  cron_error : String → Health

-- `status` is that of the connection, `jobs` what the query of cron.job is answered.
unfoldable pub lifecycle_health : Driver → Option String → Reply Json → Health
unfolding get_jobs is_job_running
lifecycle_health bullmq status jobs = worker_health (is_job_running bullmq status) (get_jobs bullmq)
lifecycle_health pgcron status (answer rows) = cron_health rows
lifecycle_health pgcron status (fail message) = cron_error message
