-- ===== src/Jobs.antt =====
-- `JobsService` of src/jobs/jobs.module.ts: the sweeps of the money lifecycle, and `deleteUser` of
-- src/identity/supabase-admin.provider.ts.
pub mod Isolation
pub mod Refunds
pub mod Deletions
pub mod Order
pub mod Schedule
use zudue_api.Base.{
  ℕ, suc, ◌+◌, String, Bool, true, false, not, ◌&&◌, ◌||◌, Option, none, some, List, [], ◌∷◌, leb,
  nat_eq, ◌==◌, if◌then◌else◌,
}
use zudue_api.Json.{Json, num, opt_prop}
use zudue_api.Effect.{
  Error, M, pure, throw, ◌>>=◌, ◌>>◌, call, attempt, try_catch, ok, err, answer, fail,
}
use zudue_api.Effect.Requests.{
  Sweep, due_bookings, due_windows, due_confirms, overdue_shoutouts, due_shoutouts, past_calls,
  stale_calls, ItemRpc, rpc_settle_booking, rpc_settle_window, rpc_auto_confirm_shoutout,
  rpc_expire_shoutout, rpc_settle_shoutout, rpc_complete_call, rpc_mark_call_missed, item_rpc,
  process_end_of_day_expired_bookings, cleanup_stalled_calls, rpc_cleanup_abandoned_topups,
  rpc_notify_expired, rpc_purge_profile, Window, Deletion, select_ids, insert_settle_failure,
  select_overdue_windows, select_due_deletions, refund_window, update_window_expired,
  update_deletion_completed, delete_user,
}
use zudue_api.Effect.Database.{run_as_service, db_rpc}

pub data Driver : Type 0 where
  pgcron bullmq : Driver

-- The getter `driver`, from the variable JOBS_DRIVER.
unfoldable pub driver_of : Option String → Driver
driver_of none = pgcron
driver_of (some s) = if s == "bullmq" then bullmq else pgcron

-- `isJobRunning`; `status` is that of the Redis connection, if there is one.
unfoldable pub is_job_running : Driver → Option String → Bool
is_job_running pgcron status = true
is_job_running bullmq none = false
is_job_running bullmq (some status) = status == "ready"

pub record Tally : Type 0 where
  pub done : ℕ
  pub failed : ℕ

abbrev pub count_done : Tally → Tally
count_done t = record t { done = t.done + 1 }

abbrev pub count_failed : Tally → Tally
count_failed t = record t { failed = t.failed + 1 }

-- One turn of `forEachId`: whether the RPC went through. A failure is written to the audit log, in a
-- transaction of its own whose failure is only logged; of its row only the id is kept here, not the label and
-- the message of the error.
unfoldable pub settle_item : ItemRpc → String → M Bool
settle_item rpc id =
    try_catch (do run_as_service (db_rpc (item_rpc rpc id)); pure true)
      (λ e. (do attempt (run_as_service (call (insert_settle_failure id))); pure false))

abbrev pub count : Bool → Tally → Tally
count true t = count_done t
count false t = count_failed t

unfoldable pub for_each_id : ItemRpc → List String → Tally → M Tally
for_each_id rpc [] t = pure t
for_each_id rpc (id ∷ ids) t = do fine ← settle_item rpc id; for_each_id rpc ids (count fine t)

abbrev pub zeros : Tally
zeros = record { done = 0; failed = 0 }

-- `ids` and then `forEachId` over them.
unfoldable pub sweep : Sweep → ItemRpc → M Tally
sweep which rpc = do ids ← run_as_service (call (select_ids which)); for_each_id rpc ids zeros

pub record Settled : Type 0 where
  pub bookings : Tally
  pub windows : Tally
  pub expired : Tally
  pub shoutouts : Tally

-- `settle` after the expiry of overdue bookings; the counts are only logged.
unfoldable pub settle_due : M Settled
settle_due = do
  b ← sweep due_bookings rpc_settle_booking
  w ← sweep due_windows rpc_settle_window
  sweep due_confirms rpc_auto_confirm_shoutout
  e ← sweep overdue_shoutouts rpc_expire_shoutout
  s ← sweep due_shoutouts rpc_settle_shoutout
  pure (record { bookings = b; windows = w; expired = e; shoutouts = s })

unfoldable pub settle : M Settled
settle = do run_as_service (db_rpc process_end_of_day_expired_bookings); settle_due

unfoldable pub number_of : Option Json → ℕ
number_of (some (num n)) = n
number_of _ = 0

pub record Calls : Type 0 where
  pub completed : Tally
  pub dropped : Tally
  pub missed : Tally

unfoldable pub stalled_calls : M Calls
stalled_calls = do
  c ← sweep past_calls rpc_complete_call
  d ← sweep stale_calls rpc_mark_call_missed
  swept ← run_as_service (db_rpc cleanup_stalled_calls)
  pure (record {
    completed = c;
    dropped = d;
    missed = record {
      done = number_of (opt_prop "missed_fan_no_join" swept);
      failed = number_of (opt_prop "failed" swept);
    };
  })

-- One turn of `expireWindows`: the refund and the status in one transaction. A failure of the notification
-- is caught; that PostgreSQL then undoes the whole transaction is the matter of Effect/Aborted, and not of this one.
unfoldable pub expire_window : Window → M Bool
expire_window win =
    try_catch
      (do
        run_as_service (do
          call (refund_window win)
          call (update_window_expired win)
          attempt (db_rpc (rpc_notify_expired win)))
        pure true)
      (λ e. pure false)

unfoldable pub expire_each : List Window → Tally → M Tally
expire_each [] t = pure t
expire_each (win ∷ wins) t = do fine ← expire_window win; expire_each wins (count fine t)

unfoldable pub expire_windows : M Tally
expire_windows = do rows ← run_as_service (call select_overdue_windows); expire_each rows zeros

-- `res.ok || res.status === 404`
unfoldable pub gone : ℕ → Bool
gone status = (leb 200 status && leb status 299) || nat_eq status 404

-- `deleteUser` with the provider enabled: false, never an error, where the call fails.
unfoldable pub delete_credential : String → M Bool
delete_credential user_id =
    try_catch (do status ← call (delete_user user_id); pure (gone status)) (λ e. pure false)

abbrev complete_deletion : Deletion → M Bool
complete_deletion d = do
  run_as_service (do db_rpc (rpc_purge_profile d.profile_id); call (update_deletion_completed d.id))
  pure true

-- One turn of `purgeDeletions`; `enabled` is that of the admin provider. The count of credentials that
-- were kept is only logged, and left out.
unfoldable pub purge_one : Bool → Deletion → M Bool
unfolding delete_credential
purge_one enabled d =
    try_catch
      (do
        deleted ← (if enabled then delete_credential d.profile_id else pure true)
        (if deleted then complete_deletion d else pure false))
      (λ e. pure false)

unfoldable pub purge_each : Bool → List Deletion → Tally → M Tally
purge_each enabled [] t = pure t
purge_each enabled (d ∷ ds) t = do fine ← purge_one enabled d; purge_each enabled ds (count fine t)

unfoldable pub purge_deletions : Bool → M Tally
purge_deletions enabled = do
  due ← run_as_service (call select_due_deletions)
  purge_each enabled due zeros

unfoldable pub cleanup_topups : M ℕ
cleanup_topups = do
  res ← run_as_service (db_rpc rpc_cleanup_abandoned_topups)
  pure (number_of (opt_prop "marked_failed" res))

-- `run`: the job of a name, none for another name.
unfoldable pub run : Bool → String → M (Unit {0})
run enabled name =
    if name == "settle"
    then settle >> pure tt
    else if name == "stalled-calls"
    then stalled_calls >> pure tt
    else if name == "expire-windows"
    then expire_windows >> pure tt
    else if name == "purge-deletions"
    then purge_deletions enabled >> pure tt
    else if name == "cleanup-topups"
    then cleanup_topups >> pure tt
    else pure tt
