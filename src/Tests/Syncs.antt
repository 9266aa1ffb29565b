-- ===== src/Tests/Syncs.antt =====
-- The queue of synchronisations (backend/src/services/syncQueue.js) on a short run.
use zvpn.Base.{◌≡◌, refl, true, false, codes, arith, ◌==◌, if◌then◌else◌, ℕ}
use zvpn.Sync.{
  Queue, idle, initial, enqueue_sync, queue_sync_secrets, run_immediate, start_job, job_fails,
  requests, runs_immediate, starts, fails, Reachable, at_start, after, sync_status,
}
use zvpn.Sync.Progress.{
  is_owed, last_error_is_owed, Run, begins, changes, runs_callback, will_sync, Run-will_sync,
  Reachable-drains, JobOutcome, all_return, one_throws, run_jobs, JobSteps, shows_error,
}

-- A request, its callback, and the start of its job, which fails.
abbrev asked : Queue
asked = run_immediate (queue_sync_secrets initial)

abbrev broken : Queue
broken = job_fails (codes "down") false (start_job asked)

asked-Reachable : Reachable asked
unfolding initial queue_sync_secrets run_immediate
asked-Reachable =
    after (queue_sync_secrets initial) asked
      (after initial (queue_sync_secrets initial) at_start requests) (runs_immediate (ground arith))

broken-Reachable : Reachable broken
unfolding initial queue_sync_secrets run_immediate start_job enqueue_sync
broken-Reachable =
    after (start_job asked) broken
      (after asked (start_job asked) asked-Reachable (starts refl (ground arith)))
      (fails (codes "down") false refl)

last_error_example : is_owed broken ≡ true
unfolding sync_status job_fails
last_error_example = last_error_is_owed broken (codes "down") broken-Reachable refl

changed-Run : Run true asked
unfolding initial queue_sync_secrets run_immediate
changed-Run =
    runs_callback true (queue_sync_secrets initial) (changes false initial begins) (ground arith)

will_sync_example : will_sync asked ≡ true
will_sync_example = Run-will_sync asked changed-Run

asked_idle : asked.phase ≡ idle
unfolding initial queue_sync_secrets run_immediate enqueue_sync
asked_idle = refl

-- The last job to run fails.
abbrev last_fails : ℕ → JobOutcome
last_fails n = if n == 0 then one_throws (codes "down") true else all_return 70

abbrev drained : Queue
drained = run_jobs last_fails asked.queued asked

drains_example :
    JobSteps asked drained
    × (drained.queued ≡ 0)
    × ((sync_status drained).pending ≡ false)
    × ((sync_status drained).running ≡ false)
    × (shows_error (sync_status drained).last_error ≡ true → drained.retry_armed ≡ true)
drains_example = Reachable-drains last_fails asked asked-Reachable asked_idle
