-- ===== src/Sync/Progress.antt =====
-- The invariant of the queue of backend/src/services/syncQueue.js, and that no failure and no change
-- is forgotten.
use zvpn.Base.{
  ℕ, zero, suc, ◌-◌, ap, ◌∙◌, ◌<◌, ◌≡◌, refl, Bool, true, false, ◌||◌, Option, none, some, Text,
  ltb, arith,
}
use zvpn.Sync.{
  Phase, idle, syncing, recovering, Queue, initial, enqueue_sync, queue_sync_secrets, run_immediate,
  start_job, job_succeeds, job_fails, job_recovers, retry_fires, Step, requests, enqueues,
  runs_immediate, starts, succeeds, fails, recovers, retries, Reachable, at_start, after,
  sync_status,
}

abbrev pub is_busy : Phase → Bool
is_busy idle = false
is_busy syncing = true
is_busy (recovering warp) = true

abbrev pub shows_error : Option Text → Bool
shows_error none = false
shows_error (some message) = true

-- A job runs, waits, or will be queued by the retry timer.
abbrev pub is_owed : Queue → Bool
is_owed q = is_busy q.phase || ltb 0 q.queued || q.retry_armed

pub record IsSound (q : Queue) : Type 0 where
  pub shown_pending : q.pending ≡ ltb 0 q.queued
  pub shown_running : q.running ≡ is_busy q.phase
  -- after a failure, another attempt is to come
  pub owed : (shows_error q.last_error ≡ true) → is_owed q ≡ true

initial-IsSound : IsSound initial
unfolding initial
initial-IsSound = record { shown_pending = refl; shown_running = refl; owed = λ e. cc }

Step-IsSound : (q r : Queue) → Step q r → IsSound q → IsSound r
unfolding enqueue_sync queue_sync_secrets run_immediate start_job job_succeeds job_fails
    job_recovers retry_fires
Step-IsSound q _ requests s = ground arith
Step-IsSound q _ enqueues s = ground arith
Step-IsSound q _ (runs_immediate h) s = ground arith
Step-IsSound q _ (starts i h) s = ground arith
Step-IsSound q _ (succeeds now i) s = ground arith
Step-IsSound q _ (fails message warp i) s = ground arith
Step-IsSound q _ (recovers warp i) s = ground arith
Step-IsSound q _ (retries h) s = ground arith

Reachable-IsSound : (q : Queue) → Reachable q → IsSound q
Reachable-IsSound _ at_start = initial-IsSound
Reachable-IsSound _ (after q r reached step) = Step-IsSound q r step (Reachable-IsSound q reached)

-- In every state that the queue can reach, the status shows that jobs are waiting just if some are,
-- and that one runs just if one does.
pub sync_status-Reachable :
    (q : Queue)
    → Reachable q
    → ((sync_status q).pending ≡ ltb 0 q.queued) × ((sync_status q).running ≡ is_busy q.phase)
unfolding sync_status
sync_status-Reachable q reached =
    let s = Reachable-IsSound q reached in (s.shown_pending, s.shown_running)

-- In every state that the queue can reach with an error in its status, a job runs or waits, or
-- the retry timer is set.
pub last_error_is_owed :
    (q : Queue) (message : Text)
    → Reachable q
    → (sync_status q).last_error ≡ some message
    → is_owed q ≡ true
unfolding sync_status
last_error_is_owed q message reached e = (Reachable-IsSound q reached).owed (rw e refl)

-- The runs of the queue, with whether the accounts were changed, or a job failed, since the last
-- job started.
pub data Run : Bool → Queue → Type 0 where
  begins : Run false initial
  changes : (b : Bool) (q : Queue) → Run b q → Run true (queue_sync_secrets q)
  enqueues_job : (b : Bool) (q : Queue) → Run b q → Run b (enqueue_sync q)
  runs_callback : (b : Bool) (q : Queue) → Run b q → 0 < q.immediates → Run b (run_immediate q)
  starts_job :
      (b : Bool) (q : Queue) → Run b q → q.phase ≡ idle → 0 < q.queued → Run false (start_job q)
  ends_job :
      (b : Bool) (q : Queue) (now : ℕ) → Run b q → q.phase ≡ syncing → Run b (job_succeeds now q)
  breaks_job :
      (b : Bool) (q : Queue) (message : Text) (warp : Bool)
      → Run b q
      → q.phase ≡ syncing
      → Run true (job_fails message warp q)
  leaves_job :
      (b : Bool) (q : Queue) (warp : Bool)
      → Run b q
      → q.phase ≡ recovering warp
      → Run b (job_recovers q)
  fires_timer : (b : Bool) (q : Queue) → Run b q → q.retry_armed ≡ true → Run b (retry_fires q)

-- What is to come: a callback, a job in the queue, or, unless a job is in its `try` block, the retry.
abbrev pub will_sync : Queue → Bool
will_sync q =
    ltb 0 q.immediates
    || ltb 0 q.queued
    || (elim q.phase [ idle ↦ q.retry_armed | syncing ↦ false | recovering warp ↦ true ])

-- In every run of the queue, if the accounts were changed or a job failed since the last job
-- started, then a callback or a job waits, or, with no job in its `try` block, the retry timer is
-- set or about to be.
pub Run-will_sync : (q : Queue) → Run true q → will_sync q ≡ true
unfolding initial enqueue_sync queue_sync_secrets run_immediate start_job job_succeeds job_fails
    job_recovers retry_fires
Run-will_sync q run = go true q run refl
  where
    go : (b : Bool) (q : Queue) → Run b q → b ≡ true → will_sync q ≡ true
    go _ _ begins e = cc
    go _ _ (changes b q r) e = ground arith
    go _ _ (enqueues_job b q r) e = ground arith
    go _ _ (runs_callback b q r h) e = ground arith
    go _ _ (starts_job b q r i h) e = cc
    go _ _ (ends_job b q now r i) e = ground (arith, go b q r e)
    go _ _ (breaks_job b q message warp r i) e = ground arith
    go _ _ (leaves_job b q warp r i) e = ground arith
    go _ _ (fires_timer b q r h) e = ground arith

-- What the services that a job awaits come to: they return, at an instant, or one throws an error,
-- which may be of the optional WARP.
pub data JobOutcome : Type 0 where
  all_return : ℕ → JobOutcome
  one_throws : Text → Bool → JobOutcome

-- A job from its start to its end: it succeeds, or it fails and recovers.
unfoldable pub run_job : JobOutcome → Queue → Queue
unfolding start_job job_succeeds job_fails job_recovers
run_job (all_return now) q = job_succeeds now (start_job q)
run_job (one_throws message warp) q = job_recovers (job_fails message warp (start_job q))

-- A number of jobs, one after another: `outcome` says what the job comes to behind which so many
-- jobs wait.
abbrev pub run_jobs : (ℕ → JobOutcome) → ℕ → Queue → Queue
run_jobs outcome zero q = q
run_jobs outcome (suc n) q = run_jobs outcome n (run_job (outcome n) q)

-- The queue runs from one state to another by steps of its own jobs alone.
pub data JobSteps (q : Queue) : Queue → Type 0 where
  none_run : JobSteps q q
  then_start : (r : Queue) → JobSteps q r → r.phase ≡ idle → 0 < r.queued → JobSteps q (start_job r)
  then_success :
      (now : ℕ) (r : Queue) → JobSteps q r → r.phase ≡ syncing → JobSteps q (job_succeeds now r)
  then_failure :
      (message : Text) (warp : Bool) (r : Queue)
      → JobSteps q r
      → r.phase ≡ syncing
      → JobSteps q (job_fails message warp r)
  then_recovery :
      (warp : Bool) (r : Queue)
      → JobSteps q r
      → r.phase ≡ recovering warp
      → JobSteps q (job_recovers r)

run_job-JobSteps :
    (outcome : JobOutcome) (q r : Queue)
    → JobSteps q r
    → r.phase ≡ idle
    → 0 < r.queued
    → JobSteps q (run_job outcome r)
      × ((run_job outcome r).phase ≡ idle)
      × ((run_job outcome r).queued ≡ r.queued - 1)
      × ((run_job outcome r).pending ≡ ltb 0 (r.queued - 1))
      × ((run_job outcome r).running ≡ false)
unfolding run_job start_job job_succeeds job_fails job_recovers
run_job-JobSteps (all_return now) q r steps i h =
    (then_success now (start_job r) (then_start r steps i h) refl, refl, refl, refl, refl)
run_job-JobSteps (one_throws message warp) q r steps i h = (
  then_recovery warp (job_fails message warp (start_job r))
      (then_failure message warp (start_job r) (then_start r steps i h) refl) refl,
  refl,
  refl,
  refl,
  refl,
)

JobSteps-IsSound : (q r : Queue) → IsSound q → JobSteps q r → IsSound r
JobSteps-IsSound q _ s none_run = s
JobSteps-IsSound q _ s (then_start r steps i h) =
    Step-IsSound r _ (starts i h) (JobSteps-IsSound q r s steps)
JobSteps-IsSound q _ s (then_success now r steps i) =
    Step-IsSound r _ (succeeds now i) (JobSteps-IsSound q r s steps)
JobSteps-IsSound q _ s (then_failure message warp r steps i) =
    Step-IsSound r _ (fails message warp i) (JobSteps-IsSound q r s steps)
JobSteps-IsSound q _ s (then_recovery warp r steps i) =
    Step-IsSound r _ (recovers warp i) (JobSteps-IsSound q r s steps)

drain :
    (outcome : ℕ → JobOutcome) (q : Queue)
    → Reachable q
    → (n : ℕ) (r : Queue) → JobSteps q r
    → r.phase ≡ idle
    → r.queued ≡ n
    → r.pending ≡ ltb 0 r.queued
    → r.running ≡ false
    → (let r' = run_jobs outcome n r in
        JobSteps q r'
        × (r'.queued ≡ 0)
        × ((sync_status r').pending ≡ false)
        × ((sync_status r').running ≡ false)
        × (shows_error (sync_status r').last_error ≡ true → r'.retry_armed ≡ true))
unfolding sync_status
drain outcome q reached zero r steps i e p run =
    let s = JobSteps-IsSound q r (Reachable-IsSound q reached) steps in
    (steps, e, p ∙ rw e refl, run, λ shown. let owed = s.owed shown in ground arith)
drain outcome q reached (suc n) r steps i e p run =
    let (next, idle_now, left, pending, running) =
      run_job-JobSteps (outcome n) q r steps i (omega arith) in
    drain outcome q reached n (run_job (outcome n) r) next idle_now (left ∙ omega arith)
      (pending ∙ rw left refl) running

-- From every state that the queue can reach in which no job runs, the waiting jobs run to the last,
-- each a start and its success, or its failure and the recovery, whatever the outcome of each. The
-- state that they come to is reached by steps of jobs alone, its status shows neither a waiting job
-- nor a running one, and the retry timer is set if it shows an error.
pub Reachable-drains :
    (outcome : ℕ → JobOutcome) (q : Queue)
    → Reachable q
    → q.phase ≡ idle
    → (let r = run_jobs outcome q.queued q in
        JobSteps q r
        × (r.queued ≡ 0)
        × ((sync_status r).pending ≡ false)
        × ((sync_status r).running ≡ false)
        × (shows_error (sync_status r).last_error ≡ true → r.retry_armed ≡ true))
Reachable-drains outcome q reached i =
    let s = Reachable-IsSound q reached in
    drain outcome q reached q.queued q none_run i refl s.shown_pending
      (s.shown_running ∙ ap is_busy i)
