-- ===== src/Sync.antt =====
-- backend/src/services/syncQueue.js: the queue of synchronisations as a state machine. The module's
-- variables are the state; `tail` is the chain of the `queued` jobs behind the one that runs, and
-- `immediates` counts the callbacks that `setImmediate` holds. What the awaited services do to a job
-- is the choice of the step.
pub mod Progress
use zvpn.Base.{
  ℕ, ◌+◌, ◌-◌, ◌≡◌, ◌<◌, Bool, true, false, Option, none, some, List, [], ◌∷◌, Text, ltb,
  if◌then◌else◌,
}

pub data Phase : Type 0 where
  idle : Phase
  -- in the `try` block
  syncing : Phase
  -- in the `catch` block, with the error's `optionalWarp`
  recovering : Bool → Phase

pub record Queue : Type 0 where
  pub pending : Bool
  pub running : Bool
  pub last_error : Option Text
  pub last_success : Option ℕ
  pub queued : ℕ
  -- `retryTimer` is set
  pub retry_armed : Bool
  pub phase : Phase
  pub immediates : ℕ

-- The module's initial values.
unfoldable pub initial : Queue
initial = record {
  pending = false;
  running = false;
  last_error = none;
  last_success = none;
  queued = 0;
  retry_armed = false;
  phase = idle;
  immediates = 0;
}

unfoldable pub enqueue_sync : Queue → Queue
enqueue_sync q = record q { queued = q.queued + 1; pending = ltb 0 (q.queued + 1) }

unfoldable pub queue_sync_secrets : Queue → Queue
queue_sync_secrets q = record q { immediates = q.immediates + 1 }

unfoldable pub run_immediate : Queue → Queue
unfolding enqueue_sync
run_immediate q = enqueue_sync (record q { immediates = q.immediates - 1 })

-- The head of the job, up to `await doSync()`.
unfoldable pub start_job : Queue → Queue
start_job q = record q {
  queued = q.queued - 1;
  pending = ltb 0 (q.queued - 1);
  running = true;
  phase = syncing;
}

abbrev pub finish_job : Queue → Queue
finish_job q = record q { running = false; pending = ltb 0 q.queued; phase = idle }

unfoldable pub job_succeeds : ℕ → Queue → Queue
job_succeeds now q =
    finish_job (record q { last_error = none; last_success = some now; retry_armed = false })

unfoldable pub job_fails : Text → Bool → Queue → Queue
job_fails message optional_warp q = record q {
  last_error = some message;
  phase = recovering optional_warp;
}

-- The rest of the `catch` block, once Xray was stopped or not.
unfoldable pub job_recovers : Queue → Queue
job_recovers q = finish_job (record q { retry_armed = true })

unfoldable pub retry_fires : Queue → Queue
unfolding enqueue_sync
retry_fires q = enqueue_sync (record q { retry_armed = false })

-- `stopXray` is called by a job that failed, if the error is not that of the optional WARP and Xray
-- is there.
unfoldable pub stops_xray : Bool → Phase → Bool
stops_xray available (recovering optional_warp) = if optional_warp then false else available
stops_xray available idle = false
stops_xray available syncing = false

-- What can happen, each step where the code lets it.
pub data Step (q : Queue) : Queue → Type 0 where
  requests : Step q (queue_sync_secrets q)
  enqueues : Step q (enqueue_sync q)
  runs_immediate : 0 < q.immediates → Step q (run_immediate q)
  starts : q.phase ≡ idle → 0 < q.queued → Step q (start_job q)
  succeeds : (now : ℕ) → q.phase ≡ syncing → Step q (job_succeeds now q)
  fails : (message : Text) (warp : Bool) → q.phase ≡ syncing → Step q (job_fails message warp q)
  recovers : (warp : Bool) → q.phase ≡ recovering warp → Step q (job_recovers q)
  retries : q.retry_armed ≡ true → Step q (retry_fires q)

pub data Reachable : Queue → Type 0 where
  at_start : Reachable initial
  after : (q r : Queue) → Reachable q → Step q r → Reachable r

pub record SyncStatus : Type 0 where
  pub running : Bool
  pub pending : Bool
  pub last_error : Option Text
  pub last_success : Option ℕ

unfoldable pub sync_status : Queue → SyncStatus
sync_status q = record {
  running = q.running;
  pending = q.pending;
  last_error = q.last_error;
  last_success = q.last_success;
}
