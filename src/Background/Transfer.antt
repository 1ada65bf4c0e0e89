-- ===== src/Background/Transfer.antt =====
-- src/background/transfer.rs: the state of a background transfer, and the registry of transfers.
pub mod Told
pub mod Retained
use se_sshion.Base.{
  ℕ, ◌-◌, ◌%◌, ◌^◌, Bool, true, false, not, Option, none, some, List, [], ◌∷◌, leb, if◌then◌else◌,
  if_some,
}
use se_sshion.Base.Text.{Text, codes, text_eq}
use se_sshion.Transfer.{
  TransferTransport, TransferProgressTarget, TransferEvent, preparing_event, finalizing_event,
  transferring_event, file_stage, TransferResponse, CompactTransferResponse, to_compact,
}

pub data TransferJobPhase : Type 0 where
  queued preparing transferring finalizing completed failed : TransferJobPhase

unfoldable pub as_str : TransferJobPhase → Text
as_str queued = codes "queued"
as_str preparing = codes "preparing"
as_str transferring = codes "transferring"
as_str finalizing = codes "finalizing"
as_str completed = codes "completed"
as_str failed = codes "failed"

-- instants are milliseconds of one clock
pub record TransferJobState : Type 0 where
  pub job_id : Text
  pub started_at : ℕ
  pub completed_at : Option ℕ
  pub phase : TransferJobPhase
  pub transport : Option TransferTransport
  pub progress_target : Option TransferProgressTarget
  pub total_bytes : Option ℕ
  pub result : Option CompactTransferResponse

unfoldable pub new_job : Text → ℕ → TransferJobState
new_job job_id now = record {
  job_id = job_id;
  started_at = now;
  completed_at = none;
  phase = queued;
  transport = none;
  progress_target = none;
  total_bytes = none;
  result = none;
}

abbrev pub on_event : TransferEvent → TransferJobState → TransferJobState
on_event preparing_event s = record s { phase = preparing }
on_event (transferring_event transport) s = record s {
  phase = transferring;
  transport = some transport;
  progress_target = none;
  total_bytes = none;
}
on_event (file_stage target total_bytes) s = record s {
  phase = transferring;
  progress_target = some target;
  total_bytes = total_bytes;
}
on_event finalizing_event s = record s { phase = finalizing }

unfoldable pub apply_event : TransferEvent → TransferJobState → TransferJobState
apply_event event s = if_some s.completed_at (λ at. s) (on_event event s)

unfoldable pub finish_job : TransferResponse → ℕ → TransferJobState → TransferJobState
unfolding to_compact
finish_job response now s = record s {
  phase = if response.succeeded then completed else failed;
  completed_at = some now;
  result = some (to_compact response);
  progress_target = none;
}

unfoldable pub is_over : TransferJobState → Bool
is_over s = if_some s.completed_at (λ at. true) false

pub record TransferJobSnapshot : Type 0 where
  pub job_id : Text
  pub state : Text
  pub running : Bool
  pub phase : TransferJobPhase
  pub elapsed_ms : ℕ
  pub transport : Option TransferTransport
  pub progress_target : Option TransferProgressTarget
  pub total_bytes : Option ℕ
  pub result : Option CompactTransferResponse

unfoldable pub take_snapshot : ℕ → TransferJobState → TransferJobSnapshot
unfolding is_over as_str
take_snapshot now s = record {
  job_id = s.job_id;
  state = if is_over s then as_str s.phase else codes "running";
  running = not (is_over s);
  phase = s.phase;
  elapsed_ms = (now - s.started_at) % 2 ^ 64;
  transport = s.transport;
  progress_target = s.progress_target;
  total_bytes = s.total_bytes;
  result = s.result;
}

-- The map of the registry with each job's state behind its lock. A lock is poisoned where its
-- holder panicked.
pub record Held : Type 0 where
  pub state : TransferJobState
  pub poisoned : Bool

abbrev pub Jobs : Type 0
Jobs = List (Text × Held)

unfoldable pub get_job : Text → Jobs → Option Held
unfolding text_eq
get_job id [] = none
get_job id ((key, job) ∷ jobs) =
    let rest = get_job id jobs in if text_eq key id then some job else rest

-- `HashMap::insert`
unfoldable pub put_job : Text → Held → Jobs → Jobs
unfolding text_eq
put_job id job [] = (id, job) ∷ []
put_job id job ((key, old) ∷ jobs) =
    let rest = put_job id job jobs in
    if text_eq key id then (key, job) ∷ jobs else (key, old) ∷ rest

abbrev pub is_retained : ℕ → ℕ → Held → Bool
is_retained retention now job =
    if job.poisoned
    then true
    else if_some job.state.completed_at (λ at. leb (now - at) retention) true

unfoldable pub prune_jobs : ℕ → ℕ → Jobs → Jobs
prune_jobs retention now [] = []
prune_jobs retention now ((key, job) ∷ jobs) =
    let rest = prune_jobs retention now jobs in
    if is_retained retention now job then (key, job) ∷ rest else rest

unfoldable pub register : ℕ → Text → ℕ → Jobs → Jobs
unfolding prune_jobs put_job new_job
register retention id now jobs =
    put_job id (record { state = new_job id now; poisoned = false }) (prune_jobs retention now jobs)

-- the snapshot and the pruned registry; no snapshot is taken behind a poisoned lock
unfoldable pub snapshot_job : ℕ → Text → ℕ → Jobs → Option TransferJobSnapshot × Jobs
unfolding prune_jobs get_job take_snapshot
snapshot_job retention id now jobs =
    let kept = prune_jobs retention now jobs in
    (
      if_some (get_job id kept)
          (λ job. if job.poisoned then none else some (take_snapshot now job.state)) none,
      kept,
    )

unfoldable pub contains_job : ℕ → Text → ℕ → Jobs → Bool × Jobs
unfolding prune_jobs get_job
contains_job retention id now jobs =
    let kept = prune_jobs retention now jobs in
    (if_some (get_job id kept) (λ job. true) false, kept)
