-- ===== src/Background.antt =====
-- src/background/job.rs: the state of a background job. A time is the count of nanoseconds from
-- the earliest one that the clock can represent; the clock's readings are arguments. A path is
-- its text.
pub mod Lifecycle
pub mod Elapsed
pub mod Persisted
pub mod Registry
pub mod Transfer
pub mod Stream
pub mod Marker
use se_sshion.Base.{
  ℕ, ◌-◌, ◌*◌, ◌/◌, ◌%◌, Bool, true, false, Option, none, some, List, [], ◌∷◌, ◌++◌, leb, ltb, ◌==◌,
  if◌then◌else◌,
}
use se_sshion.Base.Integers.{ℤ, pos, negsuc}
use se_sshion.Base.Decimal.{decimal, decimal_02}
use se_sshion.Base.Text.{Text}

pub data JobStatus : Type 0 where
  running completed failed state_lost : JobStatus

pub record JobState : Type 0 where
  pub job_id : Text
  pub pid : ℕ
  pub log_path : Text
  pub exit_code : Option ℤ
  pub status : JobStatus
  pub state_reason : Option Text
  pub start_time : ℕ
  pub completed_at : Option ℕ
  pub command : Text
  pub connection_id : Text

pub record NewRunningJob : Type 0 where
  pub job_id : Text
  pub pid : ℕ
  pub log_path : Text
  pub command : Text
  pub connection_id : Text

unfoldable pub new_running : ℕ → NewRunningJob → JobState
new_running now opts = record {
  job_id = opts.job_id;
  pid = opts.pid;
  log_path = opts.log_path;
  exit_code = none;
  status = running;
  state_reason = none;
  start_time = now;
  completed_at = none;
  command = opts.command;
  connection_id = opts.connection_id;
}

abbrev pub ends : JobStatus → Bool
ends running = false
ends completed = true
ends failed = true
ends state_lost = true

unfoldable pub is_terminal : JobState → Bool
is_terminal job = ends job.status

-- `get_or_insert_with` and `unwrap_or_else`
abbrev pub or_value {ℓ} : {A : Type ℓ} → Option A → A → A
or_value none a = a
or_value (some b) a = b

abbrev pub is_zero : ℤ → Bool
is_zero (pos n) = n == 0
is_zero (negsuc n) = false

unfoldable pub mark_exit : ℕ → ℤ → JobState → JobState
mark_exit now exit_code job = record job {
  exit_code = some exit_code;
  completed_at = some (or_value job.completed_at now);
  status = if is_zero exit_code then completed else failed;
  state_reason = none;
}

unfoldable pub mark_state_lost : ℕ → Text → JobState → JobState
mark_state_lost now reason job = record job {
  exit_code = none;
  completed_at = some (or_value job.completed_at now);
  status = state_lost;
  state_reason = some reason;
}

-- `SystemTime::duration_since`, an error where `earlier` is the later one
unfoldable pub duration_since : ℕ → ℕ → Option ℕ
duration_since time earlier = if leb earlier time then some (time - earlier) else none

abbrev pub nanos_per_sec : ℕ
nanos_per_sec = 1000000000

-- on the seconds
unfoldable pub format_secs : ℕ → Text
unfolding decimal decimal_02
format_secs total_secs =
    let days = total_secs / 86400 in
    let hours = total_secs % 86400 / 3600 in
    let minutes = total_secs % 3600 / 60 in
    let seconds = total_secs % 60 in
    let clock = decimal_02 minutes ++ (b':' ∷ decimal_02 seconds) in
    if ltb 0 days
    then decimal days ++ (b'-' ∷ (decimal_02 hours ++ (b':' ∷ clock)))
    else if ltb 0 hours
    then decimal_02 hours ++ (b':' ∷ clock)
    else clock

unfoldable pub format_ps_elapsed : ℕ → Text
unfolding format_secs
format_ps_elapsed elapsed = format_secs (elapsed / nanos_per_sec)

unfoldable pub elapsed_time : ℕ → JobState → Text
unfolding duration_since format_ps_elapsed
elapsed_time now job =
    format_ps_elapsed (or_value (duration_since (or_value job.completed_at now) job.start_time) 0)
