-- ===== src/Background/Persisted.antt =====
-- src/background/job.rs: the form in which a job's state is kept in a file.
use se_sshion.Base.{
  ℕ, ◌+◌, ◌-◌, ◌*◌, ◌/◌, ◌^◌, ◌≤◌, Option, none, some, ◌≡◌, refl, sym, ap, ◌∙◌, arith, ◌==◌, not,
  Result, ok, reject_if, ◌>>◌, leb, inl, inr, Bool-cases, subst,
}
use se_sshion.Base.Integers.{ℤ}
use se_sshion.Base.Text.{Text}
use se_sshion.Background.{JobStatus, JobState, duration_since, or_value}
use Prim.Native.Nat.{min}

pub record PersistedJobState : Type 0 where
  pub version : ℕ
  pub job_id : Text
  pub pid : ℕ
  pub log_path : Text
  pub exit_code : Option ℤ
  pub status : JobStatus
  pub state_reason : Option Text
  pub start_time_unix_ms : ℕ
  pub completed_at_unix_ms : Option ℕ
  pub command : Text
  pub connection_id : Text

abbrev pub nanos_per_ms : ℕ
nanos_per_ms = 1000000

-- `u64::MAX`
abbrev u64_max : ℕ
u64_max = 2 ^ 64 - 1

abbrev pub map_time : (ℕ → ℕ) → Option ℕ → Option ℕ
map_time f none = none
map_time f (some t) = some (f t)

pub data RestoreFault : Type 0 where
  unsupported_version : RestoreFault

-- Where the Unix epoch stands on the clock.
module _ (unix_epoch : ℕ) where
  unfoldable pub system_time_to_unix_ms : ℕ → ℕ
  unfolding duration_since
  system_time_to_unix_ms value =
      min (or_value (duration_since value unix_epoch) 0 / nanos_per_ms) u64_max

  unfoldable pub unix_ms_to_system_time : ℕ → ℕ
  unix_ms_to_system_time value = unix_epoch + value * nanos_per_ms

  unfoldable pub to_persisted : JobState → PersistedJobState
  unfolding system_time_to_unix_ms
  to_persisted job = record {
    version = 1;
    job_id = job.job_id;
    pid = job.pid;
    log_path = job.log_path;
    exit_code = job.exit_code;
    status = job.status;
    state_reason = job.state_reason;
    start_time_unix_ms = system_time_to_unix_ms job.start_time;
    completed_at_unix_ms = map_time system_time_to_unix_ms job.completed_at;
    command = job.command;
    connection_id = job.connection_id;
  }

  -- the job of a persisted state, whatever its version
  abbrev pub restored : PersistedJobState → JobState
  unfolding unix_ms_to_system_time
  restored persisted = record {
    job_id = persisted.job_id;
    pid = persisted.pid;
    log_path = persisted.log_path;
    exit_code = persisted.exit_code;
    status = persisted.status;
    state_reason = persisted.state_reason;
    start_time = unix_ms_to_system_time persisted.start_time_unix_ms;
    completed_at = map_time unix_ms_to_system_time persisted.completed_at_unix_ms;
    command = persisted.command;
    connection_id = persisted.connection_id;
  }

  unfoldable pub from_persisted : PersistedJobState → Result RestoreFault JobState
  unfolding unix_ms_to_system_time
  from_persisted persisted = do
    reject_if (not (persisted.version == 1)) unsupported_version
    ok (restored persisted)

  -- the time with its part below a millisecond left out, and none before the epoch
  abbrev pub to_ms : ℕ → ℕ
  to_ms t = unix_epoch + (t - unix_epoch) / nanos_per_ms * nanos_per_ms

  -- The time can be written: at or after the epoch, with its milliseconds in 64 bits.
  abbrev pub IsWritable : ℕ → Type 0
  IsWritable t = (unix_epoch ≤ t) × ((t - unix_epoch) / nanos_per_ms ≤ u64_max)

  abbrev pub IsWritableEnd : Option ℕ → Type 0
  IsWritableEnd none = Unit
  IsWritableEnd (some t) = IsWritable t

  unix_ms-min : (t : ℕ) → system_time_to_unix_ms t ≡ min ((t - unix_epoch) / nanos_per_ms) u64_max
  unfolding system_time_to_unix_ms
  unix_ms-min t = elim (Bool-cases (leb unix_epoch t)) [
    | inl e ↦ rw e refl
    | inr e ↦ let before : t - unix_epoch ≡ 0 = ground arith in rw (e, before) refl
  ]

  min-le : (a b : ℕ) → a ≤ b → min a b ≡ a
  min-le a b h = omega arith

  time-restored :
      (t : ℕ) → IsWritable t → unix_ms_to_system_time (system_time_to_unix_ms t) ≡ to_ms t
  time-restored t (after, fits) =
      ap unix_ms_to_system_time (unix_ms-min t ∙ min-le _ u64_max fits)
      ∙ (unfold unix_ms_to_system_time in refl)

  end-restored :
      (end : Option ℕ)
      → IsWritableEnd end
      → map_time unix_ms_to_system_time (map_time system_time_to_unix_ms end) ≡ map_time to_ms end
  end-restored none h = refl
  end-restored (some t) h = ap some (time-restored t h)

  ms-cancel :
      (n : ℕ)
      → n ≤ u64_max
      → min ((unix_epoch + n * nanos_per_ms - unix_epoch) / nanos_per_ms) u64_max ≡ n
  ms-cancel n h = omega arith

  -- the count of milliseconds, read back and written again
  ms-persisted : (n : ℕ) → n ≤ u64_max → system_time_to_unix_ms (unix_ms_to_system_time n) ≡ n
  unfolding unix_ms_to_system_time
  ms-persisted n h = unix_ms-min (unix_epoch + n * nanos_per_ms) ∙ ms-cancel n h

  min-bounded : (a b : ℕ) → min a b ≤ b
  min-bounded a b = omega arith

  time-persisted :
      (t : ℕ)
      → system_time_to_unix_ms (unix_ms_to_system_time (system_time_to_unix_ms t))
        ≡ system_time_to_unix_ms t
  time-persisted t = ms-persisted (system_time_to_unix_ms t) (
      subst (λ k. k ≤ u64_max) (sym (unix_ms-min t))
        (min-bounded ((t - unix_epoch) / nanos_per_ms) u64_max))

  end-persisted :
      (end : Option ℕ)
      → map_time system_time_to_unix_ms
          (map_time unix_ms_to_system_time (map_time system_time_to_unix_ms end))
        ≡ map_time system_time_to_unix_ms end
  end-persisted none = refl
  end-persisted (some t) = ap some (time-persisted t)

  -- A state that is written and read is the job, with its times to the millisecond; and writing
  -- what was read gives the same file, whatever the job's times are.
  pub from_persisted-to_persisted :
      (job : JobState)
      → IsWritable job.start_time
      → IsWritableEnd job.completed_at
      → from_persisted (to_persisted job)
        ≡ ok (record job {
          start_time = to_ms job.start_time;
          completed_at = map_time to_ms job.completed_at;
        })
  unfolding from_persisted to_persisted
  from_persisted-to_persisted job start end =
      ap
        (λ t. ok (record job {
          start_time = t;
          completed_at =
              map_time unix_ms_to_system_time (map_time system_time_to_unix_ms job.completed_at);
        }))
        (time-restored job.start_time start)
      ∙ ap (λ t. ok (record job { start_time = to_ms job.start_time; completed_at = t }))
          (end-restored job.completed_at end)

  pub to_persisted-restored :
      (job : JobState)
      → (job' : JobState) × (from_persisted (to_persisted job) ≡ ok job')
        × (to_persisted job' ≡ to_persisted job)
  unfolding from_persisted to_persisted
  to_persisted-restored job = (
    restored (to_persisted job),
    refl,
    ap
          (λ t. record (to_persisted job) {
            start_time_unix_ms = t;
            completed_at_unix_ms = map_time system_time_to_unix_ms (
                map_time unix_ms_to_system_time (map_time system_time_to_unix_ms job.completed_at));
          })
          (time-persisted job.start_time)
        ∙ ap (λ t. record (to_persisted job) { completed_at_unix_ms = t })
            (end-persisted job.completed_at),
  )
