-- ===== src/Tests/BackgroundExamples.antt =====
-- The background jobs at concrete inputs.
use se_sshion.Base.{
  ℕ, ◌/◌, true, false, Option, none, some, List, [], ◌∷◌, ◌++◌, ◌≡◌, ◌≢◌, refl, arith, Result, ok,
}
use se_sshion.Base.Integers.{ℤ, pos}
use se_sshion.Base.Text.{codes}
use se_sshion.Background.{
  JobState, NewRunningJob, new_running, completed, format_ps_elapsed, nanos_per_sec, is_terminal,
}
use se_sshion.Background.Lifecycle.{
  IsConsistent, Change, exit, lost, changes, first_time, identity, changes-new_running,
}
use se_sshion.Background.Elapsed.{read_elapsed, format_ps_elapsed-read}
use se_sshion.Background.Persisted.{
  to_persisted, from_persisted, to_ms, map_time, from_persisted-to_persisted, to_persisted-restored,
}
use se_sshion.Background.Registry.{Entries, Jobs, get, prune_expired}
use se_sshion.Background.Registry.Pruning.{IsExpired, IsPruned, prune_expired-IsPruned}
use se_sshion.Background.Registry.Complete.{no_lock, prune_expired-gone}
use se_sshion.Background.Stream.{
  Bytes, Event, data_bytes, extended_data, exit_status, close, stream_channel_inner,
  terminal_update, update_job_terminal,
}
use se_sshion.Background.Stream.Whole.{Streamed, stream_channel_inner-Streamed}
use se_sshion.Background.Stream.Ended.{IsEnded, found_code, update_job_terminal-IsEnded}

abbrev opts : NewRunningJob
opts = record {
  job_id = codes "job_1";
  pid = 123;
  log_path = codes "/tmp/ssh-mcp/test.log";
  command = codes "echo test";
  connection_id = codes "test@localhost:22";
}

abbrev lost_then_exit : List Change
lost_then_exit = lost 7000000 (codes "closed") ∷ exit 9000000 (pos 0) ∷ []

changes-new_running_example :
    IsConsistent (changes lost_then_exit (new_running 5000000 opts))
    × ((changes lost_then_exit (new_running 5000000 opts)).completed_at
        ≡ first_time none lost_then_exit)
    × (identity (changes lost_then_exit (new_running 5000000 opts)) ≡ (opts, 5000000))
changes-new_running_example = changes-new_running 5000000 opts lost_then_exit

format_ps_elapsed-read_example :
    read_elapsed (0, 0) (format_ps_elapsed 93784500000000) ≡ 93784500000000 / nanos_per_sec
format_ps_elapsed-read_example = format_ps_elapsed-read 93784500000000

prints_days : format_ps_elapsed 93784500000000 ≡ codes "1-02:03:04"
unfolding format_ps_elapsed
prints_days = refl

-- a job that ended at 7.5 ms
abbrev done : JobState
done = record {
  job_id = codes "job_1";
  pid = 123;
  log_path = codes "/tmp/ssh-mcp/test.log";
  exit_code = some (pos 0);
  status = completed;
  state_reason = none;
  start_time = 5000000;
  completed_at = some 7500000;
  command = codes "echo test";
  connection_id = codes "test@localhost:22";
}

from_persisted-to_persisted_example :
    from_persisted 1000000 (to_persisted 1000000 done)
    ≡ ok (record done {
      start_time = to_ms 1000000 5000000;
      completed_at = map_time (to_ms 1000000) (some 7500000);
    })
from_persisted-to_persisted_example =
    from_persisted-to_persisted 1000000 done (omega arith, omega arith) (omega arith, omega arith)

to_persisted-restored_example :
    (job' : JobState) × (from_persisted 1000000 (to_persisted 1000000 done) ≡ ok job')
    × (to_persisted 1000000 job' ≡ to_persisted 1000000 done)
to_persisted-restored_example = to_persisted-restored 1000000 done

abbrev entries : Entries
entries = (codes "job_1", 0) ∷ (codes "job_2", 1) ∷ []

abbrev jobs : Jobs
jobs job = done

prune_expired-IsPruned_example :
    IsPruned 100 9000000 jobs no_lock
      (get (codes "job_2") entries)
      (get (codes "job_2") (prune_expired 100 9000000 entries jobs entries jobs no_lock).0)
prune_expired-IsPruned_example =
    prune_expired-IsPruned 100 9000000 jobs no_lock entries jobs entries (codes "job_2")

finds_second : get (codes "job_2") entries ≡ some 1
unfolding get
finds_second = refl

done-IsExpired : IsExpired 100 9000000 done
unfolding is_terminal
done-IsExpired = record { terminal = refl; end = 7500000; ended_at = refl; past = omega arith }

prune_expired-gone_example :
    get (codes "job_2") (prune_expired 100 9000000 entries jobs entries jobs no_lock).0 ≡ none
prune_expired-gone_example =
    prune_expired-gone 100 9000000 jobs entries (codes "job_2") 1 finds_second done-IsExpired

-- a log in memory
abbrev append : Bytes → Bytes → Result (Unit {0}) Bytes
append bytes file = ok (file ++ bytes)

abbrev sync : Bytes → Result (Unit {0}) (Unit {0})
sync file = ok tt

append-contents : (bytes file file' : Bytes) → append bytes file ≡ ok file' → file' ≡ file ++ bytes
append-contents bytes file file' h = cc

abbrev events : List Event
events =
    (data_bytes (codes "out"), true)
    ∷ (extended_data (codes "err"), true)
    ∷ (exit_status 3, false)
    ∷ (data_bytes (codes "late"), true)
    ∷ (close, true)
    ∷ (data_bytes (codes "gone"), true)
    ∷ []

streams :
    stream_channel_inner append sync (ok []) (codes "first ") events
    ≡ ok (some (pos 3), codes "first outerrlate")
unfolding stream_channel_inner
streams = refl

stream_channel_inner-Streamed_example :
    Streamed append
      (λ file. file)
      append-contents
      []
      (codes "first ")
      events
      (some (pos 3), codes "first outerrlate")
stream_channel_inner-Streamed_example =
    stream_channel_inner-Streamed append (λ file. file) append-contents sync [] (codes "first ")
      events streams

abbrev outcome : Result (Unit {0}) (Option ℤ × Bytes)
outcome = ok (some (pos 3), codes "first outerrlate")

abbrev started : Jobs
started job = new_running 5000000 opts

abbrev ended : Jobs × Option JobState
ended =
    update_job_terminal 9000000 (codes "job_2") entries (terminal_update (λ e. codes "i/o") outcome)
      started

update_job_terminal-IsEnded_example :
    IsEnded 9000000 (found_code outcome) (started 1) (ended.0 1)
    × (ended.1 ≡ some (ended.0 1))
    × ((other : ℕ) → other ≢ 1 → ended.0 other ≡ started other)
update_job_terminal-IsEnded_example =
    update_job_terminal-IsEnded 9000000 (λ e. codes "i/o") outcome (codes "job_2") entries started 1
      finds_second
