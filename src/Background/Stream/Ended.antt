-- ===== src/Background/Stream/Ended.antt =====
-- What the end of the stream makes of the job.
use se_sshion.Base.{
  ℕ, true, false, Option, none, some, ◌≡◌, ◌≢◌, inl, inr, refl, Bool-cases, arith, Result, ok, err,
  ==_iff, if◌then◌else◌, ◌==◌,
}
use se_sshion.Base.Integers.{ℤ}
use se_sshion.Base.Text.{Text}
use se_sshion.Background.{
  JobState, is_terminal, mark_exit, mark_state_lost, or_value, is_zero, ends, completed, failed,
}
use se_sshion.Background.Lifecycle.{
  IsConsistent, mark_exit-IsConsistent, mark_state_lost-IsConsistent,
}
use se_sshion.Background.Registry.{Entries, Jobs, get}
use se_sshion.Background.Stream.{terminal_update, apply_update, update_job_terminal}

-- the exit code that the stream found
abbrev pub found_code : {File Fault : Type 0} → Result Fault (Option ℤ × File) → Option ℤ
found_code (ok (code, file)) = code
found_code (err e) = none

-- A job as the end of its stream leaves it.
pub record IsEnded (now : ℕ) (code : Option ℤ) (before after : JobState) : Type 0 where
  pub consistent : IsConsistent after
  pub terminal : is_terminal after ≡ true
  pub exits : after.exit_code ≡ code
  pub ended_at : after.completed_at ≡ some (or_value before.completed_at now)

exit-terminal : (code : ℤ) → ends (if is_zero code then completed else failed) ≡ true
exit-terminal code = elim (Bool-cases (is_zero code)) [ inl e ↦ rw e refl | inr e ↦ rw e refl ]

==-ne : (a b : ℕ) → a ≢ b → (a == b) ≡ false
==-ne a b h = ground arith

exit-IsEnded :
    (now : ℕ) (code : ℤ) (job : JobState) → IsEnded now (some code) job (mark_exit now code job)
unfolding mark_exit is_terminal
exit-IsEnded now code job = record {
  consistent = mark_exit-IsConsistent now code job;
  terminal = exit-terminal code;
  exits = refl;
  ended_at = refl;
}

lost-IsEnded :
    (now : ℕ) (reason : Text) (job : JobState)
    → IsEnded now none job (mark_state_lost now reason job)
unfolding mark_state_lost is_terminal
lost-IsEnded now reason job = record {
  consistent = mark_state_lost-IsConsistent now reason job;
  terminal = refl;
  exits = refl;
  ended_at = refl;
}

update-IsEnded :
    {File Fault : Type 0} (now : ℕ) (message : Fault → Text) (r : Result Fault (Option ℤ × File))
    (job : JobState)
    → IsEnded now (found_code r) job (apply_update now (terminal_update message r) job)
unfolding terminal_update apply_update
update-IsEnded now message (ok (some code, file)) job = exit-IsEnded now code job
update-IsEnded now message (ok (none, file)) job = lost-IsEnded now _ job
update-IsEnded now message (err e) job = lost-IsEnded now _ job

-- Whatever the stream's outcome, the registered job of the stream is ended with the exit code that
-- the stream found, and is lost without one; this state is persisted, and every other job stays.
pub update_job_terminal-IsEnded :
    {File Fault : Type 0} (now : ℕ) (message : Fault → Text) (r : Result Fault (Option ℤ × File))
    (job_id : Text) (entries : Entries) (jobs : Jobs) (job : ℕ)
    → get job_id entries ≡ some job
    → IsEnded now
        (found_code r)
        (jobs job)
        ((update_job_terminal now job_id entries (terminal_update message r) jobs).0 job)
      × ((update_job_terminal now job_id entries (terminal_update message r) jobs).1
          ≡ some ((update_job_terminal now job_id entries (terminal_update message r) jobs).0 job))
      × ((other : ℕ)
          → other ≢ job
          → (update_job_terminal now job_id entries (terminal_update message r) jobs).0 other
            ≡ jobs other)
unfolding update_job_terminal
update_job_terminal-IsEnded now message r job_id entries jobs job found =
    rw (found, (==_iff job job).1 refl)
      (
        update-IsEnded now message r (jobs job),
        refl,
        λ other differs. rw (==-ne other job differs) refl,
      )
