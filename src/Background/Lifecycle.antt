-- ===== src/Background/Lifecycle.antt =====
-- What the fields of a job say of its life.
use se_sshion.Base.{
  ℕ, Bool, true, false, Option, none, some, List, [], ◌∷◌, ◌≡◌, ◌≢◌, refl, arith, Bool-cases, ◌==◌,
  ap, ◌∙◌, inl, inr,
}
use se_sshion.Base.Integers.{ℤ, pos, negsuc}
use se_sshion.Base.Text.{Text}
use se_sshion.Background.{
  JobStatus, running, completed, failed, state_lost, JobState, NewRunningJob, new_running,
  is_terminal, mark_exit, mark_state_lost, is_zero, or_value,
}

abbrev pub is_some {ℓ} : {A : Type ℓ} → Option A → Bool
is_some none = false
is_some (some a) = true

-- what a status says of the exit code and the reason
abbrev pub Outcome : JobStatus → Option ℤ → Option Text → Type 0
Outcome running code reason = (code ≡ none) × (reason ≡ none)
Outcome completed code reason = (code ≡ some (pos 0)) × (reason ≡ none)
Outcome failed code reason = ((c : ℤ) × (code ≡ some c) × (c ≢ pos 0)) × (reason ≡ none)
Outcome state_lost code reason = (code ≡ none) × ((r : Text) × (reason ≡ some r))

pub record IsConsistent (job : JobState) : Type 0 where
  pub outcome : Outcome job.status job.exit_code job.state_reason
  pub ended : is_terminal job ≡ is_some job.completed_at

-- one change of a job, at the time that the clock shows
pub data Change : Type 0 where
  exit : ℕ → ℤ → Change
  lost : ℕ → Text → Change

abbrev pub change : Change → JobState → JobState
unfolding mark_exit mark_state_lost
change (exit now code) job = mark_exit now code job
change (lost now reason) job = mark_state_lost now reason job

-- the first change comes first
abbrev pub changes : List Change → JobState → JobState
changes [] job = job
changes (c ∷ cs) job = changes cs (change c job)

abbrev pub time_of : Change → ℕ
time_of (exit now code) = now
time_of (lost now reason) = now

change-IsConsistent : (c : Change) (job : JobState) → IsConsistent (change c job)
unfolding mark_exit mark_state_lost is_terminal
change-IsConsistent (exit now (pos n)) job = elim (Bool-cases (n == 0)) [
  | inl e ↦ record {
    outcome = rw e (ap (λ k. some (pos k)) (ground arith), refl);
    ended = rw e refl;
  }
  | inr e ↦ record {
    outcome = rw e ((pos n, refl, λ k. cc (e, ap is_zero k)), refl);
    ended = rw e refl;
  }
]
change-IsConsistent (exit now (negsuc n)) job = record {
  outcome = ((negsuc n, refl, λ e. cc e), refl);
  ended = refl;
}
change-IsConsistent (lost now reason) job = record {
  outcome = (refl, (reason, refl));
  ended = refl;
}

pub mark_exit-IsConsistent :
    (now : ℕ) (code : ℤ) (job : JobState) → IsConsistent (mark_exit now code job)
unfolding mark_exit change
mark_exit-IsConsistent now code job = change-IsConsistent (exit now code) job

pub mark_state_lost-IsConsistent :
    (now : ℕ) (reason : Text) (job : JobState) → IsConsistent (mark_state_lost now reason job)
unfolding mark_state_lost change
mark_state_lost-IsConsistent now reason job = change-IsConsistent (lost now reason) job

new_running-IsConsistent : (now : ℕ) (opts : NewRunningJob) → IsConsistent (new_running now opts)
unfolding new_running is_terminal
new_running-IsConsistent now opts = record { outcome = (refl, refl); ended = refl }

changes-IsConsistent :
    (cs : List Change) (job : JobState) → IsConsistent job → IsConsistent (changes cs job)
changes-IsConsistent [] job h = h
changes-IsConsistent (c ∷ cs) job h =
    changes-IsConsistent cs (change c job) (change-IsConsistent c job)

-- the time of the first change, or that which the job already has
abbrev pub first_time : Option ℕ → List Change → Option ℕ
first_time (some t) cs = some t
first_time none [] = none
first_time none (c ∷ cs) = some (time_of c)

first_time-or_value :
    (t : Option ℕ) (c : Change) (cs : List Change)
    → some (or_value t (time_of c)) ≡ first_time t (c ∷ cs)
first_time-or_value none c cs = refl
first_time-or_value (some t) c cs = refl

first_time-nil : (t : Option ℕ) → t ≡ first_time t []
first_time-nil none = refl
first_time-nil (some t) = refl

changes-completed_at :
    (cs : List Change) (job : JobState)
    → (changes cs job).completed_at ≡ first_time job.completed_at cs
unfolding mark_exit mark_state_lost
changes-completed_at [] job = first_time-nil job.completed_at
changes-completed_at (exit now code ∷ cs) job =
    changes-completed_at cs (mark_exit now code job)
    ∙ first_time-or_value job.completed_at (exit now code) cs
changes-completed_at (lost now reason ∷ cs) job =
    changes-completed_at cs (mark_state_lost now reason job)
    ∙ first_time-or_value job.completed_at (lost now reason) cs

-- the fields that no change touches
abbrev pub identity : JobState → NewRunningJob × ℕ
identity job = (
  record {
    job_id = job.job_id;
    pid = job.pid;
    log_path = job.log_path;
    command = job.command;
    connection_id = job.connection_id;
  },
  job.start_time,
)

changes-identity : (cs : List Change) (job : JobState) → identity (changes cs job) ≡ identity job
unfolding mark_exit mark_state_lost
changes-identity [] job = refl
changes-identity (exit now code ∷ cs) job = changes-identity cs (mark_exit now code job)
changes-identity (lost now reason ∷ cs) job = changes-identity cs (mark_state_lost now reason job)

-- What a job is after any changes: its status, exit code, reason and end agree, it ended at the
-- first change, and it is still the job that was started.
pub changes-new_running :
    (now : ℕ) (opts : NewRunningJob) (cs : List Change)
    → IsConsistent (changes cs (new_running now opts))
      × ((changes cs (new_running now opts)).completed_at ≡ first_time none cs)
      × (identity (changes cs (new_running now opts)) ≡ (opts, now))
unfolding new_running
changes-new_running now opts cs = (
  changes-IsConsistent cs (new_running now opts) (new_running-IsConsistent now opts),
  changes-completed_at cs (new_running now opts),
  changes-identity cs (new_running now opts),
)
