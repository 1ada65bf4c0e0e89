-- ===== src/Background/Transfer/Retained.antt =====
-- src/background/transfer.rs: which transfers the registry holds.
use se_sshion.Base.{
  ◌-◌, ◌+◌, leb, arith, ℕ, ◌≡◌, refl, ap, sym, subst, ◌∙◌, inl, inr, Bool, true, false, Option,
  none, some, [], ◌∷◌, if◌then◌else◌, if_some, Bool-cases, leb, ◌+◌, ◌-◌, arith,
}
use se_sshion.Base.Text.{Text, text_eq, text_eq_iff}
use se_sshion.Background.Transfer.{
  Held, Jobs, get_job, put_job, is_retained, prune_jobs, register, new_job, snapshot_job,
  take_snapshot,
}

-- The keys of the map are different from one another.
abbrev Absent : Text → Jobs → Type 0
Absent id [] = Unit
Absent id ((key, job) ∷ jobs) = (text_eq key id ≡ false) × Absent id jobs

abbrev pub IsMap : Jobs → Type 0
IsMap [] = Unit
IsMap ((key, job) ∷ jobs) = Absent key jobs × IsMap jobs

-- What is held at the instant `now` of what was held: a job whose lock is poisoned, a job that has
-- not ended, and a job with `now ≤ at + retention` where `at` is its end.
abbrev pub retained : ℕ → ℕ → Option Held → Option Held
retained retention now none = none
retained retention now (some job) =
    if job.poisoned
    then some job
    else if_some job.state.completed_at (λ at. if leb now (at + retention) then some job else none)
        (some job)

-- what the code's test keeps
abbrev tested : ℕ → ℕ → Option Held → Option Held
tested retention now none = none
tested retention now (some job) = if is_retained retention now job then some job else none

ended-retained :
    (retention now : ℕ) (job : Held) (ended : Option ℕ)
    → (if if_some ended (λ at. leb (now - at) retention) true then some job else none)
      ≡ if_some ended (λ at. if leb now (at + retention) then some job else none) (some job)
ended-retained retention now job none = refl
ended-retained retention now job (some at) =
    let same : leb (now - at) retention ≡ leb now (at + retention) = ground arith in rw same refl

poisoned-retained :
    (retention now : ℕ) (job : Held) (poisoned : Bool)
    → (if (if poisoned
          then true
          else if_some job.state.completed_at (λ at. leb (now - at) retention) true)
        then some job
        else none)
      ≡ (if poisoned
          then some job
          else if_some job.state.completed_at
              (λ at. if leb now (at + retention) then some job else none)
              (some job))
poisoned-retained retention now job true = refl
poisoned-retained retention now job false = ended-retained retention now job job.state.completed_at

tested-retained :
    (retention now : ℕ) (held : Option Held)
    → tested retention now held ≡ retained retention now held
tested-retained retention now none = refl
tested-retained retention now (some job) = poisoned-retained retention now job job.poisoned

get_job-Absent : (id : Text) (jobs : Jobs) → Absent id jobs → get_job id jobs ≡ none
unfolding get_job
get_job-Absent id [] h = refl
get_job-Absent id ((key, job) ∷ jobs) h = rw h.0 (get_job-Absent id jobs h.1)

prune_jobs-Absent :
    (retention now : ℕ) (id : Text) (jobs : Jobs)
    → Absent id jobs
    → Absent id (prune_jobs retention now jobs)
unfolding prune_jobs
prune_jobs-Absent retention now id [] h = tt
prune_jobs-Absent retention now id ((key, job) ∷ jobs) h =
    elim (Bool-cases (is_retained retention now job)) [
      | inl e ↦ rw e (h.0, prune_jobs-Absent retention now id jobs h.1)
      | inr e ↦ rw e (prune_jobs-Absent retention now id jobs h.1)
    ]

prune_jobs-IsMap :
    (retention now : ℕ) (jobs : Jobs) → IsMap jobs → IsMap (prune_jobs retention now jobs)
unfolding prune_jobs
prune_jobs-IsMap retention now [] h = tt
prune_jobs-IsMap retention now ((key, job) ∷ jobs) h =
    elim (Bool-cases (is_retained retention now job)) [
      | inl e ↦
          rw e
            (prune_jobs-Absent retention now key jobs h.0, prune_jobs-IsMap retention now jobs h.1)
      | inr e ↦ rw e (prune_jobs-IsMap retention now jobs h.1)
    ]

Absent-equal :
    (key id : Text) (jobs : Jobs) → text_eq key id ≡ true → Absent key jobs → Absent id jobs
Absent-equal key id jobs e h = subst (λ t. Absent t jobs) ((text_eq_iff key id).0 e) h

get_job-tested :
    (retention now : ℕ) (id : Text) (jobs : Jobs)
    → IsMap jobs
    → get_job id (prune_jobs retention now jobs) ≡ tested retention now (get_job id jobs)
unfolding get_job prune_jobs
get_job-tested retention now id [] h = refl
get_job-tested retention now id ((key, job) ∷ jobs) h =
    let rest : get_job id (prune_jobs retention now jobs) ≡ tested retention now (get_job id jobs) =
      get_job-tested retention now id jobs h.1 in
    elim (Bool-cases (is_retained retention now job)) [
      | inl k ↦ elim (Bool-cases (text_eq key id)) [
        | inl e ↦ rw (k, e, k) refl
        | inr e ↦ rw (k, e) rest
      ]
      | inr k ↦ elim (Bool-cases (text_eq key id)) [
        | inl e ↦
            rw (k, e, k)
              (rest
                ∙ ap (tested retention now)
                    (get_job-Absent id jobs (Absent-equal key id jobs e h.0)))
        | inr e ↦ rw (k, e) rest
      ]
    ]

get_job-prune_jobs :
    (retention now : ℕ) (id : Text) (jobs : Jobs)
    → IsMap jobs
    → get_job id (prune_jobs retention now jobs) ≡ retained retention now (get_job id jobs)
get_job-prune_jobs retention now id jobs h =
    get_job-tested retention now id jobs h ∙ tested-retained retention now (get_job id jobs)

put_job-Absent :
    (id other : Text) (job : Held) (jobs : Jobs)
    → text_eq id other ≡ false
    → Absent other jobs
    → Absent other (put_job id job jobs)
unfolding put_job
put_job-Absent id other job [] h k = (h, tt)
put_job-Absent id other job ((key, old) ∷ jobs) h k = elim (Bool-cases (text_eq key id)) [
  | inl e ↦ rw e k
  | inr e ↦ rw e (k.0, put_job-Absent id other job jobs h k.1)
]

text_eq-symmetric : (a b : Text) → text_eq a b ≡ false → text_eq b a ≡ false
text_eq-symmetric a b h = elim (Bool-cases (text_eq b a)) [
  | inl e ↦ cc ((text_eq_iff a b).1 (sym ((text_eq_iff b a).0 e)), h)
  | inr e ↦ e
]

put_job-IsMap : (id : Text) (job : Held) (jobs : Jobs) → IsMap jobs → IsMap (put_job id job jobs)
unfolding put_job
put_job-IsMap id job [] h = (tt, tt)
put_job-IsMap id job ((key, old) ∷ jobs) h = elim (Bool-cases (text_eq key id)) [
  | inl e ↦ rw e h
  | inr e ↦ rw e (
    put_job-Absent id key job jobs (text_eq-symmetric key id e) h.0,
    put_job-IsMap id job jobs h.1,
  )
]

twice {ℓ} :
    {A : Type ℓ} (b : Bool) (x y z : A)
    → (if b then x else z) ≡ (if b then x else if b then y else z)
twice true x y z = refl
twice false x y z = refl

get_job-put_job :
    (id other : Text) (job : Held) (jobs : Jobs)
    → get_job other (put_job id job jobs)
      ≡ (if text_eq id other then some job else get_job other jobs)
unfolding get_job put_job
get_job-put_job id other job [] = refl
get_job-put_job id other job ((key, old) ∷ jobs) = elim (Bool-cases (text_eq key id)) [
  | inl e ↦
      rw (e, (text_eq_iff key id).0 e)
        (twice (text_eq id other) (some job) (some old) (get_job other jobs))
  | inr e ↦
      rw (e, get_job-put_job id other job jobs)
        (elim (Bool-cases (text_eq key other)) [
          | inl k ↦
              let f : text_eq id other ≡ false =
                subst (λ t. text_eq id t ≡ false) ((text_eq_iff key other).0 k)
                  (text_eq-symmetric key id e) in
              rw (k, f) refl
          | inr k ↦ rw k refl
        ])
]

-- A registry is a map: registering puts the new transfer under its name, keeps of the others those
-- that have not ended, those whose end and the retention together are not before now, and those
-- whose lock is poisoned, and drops the rest; a snapshot is that of the transfer that is kept so
-- under the name, and none where its lock is poisoned.
pub register-IsMap :
    (retention now later : ℕ) (id other : Text) (jobs : Jobs)
    → IsMap jobs
    → IsMap (register retention id now jobs)
      × (get_job other (register retention id now jobs) ≡ (
          if text_eq id other
          then some (record { state = new_job id now; poisoned = false })
          else retained retention now (get_job other jobs)))
      × ((snapshot_job retention other later jobs).0
          ≡ if_some
              (retained retention later (get_job other jobs))
              (λ job. if job.poisoned then none else some (take_snapshot later job.state))
              none)
unfolding register snapshot_job
register-IsMap retention now later id other jobs h =
    let fresh : Held = record { state = new_job id now; poisoned = false } in
    let kept : Jobs = prune_jobs retention now jobs in
    (
      put_job-IsMap id fresh kept (prune_jobs-IsMap retention now jobs h),
      get_job-put_job id other fresh kept
          ∙ ap (λ o. if text_eq id other then some fresh else o)
              (get_job-prune_jobs retention now other jobs h),
      ap
          (λ o.
            if_some o (λ job. if job.poisoned then none else some (take_snapshot later job.state))
              none)
          (get_job-prune_jobs retention later other jobs h),
    )
