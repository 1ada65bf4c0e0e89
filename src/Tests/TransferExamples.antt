-- ===== src/Tests/TransferExamples.antt =====
-- Background transfers at concrete reports and registries.
use se_sshion.Base.{◌≡◌, refl, none, some, false, List, [], ◌∷◌, if◌then◌else◌, if_some}
use se_sshion.Base.Text.{codes, text_eq}
use se_sshion.Transfer.{
  sftp, preparing_event, finalizing_event, transferring_event, file_stage, local, TransferResponse,
  default_params, error_response,
}
use se_sshion.Background.Transfer.{
  Held, Jobs, get_job, register, new_job, snapshot_job, take_snapshot, apply_event, finish_job,
}
use se_sshion.Background.Transfer.Told.{Report, event, answer, on_reports, Told, take_snapshot-Told}
use se_sshion.Background.Transfer.Retained.{IsMap, retained, register-IsMap}

abbrev refusal : TransferResponse
refusal = error_response default_params (codes "/tmp") (codes "expected failure")

-- the last event comes too late
abbrev reports : List Report
reports =
    event preparing_event
    ∷ event (transferring_event sftp)
    ∷ event (file_stage (local (codes "a")) (some 10))
    ∷ answer refusal 7
    ∷ event finalizing_event
    ∷ []

take_snapshot-Told_example :
    Told
      (codes "transfer-1")
      reports
      (take_snapshot 9 (on_reports reports (new_job (codes "transfer-1") 1)))
take_snapshot-Told_example = take_snapshot-Told (codes "transfer-1") 1 9 reports

told :
    (take_snapshot 9 (on_reports reports (new_job (codes "transfer-1") 1))).state ≡ codes "failed"
unfolding take_snapshot new_job apply_event finish_job error_response
told = refl

abbrev ended : Held
ended = record {
  state = record (new_job (codes "old") 1) { completed_at = some 5 };
  poisoned = false;
}

abbrev jobs : Jobs
jobs = (codes "old", ended) ∷ []

register-IsMap_example :
    IsMap (register 60 (codes "new") 100 jobs)
    × (get_job (codes "old") (register 60 (codes "new") 100 jobs) ≡ (
        if text_eq (codes "new") (codes "old")
        then some (record { state = new_job (codes "new") 100; poisoned = false })
        else retained 60 100 (get_job (codes "old") jobs)))
    × ((snapshot_job 60 (codes "old") 64 jobs).0
        ≡ if_some
            (retained 60 64 (get_job (codes "old") jobs))
            (λ job. if job.poisoned then none else some (take_snapshot 64 job.state))
            none)
register-IsMap_example = register-IsMap 60 100 64 (codes "new") (codes "old") jobs (tt, tt)
