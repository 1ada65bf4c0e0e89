-- ===== src/Background/Transfer/Told.antt =====
-- src/background/transfer.rs: what a snapshot tells of a transfer.
use se_sshion.Base.{
  ℕ, ◌≡◌, refl, ap, sym, ◌∙◌, subst, Bool, true, false, Option, none, some, List, [], ◌∷◌,
  if◌then◌else◌, if_some,
}
use se_sshion.Base.Text.{Text, codes}
use se_sshion.Transfer.{
  TransferTransport, TransferEvent, preparing_event, finalizing_event, transferring_event,
  file_stage, TransferResponse, to_compact,
}
use se_sshion.Background.Transfer.{
  TransferJobPhase, completed, failed, as_str, TransferJobState, new_job, on_event, apply_event,
  finish_job, is_over, TransferJobSnapshot, take_snapshot,
}

-- What the task of a transfer reports: its events, and with the time its answer.
pub data Report : Type 0 where
  event : TransferEvent → Report
  answer : TransferResponse → ℕ → Report

abbrev pub on_report : Report → TransferJobState → TransferJobState
on_report (event e) s = apply_event e s
on_report (answer response now) s = finish_job response now s

abbrev pub on_reports : List Report → TransferJobState → TransferJobState
on_reports [] s = s
on_reports (report ∷ reports) s = on_reports reports (on_report report s)

-- the last answer, and `before` if there is none
abbrev pub last_answer : Option TransferResponse → List Report → Option TransferResponse
last_answer before [] = before
last_answer before (event e ∷ reports) = last_answer before reports
last_answer before (answer response now ∷ reports) = last_answer (some response) reports

-- the transport of the last event that names one, in front of the first answer
abbrev event_transport : TransferEvent → Option TransferTransport → Option TransferTransport
event_transport (transferring_event transport) before = some transport
event_transport preparing_event before = before
event_transport finalizing_event before = before
event_transport (file_stage target total) before = before

abbrev pub last_transport : Option TransferTransport → List Report → Option TransferTransport
last_transport before [] = before
last_transport before (event e ∷ reports) = last_transport (event_transport e before) reports
last_transport before (answer response now ∷ reports) = before

abbrev end_phase : TransferResponse → TransferJobPhase
end_phase response = if response.succeeded then completed else failed

abbrev IsOngoing : TransferJobPhase → Type 0
IsOngoing completed = ⊥
IsOngoing failed = ⊥
IsOngoing phase = Unit

-- A snapshot behind these reports: it is of a running transfer up to the first answer, and from
-- then on of the last one.
abbrev TellsAnswer : Option TransferResponse → TransferJobSnapshot → Type 0
TellsAnswer none snap =
    (snap.running ≡ true)
    × (snap.state ≡ codes "running")
    × (snap.result ≡ none)
    × IsOngoing snap.phase
TellsAnswer (some response) snap =
    (snap.running ≡ false)
    × (snap.state ≡ (if response.succeeded then codes "completed" else codes "failed"))
    × (snap.result ≡ some (to_compact response))
    × (snap.phase ≡ end_phase response)
    × (snap.progress_target ≡ none)

pub record Told (id : Text) (reports : List Report) (snap : TransferJobSnapshot) : Type 0 where
  pub same_id : snap.job_id ≡ id
  pub tells : TellsAnswer (last_answer none reports) snap
  pub transport_told : snap.transport ≡ last_transport none reports

-- the state behind the last answer
abbrev Answered : Option TransferResponse → TransferJobState → Type 0
Answered none s = (s.completed_at ≡ none) × (s.result ≡ none) × IsOngoing s.phase
Answered (some response) s =
    ((at : ℕ) × (s.completed_at ≡ some at))
    × (s.result ≡ some (to_compact response))
    × (s.phase ≡ end_phase response)
    × (s.progress_target ≡ none)

on_event-Answered :
    (e : TransferEvent) (s : TransferJobState) → Answered none s → Answered none (on_event e s)
on_event-Answered preparing_event s h = (h.0, h.1, tt)
on_event-Answered (transferring_event transport) s h = (h.0, h.1, tt)
on_event-Answered (file_stage target total) s h = (h.0, h.1, tt)
on_event-Answered finalizing_event s h = (h.0, h.1, tt)

event_while_running :
    (e : TransferEvent) (s : TransferJobState)
    → s.completed_at ≡ none
    → apply_event e s ≡ on_event e s
event_while_running e s h = unfold apply_event in ap (λ o. if_some o (λ at. s) (on_event e s)) h

event_when_over :
    (e : TransferEvent) (s : TransferJobState) (at : ℕ)
    → s.completed_at ≡ some at
    → apply_event e s ≡ s
event_when_over e s at h = unfold apply_event in ap (λ o. if_some o (λ at. s) (on_event e s)) h

apply_event-Answered :
    (o : Option TransferResponse) (e : TransferEvent) (s : TransferJobState)
    → Answered o s
    → Answered o (apply_event e s)
apply_event-Answered none e s h =
    subst (Answered none) (sym (event_while_running e s h.0)) (on_event-Answered e s h)
apply_event-Answered (some response) e s h =
    subst (Answered (some response)) (sym (event_when_over e s h.0.0 h.0.1)) h

on_reports-Answered :
    (o : Option TransferResponse) (reports : List Report) (s : TransferJobState)
    → Answered o s
    → Answered (last_answer o reports) (on_reports reports s)
on_reports-Answered o [] s h = h
on_reports-Answered o (event e ∷ reports) s h =
    on_reports-Answered o reports (apply_event e s) (apply_event-Answered o e s h)
on_reports-Answered o (answer response now ∷ reports) s h =
    on_reports-Answered (some response) reports (finish_job response now s)
      (unfold finish_job in ((now, refl), refl, refl, refl))

on_event-job_id : (e : TransferEvent) (s : TransferJobState) → (on_event e s).job_id ≡ s.job_id
on_event-job_id preparing_event s = refl
on_event-job_id (transferring_event transport) s = refl
on_event-job_id (file_stage target total) s = refl
on_event-job_id finalizing_event s = refl

on_event-transport :
    (e : TransferEvent) (s : TransferJobState)
    → (on_event e s).transport ≡ event_transport e s.transport
on_event-transport preparing_event s = refl
on_event-transport (transferring_event transport) s = refl
on_event-transport (file_stage target total) s = refl
on_event-transport finalizing_event s = refl

-- what a finished transfer keeps
over-keeps :
    (response : TransferResponse) (reports : List Report) (s : TransferJobState)
    → Answered (some response) s
    → ((on_reports reports s).job_id ≡ s.job_id) × ((on_reports reports s).transport ≡ s.transport)
unfolding finish_job
over-keeps response [] s h = (refl, refl)
over-keeps response (event e ∷ reports) s h =
    let same : apply_event e s ≡ s = event_when_over e s h.0.0 h.0.1 in
    subst
      (λ t.
        ((on_reports reports t).job_id ≡ s.job_id)
        × ((on_reports reports t).transport ≡ s.transport))
      (sym same) (over-keeps response reports s h)
over-keeps response (answer later now ∷ reports) s h =
    over-keeps later reports (finish_job later now s) ((now, refl), refl, refl, refl)

running-keeps :
    (reports : List Report) (s : TransferJobState)
    → Answered none s
    → ((on_reports reports s).job_id ≡ s.job_id)
      × ((on_reports reports s).transport ≡ last_transport s.transport reports)
unfolding finish_job
running-keeps [] s h = (refl, refl)
running-keeps (event e ∷ reports) s h =
    let next : TransferJobState = on_event e s in
    let (id, transport) = running-keeps reports next (on_event-Answered e s h) in
    subst
      (λ t.
        ((on_reports reports t).job_id ≡ s.job_id)
        × ((on_reports reports t).transport
            ≡ last_transport (event_transport e s.transport) reports))
      (sym (event_while_running e s h.0))
      (
        id ∙ on_event-job_id e s,
        transport ∙ ap (λ t. last_transport t reports) (on_event-transport e s),
      )
running-keeps (answer response now ∷ reports) s h =
    over-keeps response reports (finish_job response now s) ((now, refl), refl, refl, refl)

as_str-end :
    (b : Bool)
    → as_str (if b then completed else failed) ≡ (if b then codes "completed" else codes "failed")
unfolding as_str
as_str-end true = refl
as_str-end false = refl

snapshot-TellsAnswer :
    (o : Option TransferResponse) (s : TransferJobState) (now : ℕ)
    → Answered o s
    → TellsAnswer o (take_snapshot now s)
unfolding take_snapshot
snapshot-TellsAnswer none s now h =
    let ongoing : is_over s ≡ false =
      unfold is_over in ap (λ o. if_some o (λ at. true) false) h.0 in
    (rw ongoing refl, rw ongoing refl, h.1, h.2)
snapshot-TellsAnswer (some response) s now h =
    let over : is_over s ≡ true = unfold is_over in ap (λ o. if_some o (λ at. true) false) h.0.1 in
    (rw over refl, rw (over, h.2) (as_str-end response.succeeded), h.1, h.2, h.3)

-- Whatever a transfer's task reports, in whatever order, a snapshot is of this job, tells that it is
-- running up to the first answer and what came of it from then on, by the last answer, and names
-- the transport of the last event before the first answer that names one.
pub take_snapshot-Told :
    (id : Text) (start now : ℕ) (reports : List Report)
    → Told id reports (take_snapshot now (on_reports reports (new_job id start)))
take_snapshot-Told id start now reports =
    let fresh : Answered none (new_job id start) = unfold new_job in (refl, refl, tt) in
    let (same, transport) = running-keeps reports (new_job id start) fresh in
    record {
      same_id = unfold take_snapshot new_job in same;
      tells =
          snapshot-TellsAnswer (last_answer none reports) (on_reports reports (new_job id start))
            now (on_reports-Answered none reports (new_job id start) fresh);
      transport_told = unfold take_snapshot new_job in transport;
    }
