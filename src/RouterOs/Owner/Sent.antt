-- ===== src/RouterOs/Owner/Sent.antt =====
-- The result that the owner sends, and what it says of the command.
use se_sshion.Base.{
  ◌==◌, ℕ, Bool, true, false, Option, none, some, List, [], ◌∷◌, ◌≡◌, ◌⊎◌, inl, inr, refl, if_some,
  Result, ok, err, Option-cases, Bool-cases,
}
use se_sshion.Base.Text.{Text}
use se_sshion.RouterOs.{
  Cause, rejected, stopped, reported, ChannelMsg, data_bytes, extended_data, exit_status,
  exit_signal, failure, close, eof, success, other, Collector, new_collector, NativeResult, finish,
  Waited, ready, stop, drain, event, closed_result, data_bytes, Sig, extended_data, exit_status,
  exit_signal,
}
use se_sshion.RouterOs.Owner.{
  OpenFailure, Awaits, Owned, not_started, send_result, nothing_done, close_and_send, run_command,
  use_open, open_channel, connect, routeros_owner, run_exec, take_slot,
}

-- What the drained collector says: a success has an exit status, and the command counts as not run
-- only if the peer rejected it.
abbrev Drained : Result Cause (Unit {0}) × Collector → Type 0
Drained (ok done, c) = (code : ℕ) × (c.exit_code ≡ some code)
Drained (err cause, c) = c.may_have_run ≡ false → cause ≡ rejected

-- one message
abbrev Handled : Option (Result Cause (Unit {0})) × Collector → Type 0
Handled (none, c) = c.may_have_run ≡ true
Handled (some result, c) = Drained (result, c)

unsignalled-Drained :
    (c : Collector) (code : Option ℕ)
    → c.may_have_run ≡ true
    → c.exit_code ≡ code
    → Drained (closed_result none code, c)
unsignalled-Drained c none h e = λ ran. cc
unsignalled-Drained c (some code) h e = (code, e)

closed-Drained :
    (signal : Option Sig) (c : Collector)
    → c.may_have_run ≡ true
    → Drained (closed_result signal c.exit_code, c)
closed-Drained (some signal) c h = λ ran. cc
closed-Drained none c h = unsignalled-Drained c c.exit_code h refl

event-Handled :
    (message : Option ChannelMsg) (c : Collector)
    → c.may_have_run ≡ true
    → Handled (event message c)
unfolding event
event-Handled none c h = λ ran. cc
event-Handled (some (data_bytes bytes)) c h = h
event-Handled (some (extended_data ext bytes)) c h = elim (Bool-cases (ext == 1)) [
  | inl e ↦ rw e h
  | inr e ↦ rw e h
]
event-Handled (some (exit_status status)) c h = h
event-Handled (some (exit_signal signal)) c h = h
event-Handled (some failure) c h = λ ran. refl
event-Handled (some close) c h = closed-Drained c.exit_signal c h
event-Handled (some eof) c h = h
event-Handled (some success) c h = h
event-Handled (some other) c h = h

next-Drained :
    (handled : Option (Result Cause (Unit {0})) × Collector)
    (more : Result Cause (Unit {0}) × Collector)
    → Handled handled
    → (handled.1.may_have_run ≡ true → Drained more)
    → Drained (if_some handled.0 (λ result. (result, handled.1)) more)
next-Drained (none, c) more h rest = rest h
next-Drained (some result, c) more h rest = h

drain-Drained :
    (waits : List (Waited (Option ChannelMsg))) (silence : Text) (c : Collector)
    → c.may_have_run ≡ true
    → Drained (drain waits silence c)
unfolding drain
drain-Drained [] silence c h = λ ran. cc
drain-Drained (stop reason ∷ waits) silence c h = λ ran. cc
drain-Drained (ready message ∷ waits) silence c h =
    next-Drained (event message c) (drain waits silence (event message c).1)
      (event-Handled message c h) (λ ran. drain-Drained waits silence (event message c).1 ran)

-- A success has enqueued the command and carries its exit status; a failure that says that the
-- command did not run has not enqueued it, or the peer rejected it.
abbrev pub IsHonest : NativeResult → Bool → Type 0
IsHonest (ok output) enqueued = (enqueued ≡ true) × ((code : ℕ) × (output.exit_code ≡ some code))
IsHonest (err failed) enqueued =
    failed.may_have_run ≡ false → (enqueued ≡ false) ⊎ (failed.cause ≡ rejected)

-- One result was sent, and it is true of what the task did.
abbrev pub Answers : Owned → Type 0
Answers o = (result : NativeResult) × (o.sent ≡ some result) × IsHonest result o.enqueued

refused-Answers : (cause : Cause) → Answers (send_result (not_started cause) nothing_done)
refused-Answers cause = (not_started cause, refl, λ ran. inl refl)

-- a stop while the channel is opened lasts
abbrev pub Lasts : Waited (Result OpenFailure (Unit {0})) → Option Text → Type 0
Lasts (ready opened) reason = Unit
Lasts (stop early) reason = (late : Text) × (reason ≡ some late)

Drained-Answers :
    (drained : Result Cause (Unit {0}) × Collector)
    → Drained drained
    → Answers (close_and_send drained (record nothing_done { enqueued = true }))
unfolding close_and_send finish
Drained-Answers (ok done, c) h = (_, refl, (refl, h))
Drained-Answers (err cause, c) h = (_, refl, λ ran. inr (h ran))

run_exec-Answers :
    (max_tokens : Option ℕ) (a : Awaits) (waited : Waited (Result Text (Unit {0})))
    → Answers (run_exec max_tokens a waited nothing_done)
unfolding run_exec
run_exec-Answers max_tokens a (ready (ok done)) =
    Drained-Answers
      (drain a.messages a.silence (record (new_collector max_tokens) { may_have_run = true }))
      (drain-Drained a.messages a.silence
        (record (new_collector max_tokens) { may_have_run = true }) refl)
run_exec-Answers max_tokens a (ready (err error)) =
    unfold close_and_send in (_, refl, λ ran. inl refl)
run_exec-Answers max_tokens a (stop reason) = unfold close_and_send in (_, refl, λ ran. inl refl)

run_command-Answers :
    (max_tokens : Option ℕ) (a : Awaits) → Answers (run_command max_tokens a nothing_done)
unfolding run_command
run_command-Answers max_tokens a = elim (Option-cases a.reason_before_exec) [
  | inl e ↦ rw e (run_exec-Answers max_tokens a a.exec)
  | inr (reason, e) ↦ rw e (unfold close_and_send in (_, refl, λ ran. inl refl))
]

use_open-Answers :
    (max_tokens : Option ℕ) (a : Awaits) (opened : Result OpenFailure (Unit {0}))
    → Answers (use_open max_tokens a opened nothing_done)
unfolding use_open
use_open-Answers max_tokens a (ok channel) = run_command-Answers max_tokens a
use_open-Answers max_tokens a (err failed) =
    (not_started (reported failed.error), refl, λ ran. inl refl)

-- after a stop the command is not enqueued, and the answer stays
late-Answers :
    (max_tokens : Option ℕ) (a : Awaits) (opened : Result OpenFailure (Unit {0}))
    (early late : Text)
    → a.reason_before_exec ≡ some late
    → Answers
        (use_open max_tokens a opened (send_result (not_started (stopped early)) nothing_done))
unfolding use_open run_command close_and_send
late-Answers max_tokens a (ok channel) early late e =
    rw e (not_started (stopped early), refl, λ ran. inl refl)
late-Answers max_tokens a (err failed) early late e =
    (not_started (stopped early), refl, λ ran. inl refl)

open_channel-Answers :
    (max_tokens : Option ℕ) (a : Awaits) (opened : Waited (Result OpenFailure (Unit {0})))
    → Lasts opened a.reason_before_exec
    → Answers (open_channel max_tokens a opened)
unfolding open_channel
open_channel-Answers max_tokens a (ready opened) h = use_open-Answers max_tokens a opened
open_channel-Answers max_tokens a (stop early) (late, e) =
    late-Answers max_tokens a a.opened_late early late e

connect-Answers :
    (max_tokens : Option ℕ) (a : Awaits) (waited : Waited (Result Text (Unit {0})))
    → Lasts a.opened a.reason_before_exec
    → Answers (connect max_tokens a waited)
unfolding connect
connect-Answers max_tokens a (ready (ok done)) h = elim (Option-cases a.reason_before_open) [
  | inl e ↦ rw e (open_channel-Answers max_tokens a a.opened h)
  | inr (reason, e) ↦ rw e (refused-Answers (stopped reason))
]
connect-Answers max_tokens a (ready (err error)) h = refused-Answers (reported error)
connect-Answers max_tokens a (stop reason) h = refused-Answers (stopped reason)

take_slot-Answers :
    (max_tokens : Option ℕ) (a : Awaits) (waited : Waited (Result Text (Unit {0})))
    → Lasts a.opened a.reason_before_exec
    → Answers (take_slot max_tokens a waited)
unfolding take_slot
take_slot-Answers max_tokens a (ready (ok done)) h = connect-Answers max_tokens a a.connected h
take_slot-Answers max_tokens a (ready (err error)) h = refused-Answers (reported error)
take_slot-Answers max_tokens a (stop reason) h = refused-Answers (stopped reason)

-- Whatever the awaits give, the task answers the request exactly once, with a result that is true
-- of what it did, if a stop that comes while the channel is opened lasts.
pub routeros_owner-Answers :
    (max_tokens : Option ℕ) (a : Awaits)
    → Lasts a.opened a.reason_before_exec
    → Answers (routeros_owner max_tokens a)
unfolding routeros_owner
routeros_owner-Answers max_tokens a h = take_slot-Answers max_tokens a a.slot h
