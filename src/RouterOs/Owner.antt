-- ===== src/RouterOs/Owner.antt =====
-- src/ssh/routeros.rs: `routeros_owner`, the one task that owns the channel of a command. What its
-- awaits give is an argument, in their order.
pub mod Sent
pub mod Stops
use se_sshion.Base.{
  ℕ, Bool, true, false, Option, none, some, List, if_some, if◌then◌else◌, Result, ok, err, [],
}
use se_sshion.Base.Text.{Text}
use se_sshion.RouterOs.{
  Cause, stopped, reported, not_enqueued, owner_ended, timeout_too_large, ChannelMsg, Collector,
  new_collector, CommandOutput, NativeResult, finish, Waited, ready, stop, drain,
}

pub record OpenFailure : Type 0 where
  pub error : Text
  pub budget_elapsed : Bool
  pub generation : Option ℕ

pub record Awaits : Type 0 where
  pub slot : Waited (Result Text (Unit {0}))
  pub connected : Waited (Result Text (Unit {0}))
  pub reason_before_open : Option Text
  pub opened : Waited (Result OpenFailure (Unit {0}))
  -- what the pending OPEN gives after the request was stopped
  pub opened_late : Result OpenFailure (Unit {0})
  pub reason_before_exec : Option Text
  pub exec : Waited (Result Text (Unit {0}))
  pub messages : List (Waited (Option ChannelMsg))
  -- the reason that ends a wait on a silent channel
  pub silence : Text

-- what the task has done: the result that it sent, whether it enqueued the EXEC request, whether
-- it closed its channel, and the connection's generation that it retired
pub record Owned : Type 0 where
  pub sent : Option NativeResult
  pub enqueued : Bool
  pub closed : Bool
  pub retired : Option ℕ

-- `CommandOutput::default`
abbrev pub no_output : CommandOutput
no_output = record {
  stdout = [];
  stderr = [];
  exit_code = none;
  stdout_truncated = false;
  stderr_truncated = false;
  stdout_total_tokens = 0;
  stderr_total_tokens = 0;
}

abbrev pub not_started : Cause → NativeResult
not_started cause = err (record { output = no_output; cause = cause; may_have_run = false })

-- The sender is taken by the first result.
abbrev pub send_result : NativeResult → Owned → Owned
send_result result o = record o { sent = some (if_some o.sent (λ first. first) result) }

abbrev pub nothing_done : Owned
nothing_done = record { sent = none; enqueued = false; closed = false; retired = none }

-- the part behind `collector`, with what the channel gave
unfoldable pub close_and_send : Result Cause (Unit {0}) × Collector → Owned → Owned
unfolding finish
close_and_send (result, collector) o =
    send_result (finish result collector) (record o { closed = true })

-- from what the wait for `exec` gives
unfoldable pub run_exec : Option ℕ → Awaits → Waited (Result Text (Unit {0})) → Owned → Owned
unfolding new_collector close_and_send drain
run_exec max_tokens a (ready (ok done)) o =
    close_and_send
      (drain a.messages a.silence (record (new_collector max_tokens) { may_have_run = true }))
      (record o { enqueued = true })
run_exec max_tokens a (ready (err error)) o =
    close_and_send (err (not_enqueued error), new_collector max_tokens) o
run_exec max_tokens a (stop reason) o =
    close_and_send (err (stopped reason), new_collector max_tokens) o

unfoldable pub run_command : Option ℕ → Awaits → Owned → Owned
unfolding new_collector close_and_send run_exec
run_command max_tokens a o =
    if_some a.reason_before_exec
      (λ reason. close_and_send (err (stopped reason), new_collector max_tokens) o)
      (run_exec max_tokens a a.exec o)

unfoldable pub use_open : Option ℕ → Awaits → Result OpenFailure (Unit {0}) → Owned → Owned
unfolding run_command
use_open max_tokens a (ok channel) o = run_command max_tokens a o
use_open max_tokens a (err failure) o =
    record (send_result (not_started (reported failure.error)) o) {
      retired = if failure.budget_elapsed then failure.generation else none;
    }

-- a stop while the OPEN is pending answers the request and still waits for the channel
unfoldable pub open_channel : Option ℕ → Awaits → Waited (Result OpenFailure (Unit {0})) → Owned
unfolding use_open
open_channel max_tokens a (ready opened) = use_open max_tokens a opened nothing_done
open_channel max_tokens a (stop reason) =
    use_open max_tokens a a.opened_late (send_result (not_started (stopped reason)) nothing_done)

unfoldable pub connect : Option ℕ → Awaits → Waited (Result Text (Unit {0})) → Owned
unfolding open_channel
connect max_tokens a (ready (ok done)) =
    if_some a.reason_before_open (λ reason. send_result (not_started (stopped reason)) nothing_done)
      (open_channel max_tokens a a.opened)
connect max_tokens a (ready (err error)) = send_result (not_started (reported error)) nothing_done
connect max_tokens a (stop reason) = send_result (not_started (stopped reason)) nothing_done

unfoldable pub take_slot : Option ℕ → Awaits → Waited (Result Text (Unit {0})) → Owned
unfolding connect
take_slot max_tokens a (ready (ok permit)) = connect max_tokens a a.connected
take_slot max_tokens a (ready (err error)) = send_result (not_started (reported error)) nothing_done
take_slot max_tokens a (stop reason) = send_result (not_started (stopped reason)) nothing_done

unfoldable pub routeros_owner : Option ℕ → Awaits → Owned
unfolding take_slot
routeros_owner max_tokens a = take_slot max_tokens a a.slot

-- `exec_routeros_with_open_budget`: the deadline is `none` where it overflows the clock
unfoldable pub exec_routeros : Option ℕ → Option ℕ → Awaits → NativeResult
unfolding routeros_owner
exec_routeros deadline max_tokens a =
    if_some deadline
      (λ at.
        if_some (routeros_owner max_tokens a).sent (λ result. result)
          (err (record { output = no_output; cause = owner_ended; may_have_run = true })))
      (not_started timeout_too_large)
