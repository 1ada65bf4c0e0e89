-- ===== src/Tests/RouterOsExamples.antt =====
-- Native RouterOS commands at concrete channels.
use se_sshion.Base.{Option, none, some, List, [], ◌∷◌, ◌≡◌, refl, true, false, ok, arith}
use se_sshion.Base.Text.{codes}
use se_sshion.RouterOs.{
  ChannelMsg, data_bytes, extended_data, exit_status, close, eof, Waited, ready, stop, drain,
}
use se_sshion.RouterOs.Collected.{Reported, started, drain-Reported}
use se_sshion.RouterOs.Owner.{Awaits, routeros_owner, exec_routeros}
use se_sshion.RouterOs.Owner.Sent.{Answers}
use se_sshion.RouterOs.Owner.Stops.{RequestStop, wait, reason, wait-Answers}

abbrev waits : List (Waited (Option ChannelMsg))
waits =
    ready (some (data_bytes (codes "before-ack ")))
    ∷ ready (some (exit_status 0))
    ∷ ready (some eof)
    ∷ ready (some (data_bytes (codes "after-status")))
    ∷ ready (some (extended_data 1 (codes "stderr")))
    ∷ ready (some close)
    ∷ []

drain-Reported_example :
    Reported (some 3) waits (drain waits (codes "deadline") (started (some 3))).1
drain-Reported_example =
    drain-Reported (some 3) waits (codes "deadline") (omega arith) (omega arith)

abbrev served : Awaits
served = record {
  slot = ready (ok tt);
  connected = ready (ok tt);
  reason_before_open = none;
  opened = ready (ok tt);
  opened_late = ok tt;
  reason_before_exec = none;
  exec = ready (ok tt);
  messages = waits;
  silence = codes "deadline";
}

runs :
    exec_routeros (some 5) (some 3) served
    ≡ ok (record {
      stdout = codes "before-ack a";
      stderr = codes "stderr";
      exit_code = some 0;
      stdout_truncated = true;
      stderr_truncated = false;
      stdout_total_tokens = 6;
      stderr_total_tokens = 2;
    })
unfolding exec_routeros
runs = refl

-- the request is stopped while the channel is opened
abbrev stopped_early : Awaits
stopped_early = record served {
  opened = stop (codes "RouterOS command cancelled");
  reason_before_exec = some (codes "RouterOS command cancelled");
}

-- the token is cancelled during that wait
abbrev running : RequestStop
running = record { shutdown = false; cancelled = false; late = false }

abbrev cancelled : RequestStop
cancelled = record { shutdown = false; cancelled = true; late = false }

wait-Answers_example : Answers (routeros_owner none stopped_early)
wait-Answers_example =
    unfold wait reason in
    wait-Answers none stopped_early running cancelled cancelled (ok tt)
      (record { shutdown = λ h. cc; cancelled = λ h. cc; late = λ h. cc })
      (record { shutdown = λ h. h; cancelled = λ h. h; late = λ h. h }) refl refl
