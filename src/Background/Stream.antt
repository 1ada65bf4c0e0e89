-- ===== src/Background/Stream.antt =====
-- src/background/stream.rs: a background job's channel, copied to the job's log until it ends. A
-- channel is the messages that `wait` delivers before it returns nothing; one that delivers
-- nothing more and stays open is left by the wait of 200 ms, in the same way, where an exit code
-- is there.
pub mod Log
pub mod Whole
pub mod Ended
use se_sshion.Base.{
  ℕ, Bool, true, false, not, ◌&&◌, Option, none, some, List, [], ◌∷◌, ◌++◌, ltb, ◌==◌,
  if◌then◌else◌, if_some, Result, ok, err, ◌>>=◌, ◌>>◌,
}
use se_sshion.Base.Integers.{ℤ, pos}
use se_sshion.Base.Lists.{is_nil, take}
use se_sshion.Base.Text.{Text, codes}
use se_sshion.Background.{JobState, mark_exit, mark_state_lost}
use se_sshion.Background.Registry.{Entries, Jobs, get}

abbrev pub Bytes : Type 0
Bytes = List ℕ

pub data JobTerminalUpdate : Type 0 where
  exit : ℤ → JobTerminalUpdate
  state_lost : Text → JobTerminalUpdate

unfoldable pub truncate_state_reason : Text → Text
truncate_state_reason input = take 160 input

unfoldable pub clamp_exit_status : ℕ → ℤ
clamp_exit_status exit_status = if ltb 255 exit_status then pos 255 else pos exit_status

pub data Sig : Type 0 where
  hup int quit ill abrt fpe kill usr1 segv pipe alrm term custom : Sig

unfoldable pub signal_code : Sig → ℤ
signal_code hup = pos 129
signal_code int = pos 130
signal_code quit = pos 131
signal_code ill = pos 132
signal_code abrt = pos 134
signal_code fpe = pos 136
signal_code kill = pos 137
signal_code usr1 = pos 138
signal_code segv = pos 139
signal_code pipe = pos 141
signal_code alrm = pos 142
signal_code term = pos 143
signal_code custom = pos 128

pub data ChannelMsg : Type 0 where
  data_bytes extended_data : Bytes → ChannelMsg
  exit_status : ℕ → ChannelMsg
  exit_signal : Sig → ChannelMsg
  close eof other : ChannelMsg

-- a message, and whether it comes within 200 ms of the wait for it
abbrev pub Event : Type 0
Event = ChannelMsg × Bool

abbrev pub is_some {ℓ} : {A : Type ℓ} → Option A → Bool
is_some none = false
is_some (some a) = true

pub record Progress (File : Type 0) : Type 0 where
  pub file : File
  pub exit_code : Option ℤ
  pub saw_close_or_eof : Bool

-- The wait is bounded, and the message comes too late.
abbrev pub timed_out : {File : Type 0} → Progress File → Bool → Bool
timed_out p in_time = is_some p.exit_code && (not p.saw_close_or_eof && not in_time)

-- To append bytes to the log file and flush it can fail.
module _ {File Fault : Type 0} (append : Bytes → File → Result Fault File) where
  -- what a message does, and whether the loop stops behind it
  unfoldable pub receive : ChannelMsg → Progress File → Result Fault (Progress File × Bool)
  unfolding clamp_exit_status signal_code
  receive (data_bytes bytes) p = do file ← append bytes p.file; ok (record p { file = file }, false)
  receive (extended_data bytes) p = do
    file ← append bytes p.file
    ok (record p { file = file }, false)
  receive (exit_status status) p =
      ok (record p { exit_code = some (clamp_exit_status status) }, false)
  receive (exit_signal signal) p = ok (record p { exit_code = some (signal_code signal) }, false)
  receive close p = ok (record p { saw_close_or_eof = true }, is_some p.exit_code)
  receive eof p = ok (record p { saw_close_or_eof = true }, is_some p.exit_code)
  receive other p = ok (p, false)

  unfoldable pub stream_loop : Progress File → List Event → Result Fault (Progress File)
  unfolding receive
  stream_loop p [] = ok p
  stream_loop p ((msg, in_time) ∷ events) =
      let received = receive msg p >>= λ r. if r.1 then ok r.0 else stream_loop r.0 events in
      if timed_out p in_time then ok p else received

  -- `opened` is the outcome of `open_append_no_symlink`, and `sync` synchronizes the file; its
  -- last state is returned too.
  unfoldable pub stream_channel_inner :
      (File → Result Fault (Unit {0}))
      → Result Fault File
      → Bytes
      → List Event
      → Result Fault (Option ℤ × File)
  unfolding stream_loop
  stream_channel_inner sync opened initial_stdout events = do
    opened_file ← opened
    file ← (if is_nil initial_stdout then ok opened_file else append initial_stdout opened_file)
    p ← stream_loop (record { file = file; exit_code = none; saw_close_or_eof = false }) events
    sync p.file
    ok (p.exit_code, p.file)

-- what `stream_channel` makes of the outcome; `message` prints an error
unfoldable pub terminal_update :
    {File Fault : Type 0} → (Fault → Text) → Result Fault (Option ℤ × File) → JobTerminalUpdate
unfolding truncate_state_reason
terminal_update message (ok (some code, file)) = exit code
terminal_update message (ok (none, file)) =
    state_lost (codes "background_channel_closed_without_exit_status")
terminal_update message (err e) =
    state_lost (codes "background_stream_error: " ++ truncate_state_reason (message e))

unfoldable pub apply_update : ℕ → JobTerminalUpdate → JobState → JobState
unfolding mark_exit mark_state_lost
apply_update now (exit code) job = mark_exit now code job
apply_update now (state_lost reason) job = mark_state_lost now reason job

-- the jobs afterwards, and the state that is persisted
unfoldable pub update_job_terminal :
    ℕ → Text → Entries → JobTerminalUpdate → Jobs → Jobs × Option JobState
unfolding get apply_update
update_job_terminal now job_id entries update jobs =
    if_some (get job_id entries)
      (λ job.
        let ended = apply_update now update (jobs job) in
        (λ other. if other == job then ended else jobs other, some ended))
      (jobs, none)
