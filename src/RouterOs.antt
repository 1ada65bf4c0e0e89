-- ===== src/RouterOs.antt =====
-- src/ssh/routeros.rs: what a native RouterOS command puts out, up to a limit, and how it ends.
pub mod Prefix
pub mod Packets
pub mod Collected
pub mod Owner
use se_sshion.Base.{
  ℕ, ◌-◌, Bool, true, false, Option, none, some, List, [], ◌∷◌, ◌++◌, ltb, ◌==◌, if◌then◌else◌,
  if_some, Result, ok, err,
}
use se_sshion.Base.Lists.{length, take}
use se_sshion.Base.Text.{Text}
use se_sshion.Base.Text.Utf8.{Bytes, from_utf8_lossy}
use se_sshion.Base.Words.{saturating_add, saturating_mul, div_ceil}
use se_sshion.Background.Stream.{Sig}
use Prim.Native.Nat.{min}

abbrev pub bytes_per_token : ℕ
bytes_per_token = 4

pub record BytePrefix : Type 0 where
  pub bytes : Bytes
  pub total_bytes : ℕ

abbrev pub no_bytes : BytePrefix
no_bytes = record { bytes = []; total_bytes = 0 }

unfoldable pub append : Option ℕ → Bytes → BytePrefix → BytePrefix
append limit bytes p = record {
  bytes =
      p.bytes
      ++ take (if_some limit (λ n. min (n - length p.bytes) (length bytes)) (length bytes)) bytes;
  total_bytes = saturating_add p.total_bytes (length bytes);
}

-- the text, whether bytes were left out, and the count of tokens
unfoldable pub finish_prefix : BytePrefix → Text × Bool × ℕ
unfolding from_utf8_lossy
finish_prefix p = (
  from_utf8_lossy p.bytes,
  ltb (length p.bytes) p.total_bytes,
  div_ceil p.total_bytes bytes_per_token,
)

pub data ChannelMsg : Type 0 where
  data_bytes : Bytes → ChannelMsg
  extended_data : ℕ → Bytes → ChannelMsg
  exit_status : ℕ → ChannelMsg
  exit_signal : Sig → ChannelMsg
  failure close eof success other : ChannelMsg

-- why a command did not succeed; `stopped` has the text of `RequestStop::reason`
pub data Cause : Type 0 where
  signalled : Sig → Cause
  rejected no_exit_status no_close : Cause
  stopped reported not_enqueued : Text → Cause
  owner_ended timeout_too_large : Cause

pub record Collector : Type 0 where
  pub stdout : BytePrefix
  pub stderr : BytePrefix
  pub limit : Option ℕ
  pub exit_code : Option ℕ
  pub exit_signal : Option Sig
  pub may_have_run : Bool

abbrev pub limit_of : Option ℕ → Option ℕ
limit_of none = none
limit_of (some tokens) = some (saturating_mul tokens bytes_per_token)

unfoldable pub new_collector : Option ℕ → Collector
new_collector max_tokens = record {
  stdout = no_bytes;
  stderr = no_bytes;
  limit = limit_of max_tokens;
  exit_code = none;
  exit_signal = none;
  may_have_run = false;
}

-- the end of a closed channel
abbrev closed_result : Option Sig → Option ℕ → Result Cause (Unit {0})
closed_result (some signal) code = err (signalled signal)
closed_result none none = err no_exit_status
closed_result none (some code) = ok tt

-- `none` means that the channel is still to be drained
unfoldable pub event : Option ChannelMsg → Collector → Option (Result Cause (Unit {0})) × Collector
unfolding append
event (some (data_bytes bytes)) c = (none, record c { stdout = append c.limit bytes c.stdout })
event (some (extended_data ext bytes)) c =
    if ext == 1
    then (none, record c { stderr = append c.limit bytes c.stderr })
    else (none, record c { stdout = append c.limit bytes c.stdout })
event (some (exit_status status)) c = (none, record c { exit_code = some status })
event (some (exit_signal signal)) c = (none, record c { exit_signal = some signal })
event (some failure) c = (some (err rejected), record c { may_have_run = false })
event (some close) c = (some (closed_result c.exit_signal c.exit_code), c)
event (some eof) c = (none, c)
event (some success) c = (none, c)
event (some other) c = (none, c)
event none c = (some (err no_close), c)

pub record CommandOutput : Type 0 where
  pub stdout : Text
  pub stderr : Text
  pub exit_code : Option ℕ
  pub stdout_truncated : Bool
  pub stderr_truncated : Bool
  pub stdout_total_tokens : ℕ
  pub stderr_total_tokens : ℕ

pub record RouterOsExecFailure : Type 0 where
  pub output : CommandOutput
  pub cause : Cause
  pub may_have_run : Bool

abbrev pub NativeResult : Type 0
NativeResult = Result RouterOsExecFailure CommandOutput

abbrev output_of : Collector → CommandOutput
output_of c = record {
  stdout = (finish_prefix c.stdout).0;
  stderr = (finish_prefix c.stderr).0;
  exit_code = c.exit_code;
  stdout_truncated = (finish_prefix c.stdout).1;
  stderr_truncated = (finish_prefix c.stderr).1;
  stdout_total_tokens = (finish_prefix c.stdout).2;
  stderr_total_tokens = (finish_prefix c.stderr).2;
}

unfoldable pub finish : Result Cause (Unit {0}) → Collector → NativeResult
unfolding finish_prefix
finish (ok done) c = ok (output_of c)
finish (err cause) c =
    err (record { output = output_of c; cause = cause; may_have_run = c.may_have_run })

-- What `RequestStop::wait` gives: the operation's value, or the reason to stop.
pub data Waited {ℓ} (A : Type ℓ) : Type ℓ where
  ready : A → Waited A
  stop : Text → Waited A

-- The loop that drains the channel. The list holds what the waits give; the last argument is the
-- reason that ends a wait on a silent channel, which its deadline bounds.
unfoldable pub drain :
    List (Waited (Option ChannelMsg)) → Text → Collector → Result Cause (Unit {0}) × Collector
unfolding event
drain [] silence c = (err (stopped silence), c)
drain (stop reason ∷ waits) silence c = (err (stopped reason), c)
drain (ready message ∷ waits) silence c =
    let more = drain waits silence (event message c).1 in
    if_some (event message c).0 (λ result. (result, (event message c).1)) more
