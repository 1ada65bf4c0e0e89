-- ===== src/Transfer.antt =====
-- src/transfer/types.rs: what a transfer is asked for and what it answers.
use se_sshion.Base.{ℕ, Bool, true, false, Option, none, some, []}
use se_sshion.Base.Text.{Text}

pub data TransferOperation : Type 0 where
  put get : TransferOperation

pub data TransferTransport : Type 0 where
  exec_raw sftp scp rsync : TransferTransport

pub data TransferKind : Type 0 where
  file directory : TransferKind

pub record RsyncOptions : Type 0 where
  pub checksum : Bool
  pub compress : Bool
  pub delete : Bool
  pub inplace : Bool
  pub partial : Bool
  pub bwlimit : Option ℕ

abbrev pub default_rsync_options : RsyncOptions
default_rsync_options = record {
  checksum = true;
  compress = false;
  delete = false;
  inplace = true;
  partial = true;
  bwlimit = none;
}

pub record TransferParams : Type 0 where
  pub operation : TransferOperation
  pub local_path : Text
  pub remote_path : Text
  pub transport : TransferTransport
  pub kind : Option TransferKind
  pub overwrite : Bool
  pub timeout_ms : Option ℕ
  pub background : Bool
  pub verbose : Bool
  pub rsync_options : RsyncOptions

abbrev pub default_params : TransferParams
default_params = record {
  operation = put;
  local_path = [];
  remote_path = [];
  transport = exec_raw;
  kind = none;
  overwrite = false;
  timeout_ms = none;
  background = false;
  verbose = false;
  rsync_options = default_rsync_options;
}

pub data TransferProgressTarget : Type 0 where
  local remote : Text → TransferProgressTarget

pub data TransferEvent : Type 0 where
  preparing_event finalizing_event : TransferEvent
  transferring_event : TransferTransport → TransferEvent
  file_stage : TransferProgressTarget → Option ℕ → TransferEvent

pub record TransferCounts : Type 0 where
  pub bytes : ℕ
  pub files : ℕ
  pub directories : ℕ

pub record StagingLocal : Type 0 where
  pub staging_path : Text
  pub backup_path : Option Text
  pub final_path : Text

pub record StagingRemote : Type 0 where
  pub staging_path : Text
  pub backup_path : Option Text
  pub final_path : Text
  pub staging_base_home : Text

pub record TransferStaging : Type 0 where
  pub local_staging : Option StagingLocal
  pub remote_staging : Option StagingRemote

pub record TransferResponse : Type 0 where
  pub succeeded : Bool
  pub error : Option Text
  pub params : TransferParams
  pub kind : Option TransferKind
  pub transport_used : TransferTransport
  pub remote_home : Option Text
  pub local_root : Text
  -- `ResolvedPaths` has the local path alone
  pub resolved_paths : Option Text
  pub staging : Option TransferStaging
  pub counts : Option TransferCounts
  pub elapsed_ms : Option ℕ
  pub semantics : Option Text

unfoldable pub ok_stub : TransferParams → TransferTransport → Text → Text → TransferResponse
ok_stub params transport_used remote_home local_root = record {
  succeeded = false;
  error = none;
  params = params;
  kind = none;
  transport_used = transport_used;
  remote_home = some remote_home;
  local_root = local_root;
  resolved_paths = none;
  staging = none;
  counts = none;
  elapsed_ms = none;
  semantics = none;
}

unfoldable pub error_response : TransferParams → Text → Text → TransferResponse
error_response params local_root msg = record {
  succeeded = false;
  error = some msg;
  params = params;
  kind = none;
  transport_used = params.transport;
  remote_home = none;
  local_root = local_root;
  resolved_paths = none;
  staging = none;
  counts = none;
  elapsed_ms = none;
  semantics = none;
}

unfoldable pub set_error : Text → TransferResponse → TransferResponse
set_error msg r = record r { succeeded = false; error = some msg }

pub record CompactTransferResponse : Type 0 where
  pub succeeded : Bool
  pub error : Option Text
  pub kind : Option TransferKind
  pub transport_used : TransferTransport
  pub local_path : Text
  pub remote_path : Text
  pub counts : Option TransferCounts
  pub elapsed_ms : Option ℕ

unfoldable pub to_compact : TransferResponse → CompactTransferResponse
to_compact r = record {
  succeeded = r.succeeded;
  error = r.error;
  kind = r.kind;
  transport_used = r.transport_used;
  local_path = r.params.local_path;
  remote_path = r.params.remote_path;
  counts = r.counts;
  elapsed_ms = r.elapsed_ms;
}
