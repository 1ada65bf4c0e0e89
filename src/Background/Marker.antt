-- ===== src/Background/Marker.antt =====
-- src/background/marker.rs: `parse_background_markers`, on the lines that the wrapper of
-- src/background/wrapper.rs prints in front of the job's own output.
pub mod Accepted
pub mod Digits
pub mod Printed
use se_sshion.Base.{
  ℕ, ◌+◌, ◌-◌, ◌*◌, ◌^◌, Bool, true, false, not, ◌&&◌, Option, none, some, List, [], ◌∷◌, ◌++◌, ltb,
  leb, ◌==◌, if◌then◌else◌, if_some, Result, ok, err, ◌>>=◌, ◌>>◌, reject_if, ok_or,
}
use se_sshion.Base.Lists.{is_nil}
use se_sshion.Base.Text.Reading.{without_last_empty}
use se_sshion.Base.Text.{Text, codes, text_eq, strip_prefix, split}

pub record BackgroundMarkers : Type 0 where
  pub job_id : Text
  pub pid : ℕ
  pub remote_log_path : Text

pub data MarkerFault : Type 0 where
  duplicate_job_id duplicate_pid duplicate_log : MarkerFault
  invalid_pid : Text → MarkerFault
  missing_job_id missing_pid missing_log zero_pid : MarkerFault
  unexpected_job_id unexpected_log : Text → Text → MarkerFault

-- `trim_end_matches('\r')`, and with it the one that `lines` takes off
unfoldable pub trim_end_cr : Text → Text
trim_end_cr [] = []
trim_end_cr (c ∷ cs) =
    let rest = trim_end_cr cs in if is_nil rest && c == b'\r' then [] else c ∷ rest

-- The digits of a number that fits in 32 bits.
unfoldable pub u32_digits : ℕ → Text → Option ℕ
u32_digits value [] = some value
u32_digits value (c ∷ cs) =
    let next = value * 10 + (c - b'0') in
    let rest = u32_digits next cs in
    if leb b'0' c && (leb c b'9' && ltb next (2 ^ 32)) then rest else none

unfoldable pub some_digits : Text → Option ℕ
unfolding u32_digits
some_digits [] = none
some_digits (c ∷ cs) = u32_digits 0 (c ∷ cs)

-- `u32::from_str`, which takes one plus sign in front
unfoldable pub parse_u32 : Text → Option ℕ
unfolding some_digits
parse_u32 [] = none
parse_u32 (c ∷ cs) = if c == b'+' then some_digits cs else some_digits (c ∷ cs)

-- the three values so far
pub record Found : Type 0 where
  pub job_id : Option Text
  pub pid : Option ℕ
  pub log_path : Option Text

abbrev pub is_some {ℓ} : {A : Type ℓ} → Option A → Bool
is_some none = false
is_some (some a) = true

unfoldable pub job_id_line : Text → Found → Result MarkerFault Found
job_id_line rest found = do
  reject_if (is_some found.job_id) duplicate_job_id
  ok (record found { job_id = some rest })

unfoldable pub pid_line : Text → Found → Result MarkerFault Found
unfolding parse_u32
pid_line rest found = do
  reject_if (is_some found.pid) duplicate_pid
  parsed_pid ← ok_or (parse_u32 rest) (invalid_pid rest)
  ok (record found { pid = some parsed_pid })

unfoldable pub log_line : Text → Found → Result MarkerFault Found
log_line rest found = do
  reject_if (is_some found.log_path) duplicate_log
  ok (record found { log_path = some rest })

-- one round of the loop
unfoldable pub marker_line : Text → Found → Result MarkerFault Found
unfolding strip_prefix job_id_line pid_line log_line
marker_line line found =
    if_some (strip_prefix (codes "__SSH_MCP_JOB_ID=") line) (λ rest. job_id_line rest found)
      (if_some (strip_prefix (codes "__SSH_MCP_PID=") line) (λ rest. pid_line rest found)
        (if_some (strip_prefix (codes "__SSH_MCP_LOG=") line) (λ rest. log_line rest found)
          (ok found)))

unfoldable pub marker_lines : List Text → Found → Result MarkerFault Found
unfolding marker_line trim_end_cr
marker_lines [] found = ok found
marker_lines (raw_line ∷ lines) found = do
  found' ← marker_line (trim_end_cr raw_line) found
  marker_lines lines found'

-- the checks behind the loop
unfoldable pub check_found : Text → Text → Found → Result MarkerFault BackgroundMarkers
unfolding text_eq
check_found expected_job_id expected_log_path found = do
  job_id ← ok_or found.job_id missing_job_id
  pid ← ok_or found.pid missing_pid
  log_path ← ok_or found.log_path missing_log
  reject_if (pid == 0) zero_pid
  reject_if (not (text_eq job_id expected_job_id)) (unexpected_job_id job_id expected_job_id)
  reject_if (not (text_eq log_path expected_log_path)) (unexpected_log log_path expected_log_path)
  ok (record { job_id = job_id; pid = pid; remote_log_path = log_path })

unfoldable pub parse_background_markers : Text → Text → Text → Result MarkerFault BackgroundMarkers
unfolding marker_lines check_found split without_last_empty
parse_background_markers stdout expected_job_id expected_log_path = do
  found ←
      marker_lines (without_last_empty (split b'\n' stdout))
        (record { job_id = none; pid = none; log_path = none })
  check_found expected_job_id expected_log_path found
