-- ===== src/Tests/MarkerExamples.antt =====
-- The markers at the outputs of the program's own tests.
use se_sshion.Base.{◌≡◌, refl, ok, err}
use se_sshion.Base.Text.{Text, codes}
use se_sshion.Background.Marker.{
  BackgroundMarkers, parse_background_markers, duplicate_job_id, missing_log, zero_pid, trim_end_cr,
}
use se_sshion.Base.{arith}
use se_sshion.Base.Text.Lines.{any-Lacks}
use se_sshion.Background.Marker.Printed.{IsPrintable, printed, parse_background_markers-printed}
use se_sshion.Background.Marker.Accepted.{AreExpected, parse_background_markers-AreExpected}

abbrev log : Text
log = codes "/tmp/.ssh-mcp-job-abc-123.log"

abbrev markers : BackgroundMarkers
markers = record { job_id = codes "abc-123"; pid = 456; remote_log_path = log }

abbrev crlf_noise : Text
crlf_noise =
    codes
      "noise before\n__SSH_MCP_JOB_ID=abc-123\r\n__SSH_MCP_PID=456\r\n__SSH_MCP_LOG=/tmp/.ssh-mcp-job-abc-123.log\r\nmore"

parses_crlf : parse_background_markers crlf_noise (codes "abc-123") log ≡ ok markers
unfolding parse_background_markers
parses_crlf = refl

parses_duplicate_job :
    parse_background_markers (codes "__SSH_MCP_JOB_ID=a\n__SSH_MCP_JOB_ID=a\n") (codes "a") log
    ≡ err duplicate_job_id
unfolding parse_background_markers
parses_duplicate_job = refl

parses_no_log :
    parse_background_markers (codes "__SSH_MCP_JOB_ID=a\n__SSH_MCP_PID=+7\n") (codes "a") log
    ≡ err missing_log
unfolding parse_background_markers
parses_no_log = refl

parses_zero_pid :
    parse_background_markers
      (codes "__SSH_MCP_JOB_ID=a\n__SSH_MCP_PID=0\n__SSH_MCP_LOG=b")
      (codes "a")
      log
    ≡ err zero_pid
unfolding parse_background_markers
parses_zero_pid = refl

parse_background_markers-AreExpected_example : AreExpected (codes "abc-123") log markers
parse_background_markers-AreExpected_example =
    parse_background_markers-AreExpected crlf_noise (codes "abc-123") log parses_crlf

job-IsPrintable : IsPrintable (codes "abc-123")
unfolding trim_end_cr
job-IsPrintable = (any-Lacks b'\n' (codes "abc-123") refl, refl)

log-IsPrintable : IsPrintable log
unfolding trim_end_cr
log-IsPrintable = (any-Lacks b'\n' log refl, refl)

parse_background_markers-printed_example :
    parse_background_markers (printed (codes "abc-123") 456 log) (codes "abc-123") log ≡ ok markers
parse_background_markers-printed_example =
    parse_background_markers-printed (codes "abc-123") 456 log job-IsPrintable log-IsPrintable
      (omega arith) (omega arith)
