-- ===== src/Shell.antt =====
-- src/shell_escape.rs, src/ssh/sanitize.rs, src/ssh/elevation.rs and src/background/wrapper.rs: how
-- a command is checked, quoted and wrapped before a remote shell reads it.
pub mod Quoting
pub mod Wrapped
pub mod Checked
pub mod Pattern
use se_sshion.Base.{
  ℕ, Bool, true, false, not, ◌&&◌, Option, none, some, List, [], ◌∷◌, ◌++◌, ltb, ◌==◌,
  if◌then◌else◌, Result, ok, err, ◌>>◌, reject_if,
}
use se_sshion.Base.Lists.{is_nil, any}
use se_sshion.Base.Text.{Text, codes, trim, utf8_len}

-- `s.replace(c, text)` for one character
unfoldable pub replace : ℕ → Text → Text → Text
replace c text [] = []
replace c text (x ∷ xs) = if x == c then text ++ replace c text xs else x ∷ replace c text xs

-- `shell_escape::escape_for_shell`, which `elevation::escape_for_shell` and
-- `sanitize::escape_for_timeout_wrapper` only call
unfoldable pub escape_for_shell : Text → Text
unfolding replace
escape_for_shell s = replace b'\'' (codes "'\"'\"'") s

unfoldable pub escape_command_for_shell : Text → Text
unfolding replace escape_for_shell
escape_command_for_shell command = escape_for_shell (
    replace b'|' (codes "\\|") (
      replace b')' (codes "\\)") (
        replace b'(' (codes "\\(") (
          replace b'`' (codes "\\`")
            (replace b'$' (codes "\\$") (replace b'\\' (codes "\\\\") command))))))

unfoldable pub wrap_in_posix_shell : Text → Bool → Text
unfolding escape_for_shell
wrap_in_posix_shell command login =
    let escaped = escape_for_shell command in
    if login
    then codes "sh -lc '" ++ (escaped ++ codes "'")
    else codes "sh -c '" ++ (escaped ++ codes "'")

unfoldable pub wrap_sudo_command : Text → Option Text → Text
unfolding escape_for_shell
wrap_sudo_command command none = codes "sudo -n sh -c '" ++ (escape_for_shell command ++ codes "'")
wrap_sudo_command command (some password) =
    codes "printf '%s\\n' '"
    ++ (escape_for_shell password
        ++ (codes "' | sudo -S -p '' sh -c '" ++ (escape_for_shell command ++ codes "'")))

unfoldable pub remote_job_log_path : Text → Text
remote_job_log_path job_id = codes "/tmp/.ssh-mcp-job-" ++ (job_id ++ codes ".log")

-- The backslash at a line's end in the source's literal drops the line break and the indentation.
unfoldable pub build_background_wrapper_script : Text → Text → Text → Text
unfolding escape_for_shell
build_background_wrapper_script job_id user_command log_path =
    codes "LOG='"
    ++ (escape_for_shell log_path
        ++ (codes "'; printf '%s\n' \"__SSH_MCP_JOB_ID="
            ++ (job_id
                ++ (codes
                      "\"; printf '%s\n' \"__SSH_MCP_PID=$$\"; printf '%s\n' \"__SSH_MCP_LOG=$LOG\"; exec sh -c 'set +m; "
                    ++ (escape_for_shell user_command ++ codes "'")))))

pub data CommandFault : Type 0 where
  empty : CommandFault
  too_long : ℕ → ℕ → CommandFault

-- the length check of `sanitize_command`, against a limit in bytes
unfoldable pub over_limit : Option ℕ → Text → Bool
unfolding utf8_len
over_limit none trimmed = false
over_limit (some max) trimmed = ltb max (utf8_len trimmed)

abbrev or_zero : Option ℕ → ℕ
or_zero none = 0
or_zero (some max) = max

-- `sanitize_command` behind its `trim`
unfoldable pub check_trimmed : Option ℕ → Text → Result CommandFault Text
unfolding over_limit
check_trimmed max_chars trimmed = do
  reject_if (is_nil trimmed) empty
  reject_if (over_limit max_chars trimmed) (too_long (or_zero max_chars) (utf8_len trimmed))
  ok trimmed

unfoldable pub sanitize_command : Text → Option ℕ → Result CommandFault Text
unfolding trim check_trimmed
sanitize_command command max_chars = check_trimmed max_chars (trim command)

unfoldable pub is_valid_password : Text → Bool
unfolding trim
is_valid_password password = not (is_nil (trim password)) && not (any (λ c. c == 0) password)

-- `elevation::sanitize_password`
unfoldable pub sanitize_password : Option Text → Option Text
unfolding trim
sanitize_password none = none
sanitize_password (some password) =
    let trimmed = trim password in if is_nil trimmed then none else some trimmed
