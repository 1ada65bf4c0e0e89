-- ===== src/Tests/ShellExamples.antt =====
-- The properties of the quoting at concrete commands.
use se_sshion.Base.{
  ℕ, true, false, Option, none, some, [], ◌∷◌, ◌++◌, ◌≡◌, ◌≢◌, refl, arith, ◌==◌, ◌||◌, ok,
}
use se_sshion.Base.Text.{Text, codes}
use se_sshion.Shell.{
  wrap_in_posix_shell, wrap_sudo_command, build_background_wrapper_script, sanitize_command,
  escape_command_for_shell, remote_job_log_path,
}
use se_sshion.Shell.Quoting.{Quoting, bare, single, double, push, PosixReader}
use se_sshion.Shell.Wrapped.{
  ReadsWord, wrap_in_posix_shell-ReadsWord, wrap_sudo_command-ReadsWord,
  build_background_wrapper_script-ReadsWord, marker_commands,
}
use se_sshion.Shell.Checked.{IsWithin, sanitize_command_idem}
use se_sshion.Shell.Pattern.{escaped_once, escape_command_for_shell-once}

-- a reader with no expansion and no escape character
unfoldable read_word : Quoting → Text → Option (Text × Text)
read_word bare [] = some ([], [])
read_word single [] = none
read_word double [] = none
read_word bare (c ∷ s) = elim (c == b'\'') [
  | true ↦ read_word single s
  | false ↦ elim (c == b'"') [
    | true ↦ read_word double s
    | false ↦ elim (c == b' ' || c == b';') [
      | true ↦ some ([], c ∷ s)
      | false ↦ push c (read_word bare s)
    ]
  ]
]
read_word single (c ∷ s) = elim (c == b'\'') [
  | true ↦ read_word bare s
  | false ↦ push c (read_word single s)
]
read_word double (c ∷ s) = elim (c == b'"') [
  | true ↦ read_word bare s
  | false ↦ push c (read_word double s)
]

read_word-in_single :
    (c : ℕ) (s : Text) → c ≢ b'\'' → read_word single (c ∷ s) ≡ push c (read_word single s)
unfolding read_word
read_word-in_single c s h = ground arith

abbrev reader : PosixReader
unfolding read_word
reader = record {
  read = read_word;
  open_single = λ s. refl;
  close_single = λ s. refl;
  in_single = read_word-in_single;
  open_double = λ s. refl;
  close_double = λ s. refl;
  quote_in_double = λ s. refl;
  at_end = refl;
  at_blank = λ s. refl;
  at_semicolon = λ s. refl;
}

abbrev command : Text
command = codes "echo 'it''s' && rm -rf \"$DIR\""

wrap_in_posix_shell-ReadsWord_example :
    (quoted : Text) × (wrap_in_posix_shell command true ≡ codes "sh -lc " ++ quoted)
    × ReadsWord reader quoted command []
wrap_in_posix_shell-ReadsWord_example = wrap_in_posix_shell-ReadsWord reader command true

wrap_sudo_command-ReadsWord_example :
    (first : Text) × (second : Text) × (wrap_sudo_command command (some (codes "pa'ss"))
      ≡ codes "printf '%s\\n' " ++ first)
    × ReadsWord reader first (codes "pa'ss") (codes " | sudo -S -p '' sh -c " ++ second)
    × ReadsWord reader second command []
    × (wrap_sudo_command command none ≡ codes "sudo -n sh -c " ++ second)
wrap_sudo_command-ReadsWord_example = wrap_sudo_command-ReadsWord reader command (codes "pa'ss")

abbrev log_path : Text
log_path = codes "/tmp/.ssh-mcp-job-7.log"

build_background_wrapper_script-ReadsWord_example :
    (first : Text) × (second : Text) × (build_background_wrapper_script (codes "7") command log_path
      ≡ codes "LOG=" ++ first)
    × ReadsWord reader first log_path
        (b';' ∷ (marker_commands (codes "7") ++ (codes "exec sh -c " ++ second)))
    × ReadsWord reader second (codes "set +m; " ++ command) []
build_background_wrapper_script-ReadsWord_example =
    build_background_wrapper_script-ReadsWord reader (codes "7") command log_path

names_log : remote_job_log_path (codes "7") ≡ log_path
unfolding remote_job_log_path
names_log = refl

sanitizes : sanitize_command (codes "  uptime \n") (some 10) ≡ ok (codes "uptime")
unfolding sanitize_command
sanitizes = refl

sanitize_command_idem_example :
    (codes "uptime" ≢ [])
    × IsWithin (some 10) (codes "uptime")
    × (sanitize_command (codes "uptime") (some 10) ≡ ok (codes "uptime"))
sanitize_command_idem_example = sanitize_command_idem (codes "  uptime \n") (some 10) sanitizes

escape_command_for_shell-once_example : escape_command_for_shell command ≡ escaped_once command
escape_command_for_shell-once_example = escape_command_for_shell-once command
