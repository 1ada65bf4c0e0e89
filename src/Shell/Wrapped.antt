-- ===== src/Shell/Wrapped.antt =====
-- A shell reads the quoted arguments of the wrapped commands as the texts that were wrapped.
use se_sshion.Base.Text.Lines.{any-Lacks}
use se_sshion.Base.{
  Bool, true, false, none, some, [], ◌∷◌, ◌++◌, ◌≡◌, refl, ap, ◌∙◌, if◌then◌else◌, append-nil, sym,
  append_assoc,
}
use se_sshion.Base.Text.{Text, codes}
use se_sshion.Shell.{
  escape_for_shell, wrap_in_posix_shell, wrap_sudo_command, build_background_wrapper_script,
}
use se_sshion.Shell.Quoting.{PosixReader, bare, read_quoted, read_plain}

-- what the background wrapper prints of the job, its process and its log
abbrev pub marker_commands : Text → Text
marker_commands job_id =
    codes " printf '%s\n' \"__SSH_MCP_JOB_ID="
    ++ (job_id
        ++ codes "\"; printf '%s\n' \"__SSH_MCP_PID=$$\"; printf '%s\n' \"__SSH_MCP_LOG=$LOG\"; ")

module _ (shell : PosixReader) where
  open shell use {read, open_single, at_end, at_blank, at_semicolon}

  -- `text` starts, in the quoting that is on there, with the word `word`, and `behind` follows.
  abbrev pub ReadsWord : Text → Text → Text → Type 0
  ReadsWord text word behind = read bare text ≡ some (word, behind)

  -- `'escaped'` at the end of a line
  last_word : (s : Text) → ReadsWord (b'\'' ∷ (escape_for_shell s ++ codes "'")) s []
  last_word s =
      open_single _ ∙ read_quoted shell [] s [] [] at_end ∙ ap (λ w. some (w, [])) (append-nil s)

  blank_word :
      (s rest : Text)
      → ReadsWord (b'\'' ∷ (escape_for_shell s ++ (b'\'' ∷ b' ' ∷ rest))) s (b' ' ∷ rest)
  blank_word s rest =
      open_single _
      ∙ read_quoted shell [] s (b' ' ∷ rest) [] (at_blank rest)
      ∙ ap (λ w. some (w, b' ' ∷ rest)) (append-nil s)

  semicolon_word :
      (s rest : Text)
      → ReadsWord (b'\'' ∷ (escape_for_shell s ++ (b'\'' ∷ b';' ∷ rest))) s (b';' ∷ rest)
  semicolon_word s rest =
      open_single _
      ∙ read_quoted shell [] s (b';' ∷ rest) [] (at_semicolon rest)
      ∙ ap (λ w. some (w, b';' ∷ rest)) (append-nil s)

  -- `sh -c` or `sh -lc` is given the command itself as its one argument, whatever it holds.
  pub wrap_in_posix_shell-ReadsWord :
      (command : Text) (login : Bool)
      → (quoted : Text) × (wrap_in_posix_shell command login
          ≡ (if login then codes "sh -lc " else codes "sh -c ") ++ quoted)
        × ReadsWord quoted command []
  unfolding wrap_in_posix_shell
  wrap_in_posix_shell-ReadsWord command true =
      (b'\'' ∷ (escape_for_shell command ++ codes "'"), refl, last_word command)
  wrap_in_posix_shell-ReadsWord command false =
      (b'\'' ∷ (escape_for_shell command ++ codes "'"), refl, last_word command)

  -- The piped password and the elevated command are each read back as they are.
  pub wrap_sudo_command-ReadsWord :
      (command password : Text)
      → (first : Text) × (second : Text) × (wrap_sudo_command command (some password)
          ≡ codes "printf '%s\\n' " ++ first)
        × ReadsWord first password (codes " | sudo -S -p '' sh -c " ++ second)
        × ReadsWord second command []
        × (wrap_sudo_command command none ≡ codes "sudo -n sh -c " ++ second)
  unfolding wrap_sudo_command
  wrap_sudo_command-ReadsWord command password =
      let second : Text = b'\'' ∷ (escape_for_shell command ++ codes "'") in
      (
        b'\''
            ∷ (escape_for_shell password ++ (b'\'' ∷ (codes " | sudo -S -p '' sh -c " ++ second))),
        second,
        refl,
        blank_word password _,
        last_word command,
        refl,
      )

  -- The background wrapper is the assignment of a word to LOG, the three commands that print the
  -- markers, with the job's id as it is between the double quotes of the first, and `exec sh -c`
  -- with a word. A shell reads the first word as the log path, up to the semicolon, and the second
  -- as the setup and the user's command, up to the end.
  pub build_background_wrapper_script-ReadsWord :
      (job_id command log_path : Text)
      → (first : Text) × (second : Text) × (build_background_wrapper_script job_id command log_path
          ≡ codes "LOG=" ++ first)
        × ReadsWord first log_path
            (b';' ∷ (marker_commands job_id ++ (codes "exec sh -c " ++ second)))
        × ReadsWord second (codes "set +m; " ++ command) []
  unfolding build_background_wrapper_script
  build_background_wrapper_script-ReadsWord job_id command log_path =
      let setup : Text = codes "set +m; " in
      let second : Text = b'\'' ∷ (setup ++ (escape_for_shell command ++ codes "'")) in
      let markers : Text =
        codes "\"; printf '%s\n' \"__SSH_MCP_PID=$$\"; printf '%s\n' \"__SSH_MCP_LOG=$LOG\"; " in
      let middle : Text = marker_commands job_id in
      let last : Text = codes "exec sh -c " ++ second in
      (
        b'\'' ∷ (escape_for_shell log_path ++ (b'\'' ∷ b';' ∷ (middle ++ last))),
        second,
        ap
            (λ t.
              codes "LOG='"
              ++ (escape_for_shell log_path ++ (codes "'; printf '%s\n' \"__SSH_MCP_JOB_ID=" ++ t)))
            (sym (append_assoc job_id markers last)),
        semicolon_word log_path (middle ++ last),
        open_single _
            ∙ read_plain shell setup (escape_for_shell command ++ codes "'")
                (any-Lacks b'\'' setup refl)
            ∙ read_quoted shell setup command [] [] at_end
            ∙ ap (λ w. some (setup ++ w, [])) (append-nil command),
      )
