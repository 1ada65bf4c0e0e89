-- ===== src/Shell/Checked.antt =====
-- What `sanitize_command` lets through.
use se_sshion.Base.{ℕ, false, Option, none, some, [], ◌≡◌, ◌≢◌, ◌≤◌, sym, ap, ◌∙◌, arith, subst, ok}
use se_sshion.Base.Lists.{is_nil}
use se_sshion.Base.Text.{Text, trim, utf8_len}
use se_sshion.Base.Text.Trim.{trim_idem}
use se_sshion.Shell.{check_trimmed, over_limit, sanitize_command}

-- The text holds no more bytes than the limit allows.
abbrev pub IsWithin : Option ℕ → Text → Type 0
IsWithin none s = Unit
IsWithin (some max) s = utf8_len s ≤ max

over_limit-IsWithin :
    (max_chars : Option ℕ) (s : Text) → over_limit max_chars s ≡ false → IsWithin max_chars s
unfolding over_limit
over_limit-IsWithin none s h = tt
over_limit-IsWithin (some max) s h = ground arith

check_trimmed-eq-ok :
    (max_chars : Option ℕ) (trimmed : Text) {sent : Text}
    → check_trimmed max_chars trimmed ≡ ok sent
    → (sent ≡ trimmed) × (is_nil trimmed ≡ false) × (over_limit max_chars trimmed ≡ false)
unfolding check_trimmed
check_trimmed-eq-ok max_chars trimmed h = ground arith

-- A command that is let through is not empty, holds no more bytes than the limit, and is let
-- through again as it is.
pub sanitize_command_idem :
    (command : Text) (max_chars : Option ℕ) {sent : Text}
    → sanitize_command command max_chars ≡ ok sent
    → (sent ≢ []) × IsWithin max_chars sent × (sanitize_command sent max_chars ≡ ok sent)
unfolding sanitize_command
sanitize_command_idem command max_chars {sent} h =
    let (sent_is, some_left, fits) = check_trimmed-eq-ok max_chars (trim command) h in
    (
      λ e. cc (rw (← sent_is, e) at some_left),
      subst (IsWithin max_chars) (sym sent_is) (over_limit-IsWithin max_chars (trim command) fits),
      ap (λ s. check_trimmed max_chars (trim s)) sent_is
          ∙ ap (check_trimmed max_chars) (trim_idem command)
          ∙ h,
    )
