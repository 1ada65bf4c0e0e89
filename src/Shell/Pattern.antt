-- ===== src/Shell/Pattern.antt =====
-- `escape_command_for_shell`, seven replacements in a row, against one pass over the command.
use se_sshion.Base.{
  ℕ, [], ◌∷◌, ◌++◌, ◌≡◌, refl, sym, ap, ◌∙◌, arith, append_assoc, ◌==◌, if◌then◌else◌, Bool-cases,
  inl, inr,
}
use se_sshion.Base.Text.{Text, codes}
use se_sshion.Shell.{replace, escape_command_for_shell}

-- what one character of the command becomes
abbrev pub escaped_char : ℕ → Text
escaped_char c =
    if c == b'\\'
    then codes "\\\\"
    else if c == b'$'
    then codes "\\$"
    else if c == b'`'
    then codes "\\`"
    else if c == b'('
    then codes "\\("
    else if c == b')'
    then codes "\\)"
    else if c == b'|'
    then codes "\\|"
    else if c == b'\''
    then codes "'\"'\"'"
    else c ∷ []

abbrev pub escaped_once : Text → Text
escaped_once [] = []
escaped_once (c ∷ cs) = escaped_char c ++ escaped_once cs

replace-append :
    (c : ℕ) (text a b : Text) → replace c text (a ++ b) ≡ replace c text a ++ replace c text b
unfolding replace
replace-append c text [] b = refl
replace-append c text (x ∷ a) b = elim (Bool-cases (x == c)) [
  | inl e ↦ rw e (
      ap (λ t. text ++ t) (replace-append c text a b)
      ∙ sym (append_assoc text (replace c text a) (replace c text b)))
  | inr e ↦ rw e (ap (◌∷◌ x) (replace-append c text a b))
]

escape-append :
    (a b : Text)
    → escape_command_for_shell (a ++ b) ≡ escape_command_for_shell a ++ escape_command_for_shell b
escape-append a b = unfold escape_command_for_shell in simp replace-append

escape-char : (c : ℕ) → escape_command_for_shell (c ∷ []) ≡ escaped_char c
unfolding escape_command_for_shell
escape-char c = ground arith

-- The replacements in their order are one pass: each special character of the command is escaped
-- once, and no character that an earlier replacement put in is escaped again.
pub escape_command_for_shell-once :
    (command : Text) → escape_command_for_shell command ≡ escaped_once command
escape_command_for_shell-once [] = unfold escape_command_for_shell in refl
escape_command_for_shell-once (c ∷ cs) =
    escape-append (c ∷ []) cs
    ∙ ap (λ t. t ++ escape_command_for_shell cs) (escape-char c)
    ∙ ap (λ t. escaped_char c ++ t) (escape_command_for_shell-once cs)
