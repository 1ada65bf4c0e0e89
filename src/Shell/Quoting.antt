-- ===== src/Shell/Quoting.antt =====
-- How a POSIX shell reads a quoted word, as an interface: no shell is part of the program.
use se_sshion.Base.Text.Lines.{Lacks}
use se_sshion.Base.{
  ℕ, Option, none, some, [], ◌∷◌, ◌++◌, ◌≡◌, ◌≢◌, refl, sym, ap, ◌∙◌, arith, ◌==◌, Bool-cases,
  ==_iff, inl, inr,
}
use se_sshion.Base.Text.{Text, codes}
use se_sshion.Shell.{escape_for_shell}

pub data Quoting : Type 0 where
  bare single double : Quoting

-- a character in front of the word that is read
abbrev pub push : ℕ → Option (Text × Text) → Option (Text × Text)
push c none = none
push c (some (word, rest)) = some (c ∷ word, rest)

-- The rules of the Shell Command Language, section 2.2, that the program's quoting relies on.
-- `read q s` is the word that starts at `s` in the quoting `q`, and the input behind it.
pub record PosixReader : Type 0 where
  pub read : Quoting → Text → Option (Text × Text)
  pub open_single : (s : Text) → read bare (b'\'' ∷ s) ≡ read single s
  pub close_single : (s : Text) → read single (b'\'' ∷ s) ≡ read bare s
  pub in_single : (c : ℕ) (s : Text) → c ≢ b'\'' → read single (c ∷ s) ≡ push c (read single s)
  pub open_double : (s : Text) → read bare (b'"' ∷ s) ≡ read double s
  pub close_double : (s : Text) → read double (b'"' ∷ s) ≡ read bare s
  -- A single quote is an ordinary character between double quotes.
  pub quote_in_double : (s : Text) → read double (b'\'' ∷ s) ≡ push b'\'' (read double s)
  pub at_end : read bare [] ≡ some ([], [])
  -- A blank or an operator ends the word.
  pub at_blank : (s : Text) → read bare (b' ' ∷ s) ≡ some ([], b' ' ∷ s)
  pub at_semicolon : (s : Text) → read bare (b';' ∷ s) ≡ some ([], b';' ∷ s)

-- a text in front of the word that is read
abbrev pub push_all : Text → Option (Text × Text) → Option (Text × Text)
push_all [] r = r
push_all (c ∷ cs) r = push c (push_all cs r)

module _ (shell : PosixReader) where
  open shell use {
    read, in_single, close_single, open_single, open_double, close_double, quote_in_double,
  }

  read-quote : (s : Text) → read single (codes "'\"'\"'" ++ s) ≡ push b'\'' (read single s)
  read-quote s =
      close_single (b'"' ∷ b'\'' ∷ b'"' ∷ b'\'' ∷ s)
      ∙ open_double (b'\'' ∷ b'"' ∷ b'\'' ∷ s)
      ∙ quote_in_double (b'"' ∷ b'\'' ∷ s)
      ∙ ap (push b'\'') (close_double (b'\'' ∷ s) ∙ open_single s)

  -- Between single quotes, an escaped text is read as the text itself.
  pub read-escape_for_shell :
      (s rest : Text)
      → read single (escape_for_shell s ++ (b'\'' ∷ rest)) ≡ push_all s (read bare rest)
  unfolding escape_for_shell
  read-escape_for_shell [] rest = close_single rest
  read-escape_for_shell (c ∷ s) rest = elim (Bool-cases (c == b'\'')) [
    | inl e ↦ rw e (
        read-quote (escape_for_shell s ++ (b'\'' ∷ rest))
        ∙ ap (push b'\'') (read-escape_for_shell s rest)
        ∙ ap (λ k. push k (push_all s (read bare rest))) (sym ((==_iff c b'\'').0 e)))
    | inr e ↦ rw e (
        in_single c (escape_for_shell s ++ (b'\'' ∷ rest)) (ground arith)
        ∙ ap (push c) (read-escape_for_shell s rest))
  ]

  -- so is a text with no single quote, as it stands
  pub read_plain :
      (front s : Text)
      → Lacks b'\'' front
      → read single (front ++ s) ≡ push_all front (read single s)
  read_plain [] s h = refl
  read_plain (c ∷ front) s h =
      in_single c (front ++ s) (ground arith) ∙ ap (push c) (read_plain front s h.1)

  push_all-some : (s word rest : Text) → push_all s (some (word, rest)) ≡ some (s ++ word, rest)
  push_all-some [] word rest = refl
  push_all-some (c ∷ s) word rest = ap (push c) (push_all-some s word rest)

  -- the word of an escaped text between single quotes, and of a literal in front of it
  pub read_quoted :
      (front s rest word : Text) {behind : Text}
      → read bare rest ≡ some (word, behind)
      → push_all front (read single (escape_for_shell s ++ (b'\'' ∷ rest)))
        ≡ some (front ++ (s ++ word), behind)
  read_quoted front s rest word {behind} h =
      ap (push_all front)
        (read-escape_for_shell s rest ∙ ap (push_all s) h ∙ push_all-some s word behind)
      ∙ push_all-some front (s ++ word) behind
