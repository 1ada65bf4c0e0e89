-- ===== src/Environment/Release.antt =====
-- src/ssh/environment.rs: the name of the distribution in an os-release file.
use se_sshion.Base.{
  ℕ, Bool, true, false, not, ◌&&◌, ◌||◌, Option, none, some, List, [], ◌∷◌, ◌++◌, ◌==◌,
  if◌then◌else◌, if_some,
}
use se_sshion.Base.Lists.{any, is_nil}
use se_sshion.Base.Text.{Text, codes, text_eq, trim, trim_start}
use se_sshion.Base.Text.Utf8.{Bytes, as_bytes}
use se_sshion.Base.Text.Reading.{
  from_utf8, lines, split_once, is_ascii_alphanumeric, is_ascii_whitespace,
}
use se_sshion.Environment.{scalar, scalar_limit, filter_option, and_then}

-- What a character makes of the loop: its end, or the next round with the text so far, which may
-- start behind a backslash.
pub data ReleaseStep : Type 0 where
  finished : Option Text → ReleaseStep
  going : Bool → Text → ReleaseStep

abbrev is_quote : ℕ → Option ℕ → Bool
is_quote c none = false
is_quote c (some quote) = c == quote

abbrev is_quoted : Option ℕ → Bool
is_quoted none = false
is_quoted (some quote) = true

-- nothing, or a comment
abbrev starts_comment : Text → Bool
starts_comment [] = true
starts_comment (c ∷ cs) = c == b'#'

abbrev is_one_of : Text → ℕ → Bool
is_one_of set c = any (λ d. c == d) set

unfoldable pub release_step : Bool → Option ℕ → Text → ℕ → Text → ReleaseStep
unfolding trim_start
release_step true quote result c cs = going false (
    result
    ++ (if is_quote b'"' quote && not (is_one_of (codes "$`\"\\") c)
        then b'\\' ∷ c ∷ []
        else c ∷ []))
release_step false quote result c cs =
    if is_quote c quote
    then finished (if starts_comment (trim_start cs) then some result else none)
    else if c == b'\\' && not (is_quote b'\'' quote)
    then going true result
    else if is_quoted quote || (is_ascii_alphanumeric c || is_one_of (codes "-_.:/+@") c)
    then (if is_quote b'"' quote && (c == b'$' || c == b'`')
        then finished none
        else going false (result ++ c ∷ []))
    else if is_ascii_whitespace c
    then finished (
        if not (is_quoted quote) && starts_comment (trim_start (c ∷ cs)) then some result else none)
    else finished none

abbrev after_step : ReleaseStep → (Bool → Text → Option Text) → Option Text
after_step (finished value) more = value
after_step (going escaped result) more = more escaped result

unfoldable pub release_chars : Bool → Option ℕ → Text → Text → Option Text
unfolding release_step
release_chars true quote result [] = none
release_chars false quote result [] = if is_quoted quote then none else some result
release_chars escaped quote result (c ∷ cs) =
    after_step (release_step escaped quote result c cs) (λ e r. release_chars e quote r cs)

abbrev release_body : Text → Option Text
release_body [] = release_chars false none [] []
release_body (c ∷ cs) =
    if c == b'\'' || c == b'"'
    then release_chars false (some c) [] cs
    else release_chars false none [] (c ∷ cs)

unfoldable pub release_value : Text → Option Text
unfolding release_chars trim
release_value value = release_body (trim value)

abbrev pub ReleaseFields : Type 0
ReleaseFields = List (Text × Option Text)

-- one line of the file; a later assignment stands in front of an earlier one
unfoldable pub release_line : Text → ReleaseFields → ReleaseFields
unfolding split_once trim text_eq release_value
release_line line fields =
    if_some (split_once b'=' (trim line))
      (λ p.
        if any (text_eq p.0) (
          codes "PRETTY_NAME"
          ∷ codes "NAME"
          ∷ codes "VERSION"
          ∷ codes "VERSION_ID"
          ∷ codes "ID"
          ∷ [])
        then (p.0, filter_option (λ value. not (is_nil value)) (release_value p.1)) ∷ fields
        else fields)
      fields

unfoldable pub release_lines : List Text → ReleaseFields → ReleaseFields
unfolding release_line
release_lines [] fields = fields
release_lines (line ∷ rest) fields = release_lines rest (release_line line fields)

unfoldable pub field : Text → ReleaseFields → Option Text
unfolding text_eq
field key [] = none
field key ((k, value) ∷ fields) =
    let rest = field key fields in if text_eq k key then value else rest

unfoldable pub distribution_name : ReleaseFields → Option Text
unfolding field
distribution_name fields =
    if_some (field (codes "PRETTY_NAME") fields) (λ pretty. some pretty)
      (if_some (field (codes "NAME") fields)
        (λ name.
          if_some (field (codes "VERSION") fields) (λ version. some (name ++ b' ' ∷ version))
            (if_some (field (codes "VERSION_ID") fields) (λ version. some (name ++ b' ' ∷ version))
              (some name)))
        (field (codes "ID") fields))

unfoldable pub distribution : Bytes → Option Text
unfolding from_utf8 lines release_lines distribution_name scalar as_bytes
distribution payload = and_then (from_utf8 payload) (λ text.
    and_then (distribution_name (release_lines (lines text) []))
      (λ result. scalar (as_bytes result) scalar_limit))
