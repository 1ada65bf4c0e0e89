-- ===== src/Base/Text/Reading.antt =====
-- Reading text out of bytes: what the standard library's functions do that the program calls.
use Prim.Native.Nat.{ℕ, ◌+◌, ◌-◌, ◌*◌}
use mathlib.Core.Bool.{Bool, ◌&&◌, ◌||◌}
use mathlib.Core.Option.{Option, none, some}
use mathlib.Core.List.{List, [], ◌∷◌}
use se_sshion.Base.Tests.{ltb, leb, ◌==◌, if◌then◌else◌}
use se_sshion.Base.Lists.{is_nil}
use se_sshion.Base.Results.{if_some}
use se_sshion.Base.Text.{Text, split, cons_first, without_suffix}
use se_sshion.Base.Text.Utf8.{Bytes, is_utf8, from_utf8_lossy}

-- `std::str::from_utf8`
unfoldable pub from_utf8 : Bytes → Option Text
unfolding is_utf8 from_utf8_lossy
from_utf8 bytes = if is_utf8 bytes then some (from_utf8_lossy bytes) else none

-- the pieces without the empty one behind a final newline
unfoldable pub without_last_empty : List Text → List Text
without_last_empty [] = []
without_last_empty (line ∷ []) = if is_nil line then [] else line ∷ []
without_last_empty (line ∷ next ∷ lines) = line ∷ without_last_empty (next ∷ lines)

-- the pieces between newlines as lines: a carriage return goes with the newline behind it, and an
-- empty piece behind the last newline is no line
unfoldable pub pieces_lines : List Text → List Text
unfolding without_suffix
pieces_lines [] = []
pieces_lines (line ∷ []) = if is_nil line then [] else line ∷ []
pieces_lines (line ∷ next ∷ pieces) = without_suffix b'\r' line ∷ pieces_lines (next ∷ pieces)

-- `str::lines`
unfoldable pub lines : Text → List Text
unfolding pieces_lines split
lines s = pieces_lines (split b'\n' s)

-- `s.split_once(c)` for a character
unfoldable pub split_once : ℕ → Text → Option (Text × Text)
split_once sep [] = none
split_once sep (c ∷ cs) =
    let rest = split_once sep cs in
    if c == sep then some ([], cs) else elim rest [ none ↦ none | some (a, b) ↦ some (c ∷ a, b) ]

abbrev pub is_ascii_digit : ℕ → Bool
is_ascii_digit c = leb b'0' c && leb c b'9'

abbrev pub is_ascii_lowercase : ℕ → Bool
is_ascii_lowercase c = leb b'a' c && leb c b'z'

abbrev pub is_ascii_alphanumeric : ℕ → Bool
is_ascii_alphanumeric c = is_ascii_digit c || (is_ascii_lowercase c || (leb b'A' c && leb c b'Z'))

-- `char::is_ascii_whitespace`: space, tab, line feed, form feed and carriage return
abbrev pub is_ascii_whitespace : ℕ → Bool
is_ascii_whitespace c = c == 32 || (c == 9 || (c == 10 || (c == 12 || c == 13)))

abbrev pub some_pieces : List Text → List Text
some_pieces [] = []
some_pieces (p ∷ ps) = let rest = some_pieces ps in if is_nil p then rest else p ∷ rest

abbrev pub ascii_pieces : Text → List Text
ascii_pieces [] = [] ∷ []
ascii_pieces (c ∷ cs) =
    let rest = ascii_pieces cs in if is_ascii_whitespace c then [] ∷ rest else cons_first c rest

-- `str::split_ascii_whitespace`
unfoldable pub split_ascii_whitespace : Text → List Text
split_ascii_whitespace s = some_pieces (ascii_pieces s)

-- the digits of a number up to `most`
unfoldable pub parse_digits : ℕ → ℕ → Text → Option ℕ
parse_digits most value [] = some value
parse_digits most value (c ∷ cs) =
    let next = value * 10 + (c - b'0') in
    let rest = parse_digits most next cs in if ltb most next then none else rest

-- the digits of a number up to `most`, each of them checked
unfoldable pub number_digits : ℕ → ℕ → Text → Option ℕ
number_digits most value [] = some value
number_digits most value (c ∷ cs) =
    let next = value * 10 + (c - b'0') in
    let rest = number_digits most next cs in
    if is_ascii_digit c && leb next most then rest else none

abbrev pub some_number : ℕ → Text → Option ℕ
some_number most [] = none
some_number most (c ∷ cs) = number_digits most 0 (c ∷ cs)

-- `parse` of an unsigned integer up to `most`, which takes one plus sign in front
unfoldable pub parse_unsigned : ℕ → Text → Option ℕ
unfolding number_digits
parse_unsigned most [] = none
parse_unsigned most (c ∷ cs) = if c == b'+' then some_number most cs else some_number most (c ∷ cs)

-- `s.rsplit_once(c)` for a character
unfoldable pub rsplit_once : ℕ → Text → Option (Text × Text)
rsplit_once sep [] = none
rsplit_once sep (c ∷ cs) =
    if_some (rsplit_once sep cs) (λ p. some (c ∷ p.0, p.1))
      (if c == sep then some ([], cs) else none)
