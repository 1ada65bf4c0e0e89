-- ===== src/Identification.antt =====
-- src/ssh/identification.rs: the SSH identification exchange in front of the SSH library. The
-- peer is the bytes that it sends before it closes, and the sizes in which the reads deliver them.
pub mod Stream
pub mod Walks
pub mod Fragments
pub mod Replay
use se_sshion.Base.{
  ℕ, zero, suc, ◌+◌, ◌-◌, Bool, true, false, not, ◌&&◌, ◌||◌, Option, none, some, List, [], ◌∷◌,
  ◌++◌, ltb, leb, ◌==◌, if◌then◌else◌, Result, ok, err, if_some,
}
use se_sshion.Base.Lists.{length, take, drop, is_nil, any}
use se_sshion.Base.Text.{Text, codes, strip_prefix, split, text_eq, without_suffix}
use se_sshion.Base.Text.Utf8.{is_utf8_from}
use Prim.Native.Nat.{min}

abbrev pub Bytes : Type 0
Bytes = List ℕ

abbrev pub max_line_bytes : ℕ
max_line_bytes = 255

abbrev pub max_preamble_lines : ℕ
max_preamble_lines = 20

abbrev pub read_bytes : ℕ
read_bytes = 256

pub data RemotePlatform : Type 0 where
  posix routeros : RemotePlatform

pub data IdentificationError : Type 0 where
  unexpected_eof line_too_long too_many_lines : IdentificationError

abbrev or_else {ℓ} : {A : Type ℓ} → Option A → Option A → Option A
or_else none b = b
or_else (some a) b = some a

unfoldable pub first_piece : List Text → Text
first_piece [] = []
first_piece (piece ∷ pieces) = piece

unfoldable pub classify : Bytes → Option RemotePlatform
unfolding is_utf8_from strip_prefix split first_piece text_eq
classify line =
    if is_utf8_from [] line
    then if_some
        (or_else (strip_prefix (codes "SSH-2.0-") line) (strip_prefix (codes "SSH-1.99-") line))
        (λ software. some (
          if text_eq (first_piece (split b' ' software)) (codes "ROSSSH") then routeros else posix))
        none
    else none

-- What the end of a line decides: the platform, the count of preamble lines, or an error.
pub data LineEnd : Type 0 where
  identified : RemotePlatform → LineEnd
  preamble : ℕ → LineEnd
  refused : IdentificationError → LineEnd

unfoldable pub end_line : ℕ → Bytes → LineEnd
unfolding classify without_suffix
end_line preamble_lines line =
    if ltb max_line_bytes (length line + 1)
    then refused line_too_long
    else if_some (classify (without_suffix b'\r' line)) identified (
        if ltb max_preamble_lines (preamble_lines + 1)
        then refused too_many_lines
        else preamble (preamble_lines + 1))

pub data Scan : Type 0 where
  found : RemotePlatform → Scan
  more : ℕ → Bytes → Scan
  failed : IdentificationError → Scan

-- The inner loop over the pending bytes. The search for the first newline behind at least one
-- byte is the walk itself: `line` holds the bytes since the line's start. At the end the rest of
-- the line is pending, if it is not too long.
unfoldable pub scan : ℕ → Bytes → Bytes → Scan
unfolding end_line
scan preamble_lines line [] =
    if leb max_line_bytes (length line) then failed line_too_long else more preamble_lines line
scan preamble_lines line (b ∷ bs) = elim (b == b'\n' && not (is_nil line)) [
  | true ↦ elim (end_line preamble_lines line) [
    | identified p ↦ found p
    | preamble n ↦ scan n [] bs
    | refused e ↦ failed e
  ]
  | false ↦ scan preamble_lines (line ++ b ∷ []) bs
]

pub record Identified : Type 0 where
  pub platform : RemotePlatform
  pub replay : Bytes
  -- what the peer sent and was not read yet
  pub unread : Bytes

-- The outer loop: `size` at a round is the count that the read would deliver, beyond the first
-- byte, if there were no limit. `none` means that the rounds ran out.
unfoldable pub identify_loop :
    ℕ → (ℕ → ℕ) → Bytes → ℕ → Bytes → Bytes → Option (Result IdentificationError Identified)
unfolding scan
identify_loop zero size replay preamble_lines pending input = none
identify_loop (suc rounds) size replay preamble_lines pending input =
    let available : ℕ = read_bytes - length pending in
    let count : ℕ = min available (suc (size rounds)) in
    let chunk : Bytes = take count input in
    let unread : Bytes = drop count input in
    elim (is_nil chunk) [
      | true ↦ some (err unexpected_eof)
      | false ↦ elim (scan preamble_lines [] (pending ++ chunk)) [
        | found p ↦ some (ok (record { platform = p; replay = replay ++ chunk; unread = unread }))
        | failed e ↦ some (err e)
        | more n line ↦ identify_loop rounds size (replay ++ chunk) n line unread
      ]
    ]

-- Behind the writing of the client ID, which is left out. One round more than there are bytes.
unfoldable pub identify : (ℕ → ℕ) → Bytes → Option (Result IdentificationError Identified)
unfolding identify_loop
identify size input = identify_loop (suc (length input)) size [] 0 [] input

-- absent or empty
unfoldable pub is_empty : Option Text → Bool
is_empty none = true
is_empty (some password) = is_nil password

-- `RemotePlatform::validate_elevation` is an error
unfoldable pub elevation_refused : RemotePlatform → Option Text → Option Text → Bool
unfolding is_empty
elevation_refused posix su_password sudo_password = false
elevation_refused routeros su_password sudo_password =
    not (is_empty su_password) || not (is_empty sudo_password)
