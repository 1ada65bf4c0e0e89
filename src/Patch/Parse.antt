-- ===== src/Patch/Parse.antt =====
-- src/patch.rs: `parse_patch` and the parsers that it calls.
pub mod Render
pub mod Hunks
pub mod Sections
pub mod RoundTrip
pub mod Sound
pub mod FilePaths
pub mod Accepted
use se_sshion.Base.{
  ℕ, Bool, true, false, not, ◌||◌, Option, none, some, List, [], ◌∷◌, ◌++◌, ltb, ◌==◌,
  if◌then◌else◌, Result, ok, err, ◌>>=◌, ◌>>◌, reject_if, map_err, if_some,
}
use se_sshion.Base.Lists.{length, is_nil, get_last?, any}
use se_sshion.Base.Text.{
  Text, codes, text_eq, strip_prefix, starts_with, split, join, ends_with, without_suffix, trim,
  is_control,
}
use se_sshion.Validate.{validate_basic_path_str}
use se_sshion.Patch.{
  begin_patch, end_patch, add_file, update_file, delete_file, move_to, PatchHunk, PatchOperation,
  FilePatch, first_line, last_line, no_section, no_hunks, empty_anchor, no_prefix, no_old_lines,
  no_change, expected_marker, invalid_prefix, basic, not_absolute, not_a_file, PatchError,
  invalid_envelope, invalid_section, duplicate_path, unsupported_operation, invalid_path,
  invalid_hunk,
}

abbrev pub Parsed {ℓ} : Type ℓ → Type ℓ
Parsed A = Result PatchError A

unfoldable pub section_tail_error : Text → PatchError
section_tail_error line =
    if starts_with move_to line then unsupported_operation else invalid_section line

unfoldable pub validate_path : Text → Parsed (Unit {0})
unfolding starts_with ends_with validate_basic_path_str text_eq trim is_control
validate_path path = do
  map_err (λ f. invalid_path (basic f)) (validate_basic_path_str path)
  reject_if (not (starts_with (b'/' ∷ []) path)) (invalid_path not_absolute)
  reject_if (ends_with b'/' path) (invalid_path not_a_file)
  ok tt

-- the loop of `parse_add`
unfoldable pub add_lines : List Text → Parsed (List Text)
add_lines [] = ok []
add_lines (line ∷ lines) = elim (strip_prefix (b'+' ∷ []) line) [
  | none ↦ err (section_tail_error line)
  | some content ↦ do rest ← add_lines lines; ok (content ∷ rest)
]

unfoldable pub parse_add : List Text → Parsed Text
unfolding add_lines
parse_add lines = do
  content_lines ← add_lines lines
  ok (if is_nil content_lines then [] else join b'\n' content_lines ++ b'\n' ∷ [])

-- a hunk while its lines are read
pub record HunkLines : Type 0 where
  pub anchor : Option Text
  pub old_lines : List Text
  pub new_lines : List Text
  pub has_change : Bool

abbrev pub fresh_hunk : Option Text → HunkLines
fresh_hunk a = record { anchor = a; old_lines = []; new_lines = []; has_change = false }

-- the anchor of a marker, behind "@@ " where the marker starts so
unfoldable pub marker_name : Text → Option Text → Parsed (Option Text)
marker_name marker none = err (invalid_hunk (expected_marker marker))
marker_name marker (some name) =
    if is_nil name then err (invalid_hunk empty_anchor) else ok (some name)

-- the line that opens a hunk
unfoldable pub parse_marker : Text → Parsed (Option Text)
unfolding starts_with text_eq strip_prefix section_tail_error marker_name
parse_marker marker =
    if starts_with (codes "*** ") marker
    then err (section_tail_error marker)
    else if text_eq marker (codes "@@")
    then ok none
    else marker_name marker (strip_prefix (codes "@@ ") marker)

-- the `match prefix` of the inner loop
unfoldable pub prefixed_line : HunkLines → ℕ → Text → Parsed HunkLines
prefixed_line h prefix text =
    if prefix == b' '
    then ok
        (record h { old_lines = h.old_lines ++ text ∷ []; new_lines = h.new_lines ++ text ∷ [] })
    else if prefix == b'-'
    then ok (record h { old_lines = h.old_lines ++ text ∷ []; has_change = true })
    else if prefix == b'+'
    then ok (record h { new_lines = h.new_lines ++ text ∷ []; has_change = true })
    else err (invalid_hunk (invalid_prefix prefix))

-- one round of the inner loop
unfoldable pub hunk_line : HunkLines → Text → Parsed HunkLines
unfolding starts_with section_tail_error prefixed_line
hunk_line h [] = err (invalid_hunk no_prefix)
hunk_line h (c ∷ text) =
    if starts_with (codes "*** ") (c ∷ text)
    then err (section_tail_error (c ∷ text))
    else prefixed_line h c text

-- the checks behind the inner loop
unfoldable pub finish_hunk : HunkLines → Parsed PatchHunk
finish_hunk h = do
  reject_if (is_nil h.old_lines) (invalid_hunk no_old_lines)
  reject_if (not h.has_change) (invalid_hunk no_change)
  ok (record { anchor = h.anchor; old_lines = h.old_lines; new_lines = h.new_lines })

-- Both loops of `parse_update`, from inside a hunk: the inner one ends at a line that starts
-- with "@@", which is the next marker of the outer one, or at the end.
unfoldable pub hunk_loop : HunkLines → List Text → Parsed (List PatchHunk)
unfolding starts_with hunk_line finish_hunk parse_marker
hunk_loop h [] = do hunk ← finish_hunk h; ok (hunk ∷ [])
hunk_loop h (line ∷ lines) = elim (starts_with (codes "@@") line) [
  | true ↦ do
    hunk ← finish_hunk h
    anchor ← parse_marker line
    hunks ← hunk_loop (fresh_hunk anchor) lines
    ok (hunk ∷ hunks)
  | false ↦ do h' ← hunk_line h line; hunk_loop h' lines
]

unfoldable pub parse_update : List Text → Parsed (List PatchHunk)
unfolding hunk_loop
parse_update [] = err (invalid_hunk no_hunks)
parse_update (marker ∷ lines) = do anchor ← parse_marker marker; hunk_loop (fresh_hunk anchor) lines

-- the three branches of `parse_section`, each on the body and the path
unfoldable pub add_section : List Text → Text → Parsed FilePatch
unfolding parse_add
add_section body path = do
  content ← parse_add body
  ok (record { path = path; operation = PatchOperation.add content })

unfoldable pub update_section : List Text → Text → Parsed FilePatch
unfolding parse_update
update_section body path = do
  hunks ← parse_update body
  ok (record { path = path; operation = PatchOperation.update hunks })

unfoldable pub delete_section : List Text → Text → Parsed FilePatch
unfolding section_tail_error
delete_section [] path = ok (record { path = path; operation = PatchOperation.delete })
delete_section (extra ∷ more) path = err (section_tail_error extra)

-- the `if let` ladder of `parse_section`, on the header and the lines behind it
unfoldable pub parse_header : Text → List Text → Parsed FilePatch
unfolding strip_prefix starts_with add_section update_section delete_section
parse_header header body = if_some (strip_prefix add_file header) (add_section body) (
    if_some (strip_prefix update_file header) (update_section body) (
      if_some (strip_prefix delete_file header) (delete_section body) (
        if starts_with move_to header
        then err unsupported_operation
        else err (invalid_section header))))

-- `FilePatch::parse_section`; `section[0]` is the header
unfoldable pub parse_section : Text → List Text → Parsed FilePatch
unfolding parse_header validate_path
parse_section header body = do patch ← parse_header header body; validate_path patch.path; ok patch

unfoldable pub starts_section : Text → Bool
unfolding starts_with
starts_section line =
    starts_with add_file line || starts_with update_file line || starts_with delete_file line

-- The `for` loop of `parse_patch`: the section `lines[start..end]` is its header and the lines
-- behind it, and the last argument is `lines[end..]`.
unfoldable pub section_loop : List Text → Text → List Text → List Text → Parsed (List FilePatch)
unfolding starts_section parse_section text_eq
section_loop paths header body [] = ok []
section_loop paths header body (line ∷ rest) = elim (is_nil rest || starts_section line) [
  | true ↦ do
    patch ← parse_section header body
    reject_if (any (text_eq patch.path) paths) (duplicate_path patch.path)
    patches ← section_loop (patch.path ∷ paths) line [] rest
    ok (patch ∷ patches)
  | false ↦ section_loop paths header (body ++ line ∷ []) rest
]

-- the loop from `start = 1` and `end = 2`; a shorter list has no round
unfoldable pub sections_of : List Text → Parsed (List FilePatch)
unfolding section_loop
sections_of [] = ok []
sections_of (envelope ∷ []) = ok []
sections_of (envelope ∷ header ∷ rest) = section_loop [] header [] rest

unfoldable pub is_line : Text → Option Text → Bool
unfolding text_eq
is_line expected none = false
is_line expected (some line) = text_eq line expected

unfoldable pub head? : List Text → Option Text
head? [] = none
head? (line ∷ lines) = some line

unfoldable pub parse_lines : List Text → Parsed (List FilePatch)
unfolding is_line head? sections_of
parse_lines lines = do
  reject_if (not (is_line begin_patch (head? lines))) (invalid_envelope first_line)
  reject_if (not (is_line end_patch (get_last? lines))) (invalid_envelope last_line)
  reject_if (ltb (length lines) 3) (invalid_envelope no_section)
  sections_of lines

unfoldable pub parse_patch : Text → Parsed (List FilePatch)
unfolding parse_lines split without_suffix
parse_patch input = parse_lines (split b'\n' (without_suffix b'\n' input))
