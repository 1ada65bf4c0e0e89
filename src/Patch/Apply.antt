-- ===== src/Patch/Apply.antt =====
-- src/patch.rs: `apply_hunks`, the application of a file's hunks to its content.
pub mod Matches
pub mod Unique
pub mod Sequence
use se_sshion.Base.{
  ℕ, zero, suc, ◌+◌, ◌-◌, Bool, true, false, not, ◌&&◌, Option, none, some, List, [], ◌∷◌, ◌++◌,
  leb, if◌then◌else◌, Result, ok, err, ◌>>=◌,
}
use se_sshion.Base.Lists.{length, take, drop, any, is_nil}
use se_sshion.Base.Text.{Text, text_eq, contains, split, join, ends_with, without_suffix}
use se_sshion.Patch.{PatchHunk, PatchError, context_not_found, ambiguous_context}

-- equality of `[String]`
unfoldable pub lines_eq : List Text → List Text → Bool
unfolding text_eq
lines_eq [] [] = true
lines_eq (x ∷ xs) (y ∷ ys) = text_eq x y && lines_eq xs ys
lines_eq _ _ = false

-- the anchor, if the hunk has one, stands in a line up to the end of the match
unfoldable pub anchored : Option Text → List Text → Bool
unfolding contains
anchored none above = true
anchored (some anchor) above = any (contains anchor) above

-- the two `continue` tests at one start
unfoldable pub is_candidate : PatchHunk → List Text → ℕ → Bool
unfolding lines_eq anchored
is_candidate hunk lines start =
    let old_len = length hunk.old_lines in
    lines_eq (take old_len (drop start lines)) hunk.old_lines
    && anchored hunk.anchor (take (start + old_len) lines)

-- the candidates among `rounds` starts, from `start` on
unfoldable pub candidates_from : PatchHunk → List Text → ℕ → ℕ → List ℕ
unfolding is_candidate
candidates_from hunk lines start zero = []
candidates_from hunk lines start (suc rounds) =
    let rest = candidates_from hunk lines (suc start) rounds in
    if is_candidate hunk lines start then start ∷ rest else rest

-- `for start in 0..=lines.len() - old_len`, where the hunk is not longer than the file
unfoldable pub candidates : PatchHunk → List Text → List ℕ
unfolding candidates_from
candidates hunk lines =
    let old_len = length hunk.old_lines in
    if leb old_len (length lines)
    then candidates_from hunk lines 0 (suc (length lines - old_len))
    else []

-- `lines.splice(start..start + old_len, new_lines)`
unfoldable pub splice : PatchHunk → List Text → ℕ → List Text
splice hunk lines start =
    take start lines ++ (hunk.new_lines ++ drop (start + length hunk.old_lines) lines)

-- the `match candidates.as_slice()`
unfoldable pub choose : ℕ → PatchHunk → List Text → List ℕ → Result PatchError (List Text)
unfolding splice
choose index hunk lines [] = err (context_not_found (index + 1))
choose index hunk lines (start ∷ []) = ok (splice hunk lines start)
choose index hunk lines (start ∷ other ∷ more) = err (ambiguous_context (index + 1))

-- one round of the loop over the hunks
unfoldable pub apply_hunk : ℕ → PatchHunk → List Text → Result PatchError (List Text)
unfolding candidates choose
apply_hunk index hunk lines = choose index hunk lines (candidates hunk lines)

unfoldable pub hunks_loop : ℕ → List PatchHunk → List Text → Result PatchError (List Text)
unfolding apply_hunk
hunks_loop index [] lines = ok lines
hunks_loop index (hunk ∷ hunks) lines = do
  lines' ← apply_hunk index hunk lines
  hunks_loop (suc index) hunks lines'

-- the lines of the content; the empty file has none
unfoldable pub content_lines : Text → List Text
unfolding split without_suffix
content_lines content = if is_nil content then [] else split b'\n' (without_suffix b'\n' content)

-- the text of the lines, with a final newline if the file had one
unfoldable pub render_lines : Bool → List Text → Text
unfolding join
render_lines had_final_newline lines =
    let result = join b'\n' lines in
    if had_final_newline && not (is_nil lines) then result ++ b'\n' ∷ [] else result

unfoldable pub apply_hunks : Text → List PatchHunk → Result PatchError Text
unfolding content_lines hunks_loop render_lines ends_with
apply_hunks content hunks = do
  lines ← hunks_loop 0 hunks (content_lines content)
  ok (render_lines (ends_with b'\n' content) lines)
