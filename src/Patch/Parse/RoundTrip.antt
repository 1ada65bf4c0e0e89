-- ===== src/Patch/Parse/RoundTrip.antt =====
-- `parse_patch` reads back what Render writes.
use se_sshion.Validate.{validate_basic_path_str, validate_basic_path_str-control}
use se_sshion.Base.{
  false, Option, none, some, List, [], ◌∷◌, ◌++◌, ◌≡◌, refl, ap, ◌∙◌, map, arith, ok, >>=-eq-ok,
  map_err, map_err-eq-ok,
}
use se_sshion.Base.Lists.{All, any, All-append}
use se_sshion.Base.Text.{Text, split, join, ends_with, is_control, codes}
use se_sshion.Base.Text.Lines.{
  Lacks, Lacks-append, split-All-Lacks, split-join, ends_with-join, without_suffix_other,
  without_suffix-concat, any-Lacks,
}
use se_sshion.Patch.{
  begin_patch, end_patch, PatchHunk, PatchOperation, FilePatch, add_file, update_file, delete_file,
}
use se_sshion.Patch.Parse.{validate_path, parse_lines, parse_patch}
use se_sshion.Patch.Parse.Render.{
  marker, removed, added, hunks_before, section_header, section_body, section_lines, render,
  Anchors, IsHunk, IsOperation, IsFilePatch, IsPatch,
}
use se_sshion.Patch.Parse.Sections.{front, section_lines-concat, parse_lines-sections}

abbrev pub OneLine : Text → Type 0
OneLine = Lacks b'\n'

no_control-OneLine : (s : Text) → any is_control s ≡ false → OneLine s
unfolding is_control
no_control-OneLine [] h = tt
no_control-OneLine (c ∷ s) h = (ground arith, no_control-OneLine s (ground arith))

validate_path-OneLine : (path : Text) → validate_path path ≡ ok tt → OneLine path
unfolding validate_path
validate_path-OneLine path h =
    let (_u, basic_ok, _r) = >>=-eq-ok (map_err _ (validate_basic_path_str path)) _ h in
    no_control-OneLine path (
      validate_basic_path_str-control path
        (map_err-eq-ok _ (validate_basic_path_str path) basic_ok))

added-OneLine : (lines : List Text) → All OneLine lines → All OneLine (map added lines)
added-OneLine [] h = tt
added-OneLine (l ∷ lines) h = ((refl, h.0), added-OneLine lines h.1)

removed-OneLine : (lines : List Text) → All OneLine lines → All OneLine (map removed lines)
removed-OneLine [] h = tt
removed-OneLine (l ∷ lines) h = ((refl, h.0), removed-OneLine lines h.1)

marker-OneLine : (a : Option Text) → Anchors a → OneLine (marker a)
marker-OneLine none h = any-Lacks b'\n' (codes "@@") refl
marker-OneLine (some a) h =
    Lacks-append b'\n' (codes "@@ ") a (any-Lacks b'\n' (codes "@@ ") refl) h.1

hunks-OneLine : (hunks : List PatchHunk) → All IsHunk hunks → All OneLine (hunks_before hunks [])
unfolding hunks_before
hunks-OneLine [] is = tt
hunks-OneLine (h ∷ hs) is = (
  marker-OneLine h.anchor is.0.anchor_name,
  All-append OneLine (map removed h.old_lines) _ (removed-OneLine h.old_lines is.0.old_lacks) (
      All-append OneLine (map added h.new_lines) _ (added-OneLine h.new_lines is.0.new_lacks)
        (hunks-OneLine hs is.1)),
)

body-OneLine : (op : PatchOperation) → IsOperation op → All OneLine (section_body op)
unfolding section_body
body-OneLine (PatchOperation.add []) i = tt
body-OneLine (PatchOperation.add (c ∷ cs)) i = added-OneLine _ (split-All-Lacks b'\n' _)
body-OneLine (PatchOperation.update hunks) i = hunks-OneLine hunks i.1
body-OneLine PatchOperation.delete i = tt

header-OneLine :
    (op : PatchOperation) (path : Text) → OneLine path → OneLine (section_header op ++ path)
unfolding section_header
header-OneLine (PatchOperation.add content) path h =
    Lacks-append b'\n' add_file path (any-Lacks b'\n' add_file refl) h
header-OneLine (PatchOperation.update hunks) path h =
    Lacks-append b'\n' update_file path (any-Lacks b'\n' update_file refl) h
header-OneLine PatchOperation.delete path h =
    Lacks-append b'\n' delete_file path (any-Lacks b'\n' delete_file refl) h

lines-OneLine : (ps : List FilePatch) → All IsFilePatch ps → All OneLine (section_lines ps)
unfolding section_lines
lines-OneLine [] is = (any-Lacks b'\n' end_patch refl, tt)
lines-OneLine (p ∷ ps) is = (
  header-OneLine p.operation p.path (validate_path-OneLine p.path is.0.path_accepted),
  All-append OneLine (section_body p.operation) _ (body-OneLine p.operation is.0.operation_is)
      (lines-OneLine ps is.1),
)

render-no_final_newline : (ps : List FilePatch) → ends_with b'\n' (render ps) ≡ false
unfolding render
render-no_final_newline ps =
    ap (λ l. ends_with b'\n' (join b'\n' (begin_patch ∷ l))) (section_lines-concat ps)
    ∙ ends_with-join b'\n' (begin_patch ∷ front ps) b'*' (codes "** End Patch")
    ∙ unfold ends_with in refl

parse_split : (ps : List FilePatch) → IsPatch ps → parse_lines (split b'\n' (render ps)) ≡ ok ps
unfolding render
parse_split ps i =
    ap parse_lines (
      split-join b'\n' begin_patch (section_lines ps)
        (any-Lacks b'\n' begin_patch refl, lines-OneLine ps i.sections))
    ∙ parse_lines-sections ps i

-- Every patch that a text can hold is read back from its text, with a final newline or without.
pub parse_patch-render :
    (ps : List FilePatch)
    → IsPatch ps
    → (parse_patch (render ps) ≡ ok ps) × (parse_patch (render ps ++ b'\n' ∷ []) ≡ ok ps)
unfolding parse_patch
parse_patch-render ps i = (
  ap (λ t. parse_lines (split b'\n' t))
        (without_suffix_other b'\n' (render ps) (render-no_final_newline ps))
      ∙ parse_split ps i,
  ap (λ t. parse_lines (split b'\n' t)) (without_suffix-concat b'\n' (render ps))
      ∙ parse_split ps i,
)
