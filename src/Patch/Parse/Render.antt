-- ===== src/Patch/Parse/Render.antt =====
-- The patch text of a list of file patches: the inverse that the parser is held to. It is no
-- part of the program, which only reads patches.
use se_sshion.Base.{
  true, false, Option, none, some, List, [], ◌∷◌, ◌++◌, ◌≡◌, ◌≢◌, ◌⊎◌, map, ok, if◌then◌else◌,
}
use se_sshion.Base.Lists.{All, any, is_nil}
use se_sshion.Base.Text.{Text, codes, split, join, without_suffix, ends_with, text_eq}
use se_sshion.Base.Text.Lines.{Lacks}
use se_sshion.Patch.{
  begin_patch, end_patch, add_file, update_file, delete_file, PatchHunk, PatchOperation, FilePatch,
}
use se_sshion.Patch.Parse.{validate_path}

abbrev pub marker : Option Text → Text
marker none = codes "@@"
marker (some anchor) = codes "@@ " ++ anchor

abbrev pub removed : Text → Text
removed line = b'-' ∷ line

abbrev pub added : Text → Text
added line = b'+' ∷ line

-- a hunk: its marker, its old lines as removed, its new lines as added; then what follows
unfoldable pub hunks_before : List PatchHunk → List Text → List Text
hunks_before [] rest = rest
hunks_before (h ∷ hs) rest =
    marker h.anchor ∷ (map removed h.old_lines ++ (map added h.new_lines ++ hunks_before hs rest))

unfoldable pub section_header : PatchOperation → Text
section_header (PatchOperation.add content) = add_file
section_header (PatchOperation.update hunks) = update_file
section_header PatchOperation.delete = delete_file

unfoldable pub section_body : PatchOperation → List Text
unfolding hunks_before
section_body (PatchOperation.add content) =
    if is_nil content then [] else map added (split b'\n' (without_suffix b'\n' content))
section_body (PatchOperation.update hunks) = hunks_before hunks []
section_body PatchOperation.delete = []

unfoldable pub section_lines : List FilePatch → List Text
unfolding section_header section_body
section_lines [] = end_patch ∷ []
section_lines (p ∷ ps) =
    (section_header p.operation ++ p.path) ∷ (section_body p.operation ++ section_lines ps)

unfoldable pub render : List FilePatch → Text
unfolding section_lines
render ps = join b'\n' (begin_patch ∷ section_lines ps)

abbrev pub Anchors : Option Text → Type 0
Anchors none = Unit
Anchors (some anchor) = (anchor ≢ []) × Lacks b'\n' anchor

-- A hunk that a patch can hold.
pub record IsHunk (h : PatchHunk) : Type 0 where
  pub anchor_name : Anchors h.anchor
  pub old_some : h.old_lines ≢ []
  pub old_lacks : All (Lacks b'\n') h.old_lines
  pub new_lacks : All (Lacks b'\n') h.new_lines

-- The file of an `Add File` section is empty or ends in a newline.
abbrev pub IsOperation : PatchOperation → Type 0
IsOperation (PatchOperation.add content) = (content ≡ []) ⊎ (ends_with b'\n' content ≡ true)
IsOperation (PatchOperation.update hunks) = (hunks ≢ []) × All IsHunk hunks
IsOperation PatchOperation.delete = Unit

pub record IsFilePatch (p : FilePatch) : Type 0 where
  pub path_accepted : validate_path p.path ≡ ok tt
  pub operation_is : IsOperation p.operation

-- No path is that of a section before, nor one of `paths`.
abbrev pub IsFresh : List Text → List FilePatch → Type 0
IsFresh paths [] = Unit
IsFresh paths (p ∷ ps) = (any (text_eq p.path) paths ≡ false) × IsFresh (p.path ∷ paths) ps

-- A list of file patches that one patch text can hold.
pub record IsPatch (ps : List FilePatch) : Type 0 where
  pub some_section : ps ≢ []
  pub sections : All IsFilePatch ps
  pub fresh : IsFresh [] ps
