-- ===== src/Patch.antt =====
-- src/patch.rs: the data of a patch. Parse has the parser, Apply the hunks, and Plan what a patch
-- does to one file. A message is the value that it is formatted from.
pub mod Parse
pub mod Apply
pub mod Plan
use se_sshion.Base.{ℕ, Bool, Option, List}
use se_sshion.Base.Text.{Text, codes}
use se_sshion.Validate.{PathFault}

abbrev pub begin_patch : Text
begin_patch = codes "*** Begin Patch"

abbrev pub end_patch : Text
end_patch = codes "*** End Patch"

abbrev pub add_file : Text
add_file = codes "*** Add File: "

abbrev pub update_file : Text
update_file = codes "*** Update File: "

abbrev pub delete_file : Text
delete_file = codes "*** Delete File: "

abbrev pub move_to : Text
move_to = codes "*** Move to:"

pub data PatchOperationKind : Type 0 where
  add update delete : PatchOperationKind

pub record PatchHunk : Type 0 where
  pub anchor : Option Text
  pub old_lines : List Text
  pub new_lines : List Text

pub data PatchOperation : Type 0 where
  add : Text → PatchOperation
  update : List PatchHunk → PatchOperation
  delete : PatchOperation

pub record FilePatch : Type 0 where
  pub path : Text
  pub operation : PatchOperation

pub record PlannedPatch : Type 0 where
  pub path : Text
  pub new_content : Option Text
  pub changed : Bool

pub data EnvelopeFault : Type 0 where
  first_line last_line no_section : EnvelopeFault

pub data HunkFault : Type 0 where
  no_hunks empty_anchor no_prefix no_old_lines no_change : HunkFault
  expected_marker : Text → HunkFault
  invalid_prefix : ℕ → HunkFault

pub data PatchPathFault : Type 0 where
  basic : PathFault → PatchPathFault
  not_absolute not_a_file : PatchPathFault

pub data PatchError : Type 0 where
  invalid_envelope : EnvelopeFault → PatchError
  invalid_section : Text → PatchError
  duplicate_path : Text → PatchError
  -- "Move File", the only operation that is named and refused
  unsupported_operation : PatchError
  invalid_path : PatchPathFault → PatchError
  invalid_hunk : HunkFault → PatchError
  already_exists : Text → PatchError
  not_found : Text → PatchError
  context_not_found : ℕ → PatchError
  ambiguous_context : ℕ → PatchError

-- `PatchError::kind`
unfoldable pub kind : PatchError → Text
kind (invalid_envelope f) = codes "invalid_patch"
kind (invalid_section l) = codes "invalid_patch"
kind (invalid_hunk f) = codes "invalid_patch"
kind (duplicate_path p) = codes "duplicate_path"
kind unsupported_operation = codes "unsupported_operation"
kind (invalid_path f) = codes "invalid_path"
kind (already_exists p) = codes "already_exists"
kind (not_found p) = codes "not_found"
kind (context_not_found n) = codes "context_not_found"
kind (ambiguous_context n) = codes "ambiguous_context"
