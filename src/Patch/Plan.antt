-- ===== src/Patch/Plan.antt =====
-- src/patch.rs: `FilePatch::plan`, what a patch makes of the current content of one file.
pub mod Change
use se_sshion.Base.{true, not, Option, none, some, Result, ok, err, ◌>>=◌}
use se_sshion.Base.Text.{Text, text_eq}
use se_sshion.Patch.{
  PatchOperationKind, PatchOperation, FilePatch, PlannedPatch, PatchError, already_exists,
  not_found,
}
use se_sshion.Patch.Apply.{apply_hunks}

-- `FilePatch::operation`
unfoldable pub operation_kind : PatchOperation → PatchOperationKind
operation_kind (PatchOperation.add content) = PatchOperationKind.add
operation_kind (PatchOperation.update hunks) = PatchOperationKind.update
operation_kind PatchOperation.delete = PatchOperationKind.delete

-- the `match (&self.operation, current)`, with the path behind the operation
unfoldable pub plan_operation : PatchOperation → Text → Option Text → Result PatchError PlannedPatch
unfolding apply_hunks text_eq
plan_operation (PatchOperation.add content) path (some current) = err (already_exists path)
plan_operation (PatchOperation.add content) path none =
    ok (record { path = path; new_content = some content; changed = true })
plan_operation (PatchOperation.update hunks) path none = err (not_found path)
plan_operation (PatchOperation.update hunks) path (some content) = do
  updated ← apply_hunks content hunks
  ok (record { path = path; new_content = some updated; changed = not (text_eq updated content) })
plan_operation PatchOperation.delete path none = err (not_found path)
plan_operation PatchOperation.delete path (some content) =
    ok (record { path = path; new_content = none; changed = true })

unfoldable pub plan : FilePatch → Option Text → Result PatchError PlannedPatch
unfolding plan_operation
plan patch current = plan_operation patch.operation patch.path current
