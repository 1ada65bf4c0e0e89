-- ===== src/Patch/Plan/Change.antt =====
-- What a plan says of the file, against the content that it was made from.
use se_sshion.Base.{false, not, Option, none, some, ◌≡◌, ◌↔◌, arith, ok, >>=-eq-ok}
use se_sshion.Base.Text.{Text, text_eq, text_eq_iff}
use se_sshion.Patch.{PatchOperation, FilePatch, PlannedPatch}
use se_sshion.Patch.Apply.{apply_hunks}
use se_sshion.Patch.Plan.{plan_operation, plan}

-- The plan is for this path, and it changes the file exactly if the new content is another.
pub record Describes (path : Text) (current : Option Text) (planned : PlannedPatch) : Type 0 where
  pub path_is : planned.path ≡ path
  pub changed_iff : (planned.changed ≡ false) ↔ (planned.new_content ≡ current)

not_changed_iff :
    (updated content : Text)
    → (not (text_eq updated content) ≡ false) ↔ (some updated ≡ some content)
not_changed_iff updated content = ground (arith, text_eq_iff updated content)

plan_operation-Describes :
    (op : PatchOperation) (path : Text) (current : Option Text) (planned : PlannedPatch)
    → plan_operation op path current ≡ ok planned
    → Describes path current planned
unfolding plan_operation
plan_operation-Describes (PatchOperation.add content) path (some current) planned h = absurd (cc h)
plan_operation-Describes (PatchOperation.add content) path none planned h = ground arith
plan_operation-Describes (PatchOperation.update hunks) path none planned h = absurd (cc h)
plan_operation-Describes (PatchOperation.update hunks) path (some content) planned h =
    let (updated, _applied, e) = >>=-eq-ok (apply_hunks content hunks) _ h in
    ground (arith, not_changed_iff updated content)
plan_operation-Describes PatchOperation.delete path none planned h = absurd (cc h)
plan_operation-Describes PatchOperation.delete path (some content) planned h = ground arith

-- A plan carries the patch's own path, and is marked unchanged exactly where its new content is
-- the content that it was made from, a missing file included.
pub plan-Describes :
    (patch : FilePatch) (current : Option Text) {planned : PlannedPatch}
    → plan patch current ≡ ok planned
    → Describes patch.path current planned
unfolding plan
plan-Describes patch current {planned} h =
    plan_operation-Describes patch.operation patch.path current planned h
