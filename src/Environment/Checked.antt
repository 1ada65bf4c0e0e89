-- ===== src/Environment/Checked.antt =====
-- src/ssh/environment.rs: what a snapshot holds, whatever the remote host answers.
use se_sshion.Base.{
  ℕ, ◌≡◌, refl, ◌≢◌, inl, inr, Bool, true, false, Option, none, some, List, [], ◌∷◌, ◌++◌, leb,
  if◌then◌else◌, Bool-cases, Option-cases, Option-cases,
}
use se_sshion.Base.Lists.{length, All, All-append}
use se_sshion.Base.Text.{Text, codes, text_eq, starts_with, strip_prefix}
use se_sshion.Base.Text.Utf8.{Bytes, as_bytes}
use se_sshion.Environment.{
  scalar_limit, file_limit, path_limit, filter_option, and_then, scalar, cpu_model, effective_id,
  from_utf8, lines,
}
use se_sshion.Environment.Release.{distribution, distribution_name, release_lines}
use se_sshion.Environment.Elf.{elf_abi}
use se_sshion.Environment.Values.{
  IfSome, IsText, IsModel, IsId, IsCount, filter-IfSome, and_then-IfSome, or_option-IfSome,
  scalar-IsText, cpu_model-IsModel, decimal-IsId, decimal-IsCount, effective_id-IsId,
}
use se_sshion.Environment.Kinds.{
  IsContainer, IsVm, IsAbi, container_kind-IsContainer, vm_kind-IsVm, elf_abi-IsAbi,
}
use se_sshion.Environment.Records.{
  HostEnvironment, no_environment, FieldId, id_hostname, id_hostname_proc, id_os, id_os_proc,
  id_distribution, id_kernel, id_kernel_proc, id_machine, id_uid, id_gid, id_status, id_shell,
  id_cpu, id_cpu_model1, id_cpu_model2, id_cpu_model3, id_cpu_model4, id_cpu_hypervisor,
  id_container_decl, id_container_marker, id_hypervisor_type, id_dmi_product, id_dmi_vendor, id_elf,
  field_ids, Reading, no_reading,
}
use se_sshion.Environment.Snapshot.{
  with_model, with_abi, fill, apply_record, named_record, read_records, insert_sorted, text_le,
  sort, dedup, some_models, is_root, finish_snapshot, parse_snapshot,
}

-- an absolute path
abbrev IsPath : Text → Type 0
IsPath t = IsText t × (starts_with (codes "/") t ≡ true)

-- both are known, of a program that this width goes with, or neither
abbrev KnownAbi : Option Text → Option ℕ → Type 0
KnownAbi none none = Unit
KnownAbi (some architecture) (some width) = IsAbi (architecture, width)
KnownAbi none (some width) = ⊥
KnownAbi (some architecture) none = ⊥

-- what the records give
abbrev RecordsChecked : HostEnvironment → Type 0
RecordsChecked e =
    IfSome IsText e.hostname
    × IfSome IsText e.os
    × IfSome IsText e.distribution_name
    × IfSome IsText e.kernel_release
    × IfSome IsText e.machine_architecture
    × KnownAbi e.process_architecture e.pointer_width
    × IfSome IsCount e.available_cpu_parallelism
    × IfSome IsId e.effective_uid
    × IfSome IsId e.effective_gid
    × IfSome IsPath e.shell_executable

abbrev ReadingChecked : Reading → Type 0
ReadingChecked r = RecordsChecked r.snapshot × All IsModel r.models

abbrev pub IsSome {ℓ} : {A : Type ℓ} → List A → Type ℓ
IsSome xs = xs ≢ []

-- A snapshot: every text is trimmed, not empty and without control characters, the numbers are in
-- their ranges, and the kinds are those that the program knows.
pub record Checked (e : HostEnvironment) : Type 0 where
  pub records : RecordsChecked e
  pub root : e.running_as_root ≡ is_root e.effective_uid
  pub models : IfSome (λ ms. IsSome ms × All IsModel ms) e.cpu_models
  pub container : IfSome IsContainer e.virtualization.container
  pub vm : IfSome IsVm e.virtualization.vm

fill-IsText : (old : Option Text) (p : Bytes) → IfSome IsText old → IfSome IsText (fill old p)
fill-IsText old p h =
    or_option-IfSome IsText old (scalar p scalar_limit) h (scalar-IsText p scalar_limit)

distribution-IsText : (p : Bytes) → IfSome IsText (distribution p)
unfolding distribution
distribution-IsText p =
    let named : Text → Option Text = λ result. scalar (as_bytes result) scalar_limit in
    and_then-IfSome IsText (from_utf8 p)
      (λ text. and_then (distribution_name (release_lines (lines text) [])) named)
      (λ text.
        and_then-IfSome IsText (distribution_name (release_lines (lines text) [])) named
          (λ result. scalar-IsText (as_bytes result) scalar_limit))

shell-IsPath :
    (p : Bytes) → IfSome IsPath (filter_option (starts_with (codes "/")) (scalar p path_limit))
shell-IsPath p =
    filter-IfSome IsText IsPath (starts_with (codes "/")) (scalar p path_limit)
      (scalar-IsText p path_limit) (λ t h k. (h, k))

with_model-ReadingChecked :
    (o : Option Text) (r : Reading)
    → IfSome IsModel o
    → ReadingChecked r
    → ReadingChecked (with_model o r)
with_model-ReadingChecked none r h k = k
with_model-ReadingChecked (some model) r h (k, m) =
    (k, All-append IsModel r.models (model ∷ []) m (h, tt))

with_abi-ReadingChecked :
    (o : Option (Text × ℕ)) (r : Reading)
    → IfSome IsAbi o
    → ReadingChecked r
    → ReadingChecked (with_abi o r)
with_abi-ReadingChecked none r h k = k
with_abi-ReadingChecked (some (architecture, width)) r w ((a, b, c, d, e, f, g, h, i, j), m) =
    ((a, b, c, d, e, w, g, h, i, j), m)

-- the record is left out where its file is too long
if-ReadingChecked :
    (b : Bool) (x y : Reading)
    → ReadingChecked x
    → ReadingChecked y
    → ReadingChecked (if b then x else y)
if-ReadingChecked true x y h k = h
if-ReadingChecked false x y h k = k

apply_record-ReadingChecked :
    (id : FieldId) (p : Bytes) (r : Reading)
    → ReadingChecked r
    → ReadingChecked (apply_record id p r)
unfolding apply_record
apply_record-ReadingChecked id_hostname p r ((a, b, c, d, e, f, g, h, i, j), m) =
    ((fill-IsText r.snapshot.hostname p a, b, c, d, e, f, g, h, i, j), m)
apply_record-ReadingChecked id_hostname_proc p r ((a, b, c, d, e, f, g, h, i, j), m) =
    ((fill-IsText r.snapshot.hostname p a, b, c, d, e, f, g, h, i, j), m)
apply_record-ReadingChecked id_os p r ((a, b, c, d, e, f, g, h, i, j), m) =
    ((a, fill-IsText r.snapshot.os p b, c, d, e, f, g, h, i, j), m)
apply_record-ReadingChecked id_os_proc p r ((a, b, c, d, e, f, g, h, i, j), m) =
    ((a, fill-IsText r.snapshot.os p b, c, d, e, f, g, h, i, j), m)
apply_record-ReadingChecked id_kernel p r ((a, b, c, d, e, f, g, h, i, j), m) =
    ((a, b, c, fill-IsText r.snapshot.kernel_release p d, e, f, g, h, i, j), m)
apply_record-ReadingChecked id_kernel_proc p r ((a, b, c, d, e, f, g, h, i, j), m) =
    ((a, b, c, fill-IsText r.snapshot.kernel_release p d, e, f, g, h, i, j), m)
apply_record-ReadingChecked id_machine p r ((a, b, c, d, e, f, g, h, i, j), m) =
    ((a, b, c, d, scalar-IsText p scalar_limit, f, g, h, i, j), m)
apply_record-ReadingChecked id_uid p r ((a, b, c, d, e, f, g, h, i, j), m) =
    ((a, b, c, d, e, f, g, decimal-IsId p, i, j), m)
apply_record-ReadingChecked id_gid p r ((a, b, c, d, e, f, g, h, i, j), m) =
    ((a, b, c, d, e, f, g, h, decimal-IsId p, j), m)
apply_record-ReadingChecked id_shell p r ((a, b, c, d, e, f, g, h, i, j), m) =
    ((a, b, c, d, e, f, g, h, i, shell-IsPath p), m)
apply_record-ReadingChecked id_cpu p r ((a, b, c, d, e, f, g, h, i, j), m) =
    ((a, b, c, d, e, f, decimal-IsCount p, h, i, j), m)
apply_record-ReadingChecked id_distribution p r ((a, b, c, d, e, f, g, h, i, j), m) =
    if-ReadingChecked (leb (length p) file_limit) _ r
      ((a, b, distribution-IsText p, d, e, f, g, h, i, j), m) ((a, b, c, d, e, f, g, h, i, j), m)
apply_record-ReadingChecked id_status p r ((a, b, c, d, e, f, g, h, i, j), m) =
    let uid =
      or_option-IfSome IsId r.snapshot.effective_uid (effective_id p (codes "Uid:")) h
        (effective_id-IsId p (codes "Uid:")) in
    let gid =
      or_option-IfSome IsId r.snapshot.effective_gid (effective_id p (codes "Gid:")) i
        (effective_id-IsId p (codes "Gid:")) in
    if-ReadingChecked (leb (length p) file_limit) _ r ((a, b, c, d, e, f, g, uid, gid, j), m)
      ((a, b, c, d, e, f, g, h, i, j), m)
apply_record-ReadingChecked id_cpu_model1 p r k =
    with_model-ReadingChecked (cpu_model p) r (cpu_model-IsModel p) k
apply_record-ReadingChecked id_cpu_model2 p r k =
    with_model-ReadingChecked (cpu_model p) r (cpu_model-IsModel p) k
apply_record-ReadingChecked id_cpu_model3 p r k =
    with_model-ReadingChecked (cpu_model p) r (cpu_model-IsModel p) k
apply_record-ReadingChecked id_cpu_model4 p r k =
    with_model-ReadingChecked (cpu_model p) r (cpu_model-IsModel p) k
apply_record-ReadingChecked id_cpu_hypervisor p r k = k
apply_record-ReadingChecked id_container_decl p r k = k
apply_record-ReadingChecked id_container_marker p r k = k
apply_record-ReadingChecked id_hypervisor_type p r k = k
apply_record-ReadingChecked id_dmi_product p r k = k
apply_record-ReadingChecked id_dmi_vendor p r k = k
apply_record-ReadingChecked id_elf p r k = with_abi-ReadingChecked (elf_abi p) r (elf_abi-IsAbi p) k

read_records-ReadingChecked :
    (ids : List FieldId) (input : Bytes) (r : Reading)
    → ReadingChecked r
    → ReadingChecked (read_records ids input r)
unfolding read_records
read_records-ReadingChecked [] input r h = h
read_records-ReadingChecked (id ∷ ids) input r h = elim (Option-cases (named_record id input)) [
  | inl e ↦ rw e h
  | inr ((payload, status, rest), e) ↦ rw e (
      read_records-ReadingChecked ids rest _ (
        if-ReadingChecked (text_eq status (codes "0")) (apply_record id payload r) r
          (apply_record-ReadingChecked id payload r h) h))
]

insert_sorted-IsModel :
    (t : Text) (ts : List Text) → IsModel t → All IsModel ts → All IsModel (insert_sorted t ts)
unfolding insert_sorted
insert_sorted-IsModel t [] h k = (h, tt)
insert_sorted-IsModel t (u ∷ us) h k = elim (Bool-cases (text_le t u)) [
  | inl e ↦ rw e (h, k)
  | inr e ↦ rw e (k.0, insert_sorted-IsModel t us h k.1)
]

sort-IsModel : (ts : List Text) → All IsModel ts → All IsModel (sort ts)
unfolding sort
sort-IsModel [] h = tt
sort-IsModel (t ∷ ts) h = insert_sorted-IsModel t (sort ts) h.0 (sort-IsModel ts h.1)

dedup-IsModel : (ts : List Text) → All IsModel ts → All IsModel (dedup ts)
unfolding dedup
dedup-IsModel [] h = tt
dedup-IsModel (t ∷ []) h = h
dedup-IsModel (t ∷ u ∷ us) h = elim (Bool-cases (text_eq t u)) [
  | inl e ↦ rw e (dedup-IsModel (u ∷ us) h.1)
  | inr e ↦ rw e (h.0, dedup-IsModel (u ∷ us) h.1)
]

some_models-IsModel :
    (ts : List Text) → All IsModel ts → IfSome (λ ms. IsSome ms × All IsModel ms) (some_models ts)
some_models-IsModel [] h = tt
some_models-IsModel (t ∷ ts) h = (λ e. cc, h)

finish_snapshot-Checked : (r : Reading) → ReadingChecked r → Checked (finish_snapshot r)
unfolding finish_snapshot
finish_snapshot-Checked r h = record {
  records = h.0;
  root = refl;
  models =
      some_models-IsModel (dedup (sort r.models))
        (dedup-IsModel (sort r.models) (sort-IsModel r.models h.1));
  container = container_kind-IsContainer r.container_decl r.container_marker;
  vm = vm_kind-IsVm r.hypervisor_type r.dmi_product r.dmi_vendor r.cpu_hypervisor;
}

no_environment-Checked : Checked no_environment
no_environment-Checked = record {
  records = (tt, tt, tt, tt, tt, tt, tt, tt, tt, tt);
  root = refl;
  models = tt;
  container = tt;
  vm = tt;
}

-- Whatever bytes the remote host answers, every text in the snapshot is trimmed, not empty and
-- without control characters, the shell is an absolute path, each number is in its range,
-- `running_as_root` is whether the user is 0, and the architecture with its width, the container
-- and the virtual machine are among those that the program knows.
pub parse_snapshot-Checked : (raw : Bytes) → Checked (parse_snapshot raw)
unfolding parse_snapshot
parse_snapshot-Checked raw = elim (Option-cases (strip_prefix (codes "SE1" ++ 0 ∷ []) raw)) [
  | inl e ↦ rw e no_environment-Checked
  | inr (input, e) ↦ rw e (
      finish_snapshot-Checked (read_records field_ids input no_reading) (
        read_records-ReadingChecked field_ids input no_reading
          ((tt, tt, tt, tt, tt, tt, tt, tt, tt, tt), tt)))
]
