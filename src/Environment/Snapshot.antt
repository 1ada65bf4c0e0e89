-- ===== src/Environment/Snapshot.antt =====
-- src/ssh/environment.rs: `parse_snapshot`, from the output of the probe to the snapshot.
use se_sshion.Base.{
  ℕ, ◌-◌, Bool, true, false, not, ◌&&◌, ◌||◌, Option, none, some, List, [], ◌∷◌, ◌++◌, ltb, leb,
  ◌==◌, if◌then◌else◌, if_some,
}
use se_sshion.Base.Lists.{length, take, drop}
use se_sshion.Base.Text.{Text, codes, text_eq, strip_prefix, starts_with}
use se_sshion.Base.Text.Utf8.{Bytes}
use se_sshion.Environment.{
  scalar_limit, file_limit, path_limit, filter_option, and_then, scalar, cpu_model, decimal, in_u32,
  effective_id, container_kind, vm_kind, or_option,
}
use se_sshion.Environment.Release.{distribution}
use se_sshion.Environment.Elf.{elf_abi}
use se_sshion.Environment.Records.{
  HostEnvironment, no_environment, FieldId, id_hostname, id_hostname_proc, id_os, id_os_proc,
  id_distribution, id_kernel, id_kernel_proc, id_machine, id_uid, id_gid, id_status, id_shell,
  id_cpu, id_cpu_model1, id_cpu_model2, id_cpu_model3, id_cpu_model4, id_cpu_hypervisor,
  id_container_decl, id_container_marker, id_hypervisor_type, id_dmi_product, id_dmi_vendor, id_elf,
  field_ids, id_text, Reading, no_reading,
}
use Prim.Native.Nat.{min}

-- copy at most what there is room for; the flag says that bytes were left out
unfoldable pub append_bounded : Bytes → Bytes → ℕ → Bytes × Bool
append_bounded output bytes limit = (
  output ++ take (min (length bytes) (limit - length output)) bytes,
  ltb (limit - length output) (length bytes),
)

-- the bytes up to the next NUL, and those behind it
unfoldable pub nul_value : Bytes → Option (Bytes × Bytes)
nul_value [] = none
nul_value (b ∷ bs) =
    let rest = nul_value bs in
    if b == 0 then some ([], bs) else and_then rest (λ p. some (b ∷ p.0, p.1))

-- a record's payload, its exit status and what follows; an ELF header is 64 bytes and a NUL
unfoldable pub next_record : FieldId → Bytes → Option (Bytes × Bytes × Bytes)
unfolding nul_value
next_record id_elf input =
    if ltb (length input) 65 || not (text_eq (take 1 (drop 64 input)) (0 ∷ []))
    then none
    else and_then (nul_value (drop 65 input)) (λ p. some (take 64 input, p.0, p.1))
next_record id input =
    and_then (nul_value input) (λ p. and_then (nul_value p.1) (λ q. some (p.0, q.0, q.1)))

-- the same behind the record's id
unfoldable pub named_record : FieldId → Bytes → Option (Bytes × Bytes × Bytes)
unfolding nul_value next_record text_eq
named_record id input =
    and_then (nul_value input) (λ p. if text_eq p.0 (id_text id) then next_record id p.1 else none)

abbrev pub with_snapshot : HostEnvironment → Reading → Reading
with_snapshot s r = record r { snapshot = s }

abbrev pub with_model : Option Text → Reading → Reading
with_model none r = r
with_model (some model) r = record r { models = r.models ++ model ∷ [] }

abbrev pub with_abi : Option (Text × ℕ) → Reading → Reading
with_abi none r = r
with_abi (some (architecture, width)) r = record r {
  snapshot = record (r.snapshot) {
    process_architecture = some architecture;
    pointer_width = some width;
  };
}

-- a value that only fills a gap
abbrev pub fill : Option Text → Bytes → Option Text
fill old payload = or_option old (scalar payload scalar_limit)

-- `match id`
unfoldable pub apply_record : FieldId → Bytes → Reading → Reading
unfolding scalar distribution decimal effective_id cpu_model elf_abi text_eq starts_with
apply_record id_hostname p r =
    with_snapshot (record (r.snapshot) { hostname = fill r.snapshot.hostname p }) r
apply_record id_hostname_proc p r =
    with_snapshot (record (r.snapshot) { hostname = fill r.snapshot.hostname p }) r
apply_record id_os p r = with_snapshot (record (r.snapshot) { os = fill r.snapshot.os p }) r
apply_record id_os_proc p r = with_snapshot (record (r.snapshot) { os = fill r.snapshot.os p }) r
apply_record id_kernel p r =
    with_snapshot (record (r.snapshot) { kernel_release = fill r.snapshot.kernel_release p }) r
apply_record id_kernel_proc p r =
    with_snapshot (record (r.snapshot) { kernel_release = fill r.snapshot.kernel_release p }) r
apply_record id_distribution p r =
    if leb (length p) file_limit
    then with_snapshot (record (r.snapshot) { distribution_name = distribution p }) r
    else r
apply_record id_machine p r =
    with_snapshot (record (r.snapshot) { machine_architecture = scalar p scalar_limit }) r
apply_record id_uid p r =
    with_snapshot (record (r.snapshot) { effective_uid = and_then (decimal p) in_u32 }) r
apply_record id_gid p r =
    with_snapshot (record (r.snapshot) { effective_gid = and_then (decimal p) in_u32 }) r
apply_record id_status p r =
    if leb (length p) file_limit
    then with_snapshot
        (record (r.snapshot) {
          effective_uid = or_option r.snapshot.effective_uid (effective_id p (codes "Uid:"));
          effective_gid = or_option r.snapshot.effective_gid (effective_id p (codes "Gid:"));
        })
        r
    else r
apply_record id_shell p r =
    with_snapshot
      (record (r.snapshot) {
        shell_executable = filter_option (starts_with (codes "/")) (scalar p path_limit);
      })
      r
apply_record id_cpu p r =
    with_snapshot
      (record (r.snapshot) { available_cpu_parallelism = filter_option (ltb 0) (decimal p) }) r
apply_record id_cpu_model1 p r = with_model (cpu_model p) r
apply_record id_cpu_model2 p r = with_model (cpu_model p) r
apply_record id_cpu_model3 p r = with_model (cpu_model p) r
apply_record id_cpu_model4 p r = with_model (cpu_model p) r
apply_record id_cpu_hypervisor p r = record r { cpu_hypervisor = text_eq p (codes "1") }
apply_record id_container_decl p r = record r { container_decl = scalar p scalar_limit }
apply_record id_container_marker p r = record r { container_marker = scalar p scalar_limit }
apply_record id_hypervisor_type p r = record r { hypervisor_type = scalar p scalar_limit }
apply_record id_dmi_product p r = record r { dmi_product = scalar p scalar_limit }
apply_record id_dmi_vendor p r = record r { dmi_vendor = scalar p scalar_limit }
apply_record id_elf p r = with_abi (elf_abi p) r

-- the loop over the ids
unfoldable pub read_records : List FieldId → Bytes → Reading → Reading
unfolding named_record apply_record text_eq
read_records [] input r = r
read_records (id ∷ ids) input r =
    if_some (named_record id input)
      (λ p. read_records ids p.2 (if text_eq p.1 (codes "0") then apply_record id p.0 r else r)) r

-- the order of texts by their characters, which is that of their bytes
unfoldable pub text_le : Text → Text → Bool
text_le [] b = true
text_le (x ∷ a) [] = false
text_le (x ∷ a) (y ∷ b) = ltb x y || (x == y && text_le a b)

unfoldable pub insert_sorted : Text → List Text → List Text
unfolding text_le
insert_sorted t [] = t ∷ []
insert_sorted t (u ∷ us) =
    let rest = insert_sorted t us in if text_le t u then t ∷ u ∷ us else u ∷ rest

-- `sort_unstable`
unfoldable pub sort : List Text → List Text
unfolding insert_sorted
sort [] = []
sort (t ∷ ts) = insert_sorted t (sort ts)

unfoldable pub dedup : List Text → List Text
unfolding text_eq
dedup [] = []
dedup (t ∷ []) = t ∷ []
dedup (t ∷ u ∷ us) = let rest = dedup (u ∷ us) in if text_eq t u then rest else t ∷ rest

abbrev pub some_models : List Text → Option (List Text)
some_models [] = none
some_models (t ∷ ts) = some (t ∷ ts)

abbrev pub is_root : Option ℕ → Option Bool
is_root none = none
is_root (some uid) = some (uid == 0)

-- behind the loop
unfoldable pub finish_snapshot : Reading → HostEnvironment
unfolding sort dedup container_kind vm_kind
finish_snapshot r = record (r.snapshot) {
  running_as_root = is_root r.snapshot.effective_uid;
  cpu_models = some_models (dedup (sort r.models));
  virtualization = record {
    container = container_kind r.container_decl r.container_marker;
    vm = vm_kind r.hypervisor_type r.dmi_product r.dmi_vendor r.cpu_hypervisor;
  };
}

unfoldable pub parse_snapshot : Bytes → HostEnvironment
unfolding strip_prefix read_records finish_snapshot
parse_snapshot raw =
    if_some (strip_prefix (codes "SE1" ++ 0 ∷ []) raw)
      (λ input. finish_snapshot (read_records field_ids input no_reading)) no_environment
