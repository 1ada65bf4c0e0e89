-- ===== src/Environment/Records.antt =====
-- src/ssh/environment.rs: the snapshot, and the records of the probe that it is read from.
use se_sshion.Base.{ℕ, Bool, false, Option, none, List, [], ◌∷◌}
use se_sshion.Base.Text.{Text, codes}

pub record Virtualization : Type 0 where
  pub container : Option Text
  pub vm : Option Text

pub record HostEnvironment : Type 0 where
  pub hostname : Option Text
  pub os : Option Text
  pub distribution_name : Option Text
  pub kernel_release : Option Text
  pub machine_architecture : Option Text
  pub process_architecture : Option Text
  pub pointer_width : Option ℕ
  pub available_cpu_parallelism : Option ℕ
  pub effective_uid : Option ℕ
  pub effective_gid : Option ℕ
  pub running_as_root : Option Bool
  pub shell_executable : Option Text
  pub cpu_models : Option (List Text)
  pub virtualization : Virtualization

abbrev pub no_environment : HostEnvironment
no_environment = record {
  hostname = none;
  os = none;
  distribution_name = none;
  kernel_release = none;
  machine_architecture = none;
  process_architecture = none;
  pointer_width = none;
  available_cpu_parallelism = none;
  effective_uid = none;
  effective_gid = none;
  running_as_root = none;
  shell_executable = none;
  cpu_models = none;
  virtualization = record { container = none; vm = none };
}

-- the ids of the records, in their order
pub data FieldId : Type 0 where
  id_hostname id_hostname_proc id_os id_os_proc id_distribution id_kernel id_kernel_proc id_machine
        id_uid id_gid id_status id_shell id_cpu id_cpu_model1 id_cpu_model2 id_cpu_model3
        id_cpu_model4 id_cpu_hypervisor id_container_decl id_container_marker id_hypervisor_type
        id_dmi_product id_dmi_vendor id_elf :
      FieldId

abbrev pub field_ids : List FieldId
field_ids =
    id_hostname ∷ id_hostname_proc ∷ id_os ∷ id_os_proc ∷ id_distribution ∷ id_kernel
    ∷ id_kernel_proc ∷ id_machine ∷ id_uid ∷ id_gid ∷ id_status ∷ id_shell ∷ id_cpu ∷ id_cpu_model1
    ∷ id_cpu_model2 ∷ id_cpu_model3 ∷ id_cpu_model4 ∷ id_cpu_hypervisor ∷ id_container_decl
    ∷ id_container_marker ∷ id_hypervisor_type ∷ id_dmi_product ∷ id_dmi_vendor ∷ id_elf ∷ []

abbrev pub id_text : FieldId → Text
id_text id_hostname = codes "hostname"
id_text id_hostname_proc = codes "hostname_proc"
id_text id_os = codes "os"
id_text id_os_proc = codes "os_proc"
id_text id_distribution = codes "distribution"
id_text id_kernel = codes "kernel"
id_text id_kernel_proc = codes "kernel_proc"
id_text id_machine = codes "machine"
id_text id_uid = codes "uid"
id_text id_gid = codes "gid"
id_text id_status = codes "status"
id_text id_shell = codes "shell"
id_text id_cpu = codes "cpu"
id_text id_cpu_model1 = codes "cpu_model1"
id_text id_cpu_model2 = codes "cpu_model2"
id_text id_cpu_model3 = codes "cpu_model3"
id_text id_cpu_model4 = codes "cpu_model4"
id_text id_cpu_hypervisor = codes "cpu_hypervisor"
id_text id_container_decl = codes "container_decl"
id_text id_container_marker = codes "container_marker"
id_text id_hypervisor_type = codes "hypervisor_type"
id_text id_dmi_product = codes "dmi_product"
id_text id_dmi_vendor = codes "dmi_vendor"
id_text id_elf = codes "elf"

-- what the records have given so far
pub record Reading : Type 0 where
  pub snapshot : HostEnvironment
  pub models : List Text
  pub cpu_hypervisor : Bool
  pub container_decl : Option Text
  pub container_marker : Option Text
  pub hypervisor_type : Option Text
  pub dmi_product : Option Text
  pub dmi_vendor : Option Text

abbrev pub no_reading : Reading
no_reading = record {
  snapshot = no_environment;
  models = [];
  cpu_hypervisor = false;
  container_decl = none;
  container_marker = none;
  hypervisor_type = none;
  dmi_product = none;
  dmi_vendor = none;
}
