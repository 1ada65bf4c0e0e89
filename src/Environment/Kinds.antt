-- ===== src/Environment/Kinds.antt =====
-- src/ssh/environment.rs: the containers, virtual machines and architectures that can be named.
use se_sshion.Base.{
  ℕ, ◌≡◌, refl, ◌⊎◌, inl, inr, Bool, true, false, not, ◌&&◌, ◌||◌, Option, none, some, List, [],
  ◌∷◌, ◌==◌, arith, Bool-cases, ◌++◌,
}
use se_sshion.Base.Lists.{any, length, take}
use se_sshion.Base.Text.{Text, codes, text_eq}
use se_sshion.Base.Text.Utf8.{Bytes}
use se_sshion.Environment.{
  filter_option, and_then, one_of, declared_kind, is_declaration, container_kind, dmi_kind,
  join_kinds, vm_kind, is_some, holds,
}
use se_sshion.Environment.Elf.{either_order, byte_at, read_u16, read_u32, elf_machine, elf_abi}
use se_sshion.Environment.Values.{
  IfSome, if-IfSome, and_then-IfSome, filter-IfSome, or_option-IfSome,
}

abbrev declared_names : List Text
declared_names =
    codes "docker" ∷ codes "podman" ∷ codes "lxc" ∷ codes "systemd-nspawn" ∷ codes "openvz" ∷ []

abbrev pub container_kinds : List Text
container_kinds =
    codes "docker"
    ∷ codes "podman"
    ∷ codes "lxc"
    ∷ codes "systemd-nspawn"
    ∷ codes "openvz"
    ∷ codes "unknown"
    ∷ []

abbrev pub vm_kinds : List Text
vm_kinds =
    codes "kvm"
    ∷ codes "qemu"
    ∷ codes "vmware"
    ∷ codes "virtualbox"
    ∷ codes "xen"
    ∷ codes "hyperv"
    ∷ codes "unknown"
    ∷ []

abbrev pub IsContainer : Text → Type 0
IsContainer kind = one_of container_kinds kind ≡ true

abbrev pub IsVm : Text → Type 0
IsVm kind = one_of vm_kinds kind ≡ true

any-append : (p : Text → Bool) (xs ys : List Text) → any p xs ≡ true → any p (xs ++ ys) ≡ true
any-append p [] ys h = cc
any-append p (x ∷ xs) ys h = ground (arith, any-append p xs ys)

declared_kind-IsContainer :
    (declaration marker : Option Text)
    → IfSome IsContainer marker
    → IfSome IsContainer (declared_kind declaration marker)
unfolding text_eq
declared_kind-IsContainer none marker h = h
declared_kind-IsContainer (some declaration) marker h =
    elim (Bool-cases (one_of declared_names declaration)) [
      | inl e ↦ rw e (any-append (text_eq declaration) declared_names (codes "unknown" ∷ []) e)
      | inr e ↦ rw e (
          if-IfSome IsContainer (text_eq declaration (codes "lxc-libvirt")) (some (codes "lxc")) _
            refl
            (if-IfSome IsContainer (text_eq declaration (codes "oci")) _ (some (codes "unknown"))
              (or_option-IfSome IsContainer marker (some (codes "unknown")) h refl) refl))
    ]

marker-IsContainer :
    (marker : Text)
    → one_of (codes "podman" ∷ codes "docker" ∷ []) marker ≡ true
    → IsContainer marker
marker-IsContainer marker h = ground (arith, h)

any_value : (marker : Option Text) → IfSome (λ t. Unit {0}) marker
any_value none = tt
any_value (some t) = tt

pub container_kind-IsContainer :
    (declaration marker : Option Text) → IfSome IsContainer (container_kind declaration marker)
unfolding container_kind
container_kind-IsContainer declaration marker =
    declared_kind-IsContainer (filter_option is_declaration declaration) _ (
      filter-IfSome (λ t. Unit) IsContainer (one_of (codes "podman" ∷ codes "docker" ∷ [])) marker
        (any_value marker) (λ t h k. marker-IsContainer t k))

dmi_kind-IsVm : (value : Text) → IfSome IsVm (dmi_kind value)
unfolding dmi_kind text_eq
dmi_kind-IsVm value = if-IfSome IsVm (text_eq value (codes "KVM")) _ _ refl (
    if-IfSome IsVm (text_eq value (codes "QEMU")) _ _ refl (
      if-IfSome IsVm
        (one_of (codes "VMware" ∷ codes "VMware, Inc." ∷ codes "VMware Virtual Platform" ∷ [])
          value)
        _ _ refl
        (if-IfSome IsVm (one_of (codes "VirtualBox" ∷ codes "innotek GmbH" ∷ []) value) _ _ refl
          (if-IfSome IsVm (one_of (codes "Xen" ∷ codes "HVM domU" ∷ []) value) _ _ refl tt))))

join_kinds-IsVm :
    (product vendor : Option Text) (observed : Bool)
    → IfSome IsVm product
    → IfSome IsVm vendor
    → IfSome IsVm (join_kinds product vendor observed)
unfolding text_eq
join_kinds-IsVm none none true h k = refl
join_kinds-IsVm none none false h k = tt
join_kinds-IsVm none (some vendor) observed h k = k
join_kinds-IsVm (some product) none observed h k = h
join_kinds-IsVm (some product) (some vendor) observed h k =
    if-IfSome IsVm
      ((text_eq product (codes "kvm") && text_eq vendor (codes "qemu"))
        || (text_eq product (codes "qemu") && text_eq vendor (codes "kvm")))
      (some (codes "kvm")) _ refl
      (if-IfSome IsVm (not (text_eq product vendor)) (some (codes "unknown")) (some product) refl h)

pub vm_kind-IsVm :
    (hypervisor product vendor : Option Text) (cpu : Bool)
    → IfSome IsVm (vm_kind hypervisor product vendor cpu)
unfolding vm_kind text_eq
vm_kind-IsVm hypervisor product vendor cpu =
    if-IfSome IsVm (holds (codes "xen") hypervisor) (some (codes "xen")) _ refl (
      join_kinds-IsVm _ (and_then vendor dmi_kind) (cpu || is_some hypervisor)
        (if-IfSome IsVm
          (holds (codes "Virtual Machine") product && holds (codes "Microsoft Corporation") vendor)
          (some (codes "hyperv")) (and_then product dmi_kind) refl
          (and_then-IfSome IsVm product dmi_kind dmi_kind-IsVm))
        (and_then-IfSome IsVm vendor dmi_kind dmi_kind-IsVm))

-- the architectures whose programs have addresses of 32 bits, and those of 64 bits
abbrev pub narrow_architectures : List Text
narrow_architectures =
    codes "x86"
    ∷ codes "x86_64"
    ∷ codes "arm"
    ∷ codes "powerpc"
    ∷ codes "s390"
    ∷ codes "riscv32"
    ∷ []

abbrev pub wide_architectures : List Text
wide_architectures =
    codes "x86_64"
    ∷ codes "aarch64"
    ∷ codes "powerpc64"
    ∷ codes "s390x"
    ∷ codes "riscv64"
    ∷ codes "loongarch64"
    ∷ []

abbrev pub IsAbi : Text × ℕ → Type 0
IsAbi (architecture, width) =
    ((width ≡ 32) × (one_of narrow_architectures architecture ≡ true))
    ⊎ ((width ≡ 64) × (one_of wide_architectures architecture ≡ true))

elf_machine-IsAbi : (machine class endian : ℕ) → IfSome IsAbi (elf_machine machine class endian)
unfolding elf_machine text_eq
elf_machine-IsAbi machine class endian =
    if-IfSome IsAbi (machine == 3 && (class == 1 && endian == 1)) _ _ (inl (refl, refl)) (
      if-IfSome IsAbi (machine == 62 && (class == 1 && endian == 1)) _ _ (inl (refl, refl)) (
        if-IfSome IsAbi (machine == 62 && (class == 2 && endian == 1)) _ _ (inr (refl, refl)) (
          if-IfSome IsAbi (machine == 40 && (class == 1 && either_order endian)) _ _
            (inl (refl, refl))
            (if-IfSome IsAbi (machine == 183 && (class == 2 && either_order endian)) _ _
              (inr (refl, refl))
              (if-IfSome IsAbi (machine == 20 && (class == 1 && either_order endian)) _ _
                (inl (refl, refl))
                (if-IfSome IsAbi (machine == 21 && (class == 2 && either_order endian)) _ _
                  (inr (refl, refl))
                  (if-IfSome IsAbi (machine == 22 && (class == 1 && endian == 2)) _ _
                    (inl (refl, refl))
                    (if-IfSome IsAbi (machine == 22 && (class == 2 && endian == 2)) _ _
                      (inr (refl, refl))
                      (if-IfSome IsAbi (machine == 243 && (class == 1 && either_order endian)) _ _
                        (inl (refl, refl))
                        (if-IfSome IsAbi (machine == 243 && (class == 2 && either_order endian)) _ _
                          (inr (refl, refl))
                          (if-IfSome IsAbi (machine == 258 && (class == 2 && endian == 1)) _ _
                            (inr (refl, refl)) tt)))))))))))

pub elf_abi-IsAbi : (header : Bytes) → IfSome IsAbi (elf_abi header)
unfolding elf_abi
elf_abi-IsAbi header =
    let class = byte_at 4 header in
    let endian = byte_at 5 header in
    let named : ℕ → Option (Text × ℕ) = λ m. elf_machine m class endian in
    let read : ℕ → Option (Text × ℕ) = λ k. and_then (read_u16 endian 18 header) named in
    if-IfSome IsAbi
      (not (length header == 64)
        || (not (text_eq (take 4 header) (127 ∷ codes "ELF"))
            || (not (byte_at 6 header == 1)
                || not (byte_at 7 header == 0 || byte_at 7 header == 3))))
      none _ tt
      (and_then-IfSome IsAbi (read_u32 endian header) _ (λ v.
        and_then-IfSome IsAbi (read_u16 endian 16 header) _ (λ k.
          if-IfSome IsAbi (not (v == 1) || not (k == 2 || k == 3)) none _ tt (
            and_then-IfSome IsAbi (read_u16 endian 18 header) named
              (λ m. elf_machine-IsAbi m class endian)))))
