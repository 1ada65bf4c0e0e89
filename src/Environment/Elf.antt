-- ===== src/Environment/Elf.antt =====
-- src/ssh/environment.rs: the architecture that an ELF header names.
use se_sshion.Base.{
  ℕ, zero, suc, ◌+◌, ◌*◌, Bool, not, ◌&&◌, ◌||◌, Option, none, some, [], ◌∷◌, ◌==◌, if◌then◌else◌,
}
use se_sshion.Base.Lists.{length, take}
use se_sshion.Base.Text.{Text, codes, text_eq}
use se_sshion.Base.Text.Utf8.{Bytes}
use se_sshion.Environment.{and_then}

-- `header[i]`
abbrev pub byte_at : ℕ → Bytes → ℕ
byte_at i [] = 0
byte_at zero (b ∷ bs) = b
byte_at (suc i) (b ∷ bs) = byte_at i bs

-- in the byte order that the header names, which is 1 for little and 2 for big
abbrev pub read_u16 : ℕ → ℕ → Bytes → Option ℕ
read_u16 endian offset header =
    if endian == 1
    then some (byte_at offset header + 256 * byte_at (suc offset) header)
    else if endian == 2
    then some (byte_at (suc offset) header + 256 * byte_at offset header)
    else none

abbrev pub read_u32 : ℕ → Bytes → Option ℕ
read_u32 endian header =
    if endian == 1
    then some (
        byte_at 20 header
        + 256 * (byte_at 21 header + 256 * (byte_at 22 header + 256 * byte_at 23 header)))
    else if endian == 2
    then some (
        byte_at 23 header
        + 256 * (byte_at 22 header + 256 * (byte_at 21 header + 256 * byte_at 20 header)))
    else none

abbrev pub either_order : ℕ → Bool
either_order endian = endian == 1 || endian == 2

-- `match (machine, class, endian)`
unfoldable pub elf_machine : ℕ → ℕ → ℕ → Option (Text × ℕ)
elf_machine machine class endian =
    if machine == 3 && (class == 1 && endian == 1)
    then some (codes "x86", 32)
    else if machine == 62 && (class == 1 && endian == 1)
    then some (codes "x86_64", 32)
    else if machine == 62 && (class == 2 && endian == 1)
    then some (codes "x86_64", 64)
    else if machine == 40 && (class == 1 && either_order endian)
    then some (codes "arm", 32)
    else if machine == 183 && (class == 2 && either_order endian)
    then some (codes "aarch64", 64)
    else if machine == 20 && (class == 1 && either_order endian)
    then some (codes "powerpc", 32)
    else if machine == 21 && (class == 2 && either_order endian)
    then some (codes "powerpc64", 64)
    else if machine == 22 && (class == 1 && endian == 2)
    then some (codes "s390", 32)
    else if machine == 22 && (class == 2 && endian == 2)
    then some (codes "s390x", 64)
    else if machine == 243 && (class == 1 && either_order endian)
    then some (codes "riscv32", 32)
    else if machine == 243 && (class == 2 && either_order endian)
    then some (codes "riscv64", 64)
    else if machine == 258 && (class == 2 && endian == 1)
    then some (codes "loongarch64", 64)
    else none

-- the class of the address width, in bits
unfoldable pub elf_abi : Bytes → Option (Text × ℕ)
unfolding text_eq elf_machine
elf_abi header =
    let class = byte_at 4 header in
    let endian = byte_at 5 header in
    let version = read_u32 endian header in
    let kind = read_u16 endian 16 header in
    let machine = read_u16 endian 18 header in
    if not (length header == 64)
      || (not (text_eq (take 4 header) (127 ∷ codes "ELF"))
          || (not (byte_at 6 header == 1) || not (byte_at 7 header == 0 || byte_at 7 header == 3)))
    then none
    else and_then version (λ v. and_then kind (λ k.
      if not (v == 1) || not (k == 2 || k == 3)
      then none
      else and_then machine (λ m. elf_machine m class endian)))
