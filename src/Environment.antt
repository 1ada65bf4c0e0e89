-- ===== src/Environment.antt =====
-- src/ssh/environment.rs: the values that a snapshot of a host's environment is made of, each read
-- from the bytes of one record.
pub mod Release
pub mod Elf
pub mod Records
pub mod Snapshot
pub mod Values
pub mod Kinds
pub mod Checked
pub mod Cut
pub mod Written
use se_sshion.Base.{
  ℕ, ◌^◌, Bool, true, false, not, ◌&&◌, ◌||◌, Option, none, some, List, [], ◌∷◌, ltb, leb, ◌==◌,
  if◌then◌else◌, if_some,
}
use se_sshion.Base.Lists.{length, take, any, is_nil}
use se_sshion.Base.Text.{Text, codes, text_eq, strip_prefix, trim, is_control, utf8_len}
use se_sshion.Base.Text.Utf8.{Bytes, as_bytes}
use se_sshion.Base.Text.Reading.{
  from_utf8, lines, is_ascii_digit, is_ascii_lowercase, split_ascii_whitespace, parse_digits,
}
use se_sshion.Base.Words.{u64_max, u32_max}

abbrev pub scalar_limit : ℕ
scalar_limit = 1024

abbrev pub file_limit : ℕ
file_limit = 16384

abbrev pub path_limit : ℕ
path_limit = 4096

abbrev pub cpu_model_limit : ℕ
cpu_model_limit = 256

-- `filter` of an option, and `and_then`
abbrev pub filter_option {ℓ} : {A : Type ℓ} → (A → Bool) → Option A → Option A
filter_option p none = none
filter_option p (some a) = if p a then some a else none

abbrev pub and_then {ℓ κ} : {A : Type ℓ} {B : Type κ} → Option A → (A → Option B) → Option B
and_then none f = none
and_then (some a) f = f a

-- a text that is not empty and has no control character
abbrev pub is_clean : Text → Bool
is_clean text = not (is_nil text) && not (any is_control text)

abbrev pub trimmed : Bytes → Option Text
trimmed payload = and_then (from_utf8 payload) (λ text. some (trim text))

unfoldable pub scalar : Bytes → ℕ → Option Text
unfolding from_utf8 trim is_control
scalar payload limit =
    if ltb limit (length payload) then none else filter_option is_clean (trimmed payload)

unfoldable pub cpu_model : Bytes → Option Text
unfolding from_utf8 trim is_control utf8_len
cpu_model payload =
    filter_option (λ value. is_clean value && leb (utf8_len value) cpu_model_limit)
      (trimmed payload)

abbrev pub all_digits : Text → Bool
all_digits text = not (is_nil text) && not (any (λ c. not (is_ascii_digit c)) text)

unfoldable pub decimal : Bytes → Option ℕ
unfolding from_utf8 trim parse_digits
decimal payload =
    if ltb scalar_limit (length payload)
    then none
    else and_then (filter_option all_digits (trimmed payload)) (λ text. parse_digits u64_max 0 text)

-- `u32::try_from(id).ok()`
abbrev pub in_u32 : ℕ → Option ℕ
in_u32 id = if leb id u32_max then some id else none

-- `find_map(|line| line.strip_prefix(label))`
unfoldable pub find_label : Text → List Text → Option Text
unfolding strip_prefix
find_label label [] = none
find_label label (line ∷ rest) =
    let later = find_label label rest in if_some (strip_prefix label line) (λ ids. some ids) later

-- the identifiers, if each is one
unfoldable pub all_ids : List Text → Option (List ℕ)
unfolding decimal as_bytes
all_ids [] = some []
all_ids (value ∷ values) =
    let rest = all_ids values in
    and_then (and_then (decimal (as_bytes value)) in_u32)
      (λ id. and_then rest (λ ids. some (id ∷ ids)))

abbrev pub second_of_four : List ℕ → Option ℕ
second_of_four (a ∷ b ∷ c ∷ d ∷ []) = some b
second_of_four ids = none

unfoldable pub effective_id : Bytes → Text → Option ℕ
unfolding from_utf8 lines find_label all_ids split_ascii_whitespace
effective_id payload label = and_then (from_utf8 payload) (λ text.
    and_then (find_label label (lines text))
      (λ line. and_then (all_ids (split_ascii_whitespace line)) second_of_four))

abbrev pub one_of : List Text → Text → Bool
one_of kinds value = any (text_eq value) kinds

abbrev pub is_declaration : Text → Bool
is_declaration value =
    leb (utf8_len value) 64
    && not (is_nil value)
    && not (
        any (λ c. not (is_ascii_lowercase c || (is_ascii_digit c || (c == b'-' || c == b'_'))))
          value)

abbrev pub or_option {ℓ} : {A : Type ℓ} → Option A → Option A → Option A
or_option none other = other
or_option (some a) other = some a

abbrev pub declared_kind : Option Text → Option Text → Option Text
declared_kind (some declaration) known_marker =
    if one_of
      (codes "docker" ∷ codes "podman" ∷ codes "lxc" ∷ codes "systemd-nspawn" ∷ codes "openvz" ∷ [])
      declaration
    then some declaration
    else if text_eq declaration (codes "lxc-libvirt")
    then some (codes "lxc")
    else if text_eq declaration (codes "oci")
    then or_option known_marker (some (codes "unknown"))
    else some (codes "unknown")
declared_kind none known_marker = known_marker

unfoldable pub container_kind : Option Text → Option Text → Option Text
unfolding text_eq utf8_len
container_kind declaration marker =
    declared_kind (filter_option is_declaration declaration)
      (filter_option (one_of (codes "podman" ∷ codes "docker" ∷ [])) marker)

unfoldable pub dmi_kind : Text → Option Text
unfolding text_eq
dmi_kind value =
    if text_eq value (codes "KVM")
    then some (codes "kvm")
    else if text_eq value (codes "QEMU")
    then some (codes "qemu")
    else if one_of (codes "VMware" ∷ codes "VMware, Inc." ∷ codes "VMware Virtual Platform" ∷ [])
        value
    then some (codes "vmware")
    else if one_of (codes "VirtualBox" ∷ codes "innotek GmbH" ∷ []) value
    then some (codes "virtualbox")
    else if one_of (codes "Xen" ∷ codes "HVM domU" ∷ []) value
    then some (codes "xen")
    else none

-- the option holds this text
abbrev pub holds : Text → Option Text → Bool
holds text none = false
holds text (some value) = text_eq value text

abbrev pub is_some {ℓ} : {A : Type ℓ} → Option A → Bool
is_some none = false
is_some (some a) = true

-- `match (product_kind, vendor_kind)`
abbrev pub join_kinds : Option Text → Option Text → Bool → Option Text
join_kinds (some product) (some vendor) observed =
    if (text_eq product (codes "kvm") && text_eq vendor (codes "qemu"))
      || (text_eq product (codes "qemu") && text_eq vendor (codes "kvm"))
    then some (codes "kvm")
    else if not (text_eq product vendor)
    then some (codes "unknown")
    else some product
join_kinds (some product) none observed = some product
join_kinds none (some vendor) observed = some vendor
join_kinds none none observed = if observed then some (codes "unknown") else none

unfoldable pub vm_kind : Option Text → Option Text → Option Text → Bool → Option Text
unfolding text_eq dmi_kind
vm_kind hypervisor_type product vendor cpu_hypervisor =
    if holds (codes "xen") hypervisor_type
    then some (codes "xen")
    else join_kinds
        (if holds (codes "Virtual Machine") product && holds (codes "Microsoft Corporation") vendor
          then some (codes "hyperv")
          else and_then product dmi_kind)
        (and_then vendor dmi_kind) (cpu_hypervisor || is_some hypervisor_type)
