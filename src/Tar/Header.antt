-- ===== src/Tar/Header.antt =====
-- src/transfer/tar.rs: a header that `write_header` puts out, as `TarEntryHeader::parse` reads it.
use se_sshion.Base.{
  ==_iff, ℕ, zero, suc, ◌%◌, ◌^◌, ◌≤◌, ◌<◌, ◌≡◌, refl, ap, sym, ◌∙◌, Option, none, some, true,
  false, ◌&&◌, ◌==◌, List, [], ◌∷◌, ◌++◌, ok, arith,
}
use se_sshion.Base.Lists.{length, take, drop, take-length, length-append, All, All-map}
use se_sshion.Base.Text.{Text, utf8_len, text_eq}
use se_sshion.Base.Text.Utf8.{Bytes, as_bytes, from_utf8_lossy}
use se_sshion.Base.Text.Encoded.{
  IsNameChar, IsNameByte, as_bytes-IsNameByte, length-as_bytes, from_utf8_lossy-as_bytes,
}
use se_sshion.Tar.{
  checksum_digits, slice, put, write_bytes, sum, header_fields, write_octal_checksum,
  compute_tar_checksum, parse_octal, until_nul, parse_string, all_zero, has_magic,
  validate_tar_header, full_path, parse_header,
}
use mathlib.Core.List.{append-nil}
use se_sshion.Tar.Octal.{
  length-checksum_digits, length-replicate, parse_octal-octal_digits, parse_octal-checksum_digits,
}
use se_sshion.Tar.Fields.{flat, nth, Laid, slice-Laid}
use se_sshion.Tar.Written.{zeros, checksum_field, prefix_field, fields_with, header-Laid}
use se_sshion.Tar.Checksum.{IsByte, MaybeName, compute_tar_checksum-Laid, sum-header, length-flat}
use Prim.Native.Nat.{min}

until_nul-zeros : (k n : ℕ) → until_nul (drop k (zeros n)) ≡ []
unfolding until_nul
until_nul-zeros zero zero = refl
until_nul-zeros zero (suc n) = refl
until_nul-zeros (suc k) zero = refl
until_nul-zeros (suc k) (suc n) = until_nul-zeros k n

until_nul-append : (a b : Bytes) → All IsNameByte a → until_nul b ≡ [] → until_nul (a ++ b) ≡ a
unfolding until_nul
until_nul-append [] b h k = k
until_nul-append (c ∷ a) b h k =
    let e : (c == 0) ≡ false = ground arith in rw e (ap (λ t. c ∷ t) (until_nul-append a b h.1 k))

-- a part of the path, in a field with room for it
parse_string-write_bytes :
    (n : ℕ) (name : Text)
    → All IsNameChar name
    → utf8_len name ≤ n
    → parse_string (write_bytes (zeros n) (as_bytes name)) ≡ name
unfolding parse_string write_bytes
parse_string-write_bytes n name h fits =
    let src : Bytes = as_bytes name in
    let room : min (length (zeros n)) (length src) ≡ length src =
      omega (arith, length-replicate n 0, length-as_bytes name) in
    let all : take (length src) src ≡ src =
      ap (take (length src)) (sym (append-nil src)) ∙ take-length src [] in
    let cut : until_nul (src ++ drop (length src) (zeros n)) ≡ src =
      until_nul-append src (drop (length src) (zeros n)) (as_bytes-IsNameByte name h)
        (until_nul-zeros (length src) n) in
    rw (room, all, cut) (from_utf8_lossy-as_bytes name (All-map (λ c k. k.0) name h))

parse_string-zeros : (n : ℕ) → parse_string (zeros n) ≡ []
parse_string-zeros n = unfold parse_string from_utf8_lossy in rw (until_nul-zeros 0 n) refl

abbrev pub prefix_text : Option Text → Text
prefix_text none = []
prefix_text (some prefix) = prefix

abbrev pub PrefixFits : Option Text → Type 0
PrefixFits none = Unit
PrefixFits (some prefix) = utf8_len prefix ≤ 155

parse_string-prefix_field :
    (prefix : Option Text)
    → MaybeName prefix
    → PrefixFits prefix
    → parse_string (prefix_field prefix) ≡ prefix_text prefix
parse_string-prefix_field none h k = parse_string-zeros 155
parse_string-prefix_field (some prefix) h k = parse_string-write_bytes 155 prefix h k

all_zero-append : (a b : Bytes) → all_zero (a ++ b) ≡ (all_zero a && all_zero b)
unfolding all_zero
all_zero-append [] b = refl
all_zero-append (c ∷ a) b = ground (arith, all_zero-append a b)

all_zero-nth :
    (fs : List Bytes) (i : ℕ)
    → i < length fs
    → all_zero (nth i fs) ≡ false
    → all_zero (flat fs) ≡ false
all_zero-nth [] i h k = absurd (omega arith)
all_zero-nth (f ∷ fs) zero h k = all_zero-append f (flat fs) ∙ ground (arith, k)
all_zero-nth (f ∷ fs) (suc i) h k =
    all_zero-append f (flat fs) ∙ ground (arith, all_zero-nth fs i (omega arith) k)

module _ (name : Text) (prefix : Option Text) (size mode mtime typeflag : ℕ) where
  abbrev header : Bytes
  header = header_fields name prefix size mode mtime typeflag

  abbrev block : Bytes
  block = put 148 156 (write_octal_checksum (sum header)) header

  abbrev fields : List Bytes
  fields = fields_with (checksum_field (sum header)) name prefix size mode mtime typeflag

  block-Laid : Laid block fields
  block-Laid = header-Laid name prefix size mode mtime typeflag (sum header)

  all_zero-block : all_zero block ≡ false
  all_zero-block =
      ap all_zero block-Laid.is_flat ∙ all_zero-nth fields 9 (omega arith) (unfold all_zero in refl)

  has_magic-block : has_magic block ≡ true
  unfolding has_magic text_eq
  has_magic-block =
      rw
        (
          slice-Laid block fields 9 block-Laid (omega arith),
          slice-Laid block fields 10 block-Laid (omega arith),
        )
        refl

  checksum-length : length (checksum_field (sum header)) ≡ 8
  checksum-length =
      length-append (checksum_digits 6 (sum header)) (0 ∷ b' ' ∷ [])
      ∙ omega (arith, length-checksum_digits 6 (sum header))

  validate-block :
      All IsNameChar name → MaybeName prefix → IsByte typeflag → validate_tar_header block ≡ ok true
  unfolding validate_tar_header
  validate-block h k b =
      let stored : parse_octal (slice 148 156 block) ≡ ok (sum header) =
        ap parse_octal (slice-Laid block fields 6 block-Laid (omega arith))
        ∙ parse_octal-checksum_digits (sum header)
            (sum-header name prefix size mode mtime typeflag h k b) in
      let computed : compute_tar_checksum block ≡ sum header =
        compute_tar_checksum-Laid name prefix size mode mtime typeflag block
          (checksum_field (sum header)) block-Laid checksum-length in
      let same : (sum header == sum header) ≡ true = (==_iff (sum header) (sum header)).1 refl in
      rw (all_zero-block, stored, computed, same, has_magic-block) refl

  size-block : parse_octal (slice 124 136 block) ≡ ok (size % 8 ^ 11)
  size-block =
      ap parse_octal (slice-Laid block fields 4 block-Laid (omega arith))
      ∙ parse_octal-octal_digits 10 size (omega arith)

  pub parse_header-block :
      All IsNameChar name
      → MaybeName prefix
      → IsByte typeflag
      → utf8_len name ≤ 100
      → PrefixFits prefix
      → parse_header block
        ≡ ok (record {
          path = full_path true (prefix_text prefix) name;
          size = size % 8 ^ 11;
          typeflag = typeflag;
        })
  unfolding parse_header
  parse_header-block h k b fits prefix_fits =
      rw
        (
          validate-block h k b,
          size-block,
          slice-Laid block fields 12 block-Laid (omega arith),
          parse_string-prefix_field prefix k prefix_fits,
          slice-Laid block fields 0 block-Laid (omega arith),
          parse_string-write_bytes 100 name h fits,
          slice-Laid block fields 7 block-Laid (omega arith),
        )
        refl

  pub length-block : length block ≡ 512
  length-block = ap length block-Laid.is_flat ∙ length-flat fields ∙ ap sum block-Laid.sizes
