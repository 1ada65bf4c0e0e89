-- ===== src/Tar/Written.antt =====
-- src/transfer/tar.rs: the fields of the block that `write_header` makes.
use se_sshion.Base.{ℕ, suc, ◌≡◌, refl, ◌∙◌, Option, none, some, List, [], ◌∷◌, ◌++◌, arith}
use se_sshion.Base.Lists.{length, take, drop, length-append, length-take, length-drop}
use se_sshion.Base.Text.{Text, codes}
use se_sshion.Base.Text.Utf8.{Bytes, as_bytes}
use se_sshion.Tar.{
  tar_block, replicate, put, write_bytes, write_octal, octal_digits, write_octal_checksum,
  checksum_digits, write_prefix, header_fields,
}
use se_sshion.Tar.Octal.{length-octal_digits, length-checksum_digits}
use se_sshion.Tar.Fields.{Laid, put-Laid}
use Prim.Native.Nat.{min}

abbrev pub zeros : ℕ → Bytes
zeros n = replicate n 0

abbrev pub octal_field : ℕ → ℕ → Bytes
octal_field places value = octal_digits places value ++ (0 ∷ [])

abbrev pub prefix_field : Option Text → Bytes
prefix_field none = zeros 155
prefix_field (some prefix) = write_bytes (zeros 155) (as_bytes prefix)

-- the fields of a header with this checksum field
abbrev pub fields_with : Bytes → Text → Option Text → ℕ → ℕ → ℕ → ℕ → List Bytes
fields_with checksum name prefix size mode mtime typeflag =
    write_bytes (zeros 100) (as_bytes name)
    ∷ octal_field 7 mode
    ∷ octal_field 7 0
    ∷ octal_field 7 0
    ∷ octal_field 11 size
    ∷ octal_field 11 mtime
    ∷ checksum
    ∷ (typeflag ∷ [])
    ∷ zeros 100
    ∷ (codes "ustar" ++ (0 ∷ []))
    ∷ codes "00"
    ∷ zeros 80
    ∷ prefix_field prefix
    ∷ zeros 12
    ∷ []

pub length-write_bytes : (dst src : Bytes) → length (write_bytes dst src) ≡ length dst
unfolding write_bytes
length-write_bytes dst src =
    let n : ℕ = min (length dst) (length src) in
    length-append (take n src) (drop n dst)
    ∙ omega (arith, length-take n src (omega arith), length-drop n dst)

pub length-octal_field : (places value : ℕ) → length (octal_field places value) ≡ suc places
length-octal_field places value =
    length-append (octal_digits places value) (0 ∷ [])
    ∙ omega (arith, length-octal_digits places value)

prefix-Laid :
    (checksum : Bytes) (name : Text) (prefix : Option Text) (size mode mtime typeflag : ℕ)
    (block : Bytes)
    → Laid block (fields_with checksum name none size mode mtime typeflag)
    → Laid (write_prefix prefix block) (fields_with checksum name prefix size mode mtime typeflag)
prefix-Laid checksum name none size mode mtime typeflag block l = l
prefix-Laid checksum name (some prefix) size mode mtime typeflag block l =
    put-Laid block _ 12 (λ dst. write_bytes dst (as_bytes prefix)) l (omega arith)
      (length-write_bytes (zeros 155) (as_bytes prefix))

abbrev blank_fields : List Bytes
blank_fields =
    zeros 100
    ∷ zeros 8
    ∷ zeros 8
    ∷ zeros 8
    ∷ zeros 12
    ∷ zeros 12
    ∷ zeros 8
    ∷ zeros 1
    ∷ zeros 100
    ∷ zeros 6
    ∷ zeros 2
    ∷ zeros 80
    ∷ zeros 155
    ∷ zeros 12
    ∷ []

blank-Laid : Laid (zeros tar_block) blank_fields
blank-Laid = record { is_flat = refl; sizes = refl }

pub header_fields-Laid :
    (name : Text) (prefix : Option Text) (size mode mtime typeflag : ℕ)
    → Laid
        (header_fields name prefix size mode mtime typeflag)
        (fields_with (replicate 8 b' ') name prefix size mode mtime typeflag)
unfolding header_fields write_octal
header_fields-Laid name prefix size mode mtime typeflag =
    let magic : Bytes = codes "ustar" ++ (0 ∷ []) in
    let a =
      put-Laid _ _ 0 (λ dst. write_bytes dst (as_bytes name)) blank-Laid (omega arith)
        (length-write_bytes (zeros 100) (as_bytes name)) in
    let b = put-Laid _ _ 1 (write_octal mode 7) a (omega arith) (length-octal_field 7 mode) in
    let c = put-Laid _ _ 2 (write_octal 0 7) b (omega arith) (length-octal_field 7 0) in
    let d = put-Laid _ _ 3 (write_octal 0 7) c (omega arith) (length-octal_field 7 0) in
    let e = put-Laid _ _ 4 (write_octal size 11) d (omega arith) (length-octal_field 11 size) in
    let f = put-Laid _ _ 5 (write_octal mtime 11) e (omega arith) (length-octal_field 11 mtime) in
    let g = put-Laid _ _ 6 (λ dst. replicate (length dst) b' ') f (omega arith) refl in
    let h = put-Laid _ _ 7 (λ dst. typeflag ∷ []) g (omega arith) refl in
    let i =
      put-Laid _ _ 9 (λ dst. write_bytes dst magic) h (omega arith)
        (length-write_bytes (zeros 6) magic) in
    let j =
      put-Laid _ _ 10 (λ dst. write_bytes dst (codes "00")) i (omega arith)
        (length-write_bytes (zeros 2) (codes "00")) in
    prefix-Laid (replicate 8 b' ') name prefix size mode mtime typeflag _ j

abbrev pub checksum_field : ℕ → Bytes
checksum_field value = checksum_digits 6 value ++ (0 ∷ b' ' ∷ [])

-- the block that `write_header` puts out
pub header-Laid :
    (name : Text) (prefix : Option Text) (size mode mtime typeflag checksum : ℕ)
    → Laid
        (put 148 156
          (write_octal_checksum checksum)
          (header_fields name prefix size mode mtime typeflag))
        (fields_with (checksum_field checksum) name prefix size mode mtime typeflag)
unfolding write_octal_checksum
header-Laid name prefix size mode mtime typeflag checksum =
    put-Laid _ _ 6 (write_octal_checksum checksum)
      (header_fields-Laid name prefix size mode mtime typeflag) (omega arith)
      (length-append (checksum_digits 6 checksum) (0 ∷ b' ' ∷ [])
        ∙ omega (arith, length-checksum_digits 6 checksum))
