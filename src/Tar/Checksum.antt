-- ===== src/Tar/Checksum.antt =====
-- src/transfer/tar.rs: the checksum of a block, which reads its own field as spaces.
use se_sshion.Base.{
  ℕ, zero, suc, ◌+◌, ◌*◌, ◌^◌, ◌≤◌, ◌<◌, ◌≡◌, refl, ap, sym, ◌∙◌, Option, none, some, true, false,
  ◌&&◌, List, [], ◌∷◌, ◌++◌, ltb, leb, arith, append_assoc, subst,
}
use se_sshion.Base.Lists.{length, take, drop, length-append, All, All-append, All-map}
use se_sshion.Base.Text.{Text, codes}
use se_sshion.Base.Text.Utf8.{Bytes, as_bytes}
use se_sshion.Tar.{
  sum, replicate, write_bytes, checksum_from, compute_tar_checksum, header_fields, octal_digits,
}
use se_sshion.Tar.Octal.{octal_digits-IsOctal}
use se_sshion.Tar.Fields.{flat, lengths, Laid}
use se_sshion.Tar.Written.{zeros, octal_field, prefix_field, fields_with}
use se_sshion.Tar.Written.{header_fields-Laid}
use se_sshion.Base.Text.Encoded.{IsNameChar, as_bytes-IsNameByte}
use Prim.Native.Nat.{min}

sum-append : (xs ys : Bytes) → sum (xs ++ ys) ≡ sum xs + sum ys
sum-append [] ys = omega arith
sum-append (b ∷ xs) ys = omega (arith, sum-append xs ys)

-- in front of the field
checksum_from-before :
    (idx : ℕ) (xs ys : Bytes)
    → idx + length xs ≤ 148
    → checksum_from idx (xs ++ ys) ≡ sum xs + checksum_from (idx + length xs) ys
unfolding checksum_from
checksum_from-before idx [] ys h =
    let e : idx + length {A = ℕ} [] ≡ idx = omega arith in rw e (omega arith)
checksum_from-before idx (b ∷ xs) ys h =
    let e : (leb 148 idx && ltb idx 156) ≡ false = ground arith in
    let f : idx + length (b ∷ xs) ≡ idx + 1 + length xs = omega arith in
    rw (e, f) (omega (arith, checksum_from-before (idx + 1) xs ys (omega arith)))

-- in the field
checksum_from-inside :
    (idx : ℕ) (xs ys : Bytes)
    → 148 ≤ idx
    → idx + length xs ≤ 156
    → checksum_from idx (xs ++ ys) ≡ length xs * b' ' + checksum_from (idx + length xs) ys
unfolding checksum_from
checksum_from-inside idx [] ys h k =
    let e : idx + length {A = ℕ} [] ≡ idx = omega arith in rw e (omega arith)
checksum_from-inside idx (b ∷ xs) ys h k =
    let e : (leb 148 idx && ltb idx 156) ≡ true = ground arith in
    let f : idx + length (b ∷ xs) ≡ idx + 1 + length xs = omega arith in
    rw (e, f) (omega (arith, checksum_from-inside (idx + 1) xs ys (omega arith) (omega arith)))

-- behind the field
checksum_from-behind : (idx : ℕ) (xs : Bytes) → 156 ≤ idx → checksum_from idx xs ≡ sum xs
unfolding checksum_from
checksum_from-behind idx [] h = refl
checksum_from-behind idx (b ∷ xs) h =
    let e : (leb 148 idx && ltb idx 156) ≡ false = ground arith in
    rw e (omega (arith, checksum_from-behind (idx + 1) xs (omega arith)))

checksum-three :
    (before field behind : Bytes)
    → length before ≡ 148
    → length field ≡ 8
    → compute_tar_checksum (before ++ (field ++ behind)) ≡ sum before + (256 + sum behind)
unfolding compute_tar_checksum
checksum-three before field behind h k =
    let start : 0 + length before ≡ 148 = omega arith in
    let end : 148 + length field ≡ 156 = omega arith in
    checksum_from-before 0 before (field ++ behind) (omega arith)
    ∙ ap (λ n. sum before + n)
        (rw start (
          checksum_from-inside 148 field behind (omega arith) (omega arith)
          ∙ rw end (omega (arith, checksum_from-behind 156 behind (omega arith)))))

abbrev pub IsByte : ℕ → Type 0
IsByte b = b < 256

sum-bound : (xs : Bytes) → All IsByte xs → sum xs ≤ 255 * length xs
sum-bound [] h = omega arith
sum-bound (b ∷ xs) h = omega (arith, sum-bound xs h.1)

All-take : (P : ℕ → Type 0) (n : ℕ) (xs : Bytes) → All P xs → All P (take n xs)
All-take P zero xs h = tt
All-take P (suc n) [] h = tt
All-take P (suc n) (b ∷ xs) h = (h.0, All-take P n xs h.1)

All-drop : (P : ℕ → Type 0) (n : ℕ) (xs : Bytes) → All P xs → All P (drop n xs)
All-drop P zero xs h = h
All-drop P (suc n) [] h = tt
All-drop P (suc n) (b ∷ xs) h = All-drop P n xs h.1

All-replicate : (n b : ℕ) → IsByte b → All IsByte (replicate n b)
All-replicate zero b h = tt
All-replicate (suc n) b h = (h, All-replicate n b h)

write_bytes-IsByte :
    (dst src : Bytes) → All IsByte dst → All IsByte src → All IsByte (write_bytes dst src)
unfolding write_bytes
write_bytes-IsByte dst src h k =
    let n : ℕ = min (length dst) (length src) in
    All-append IsByte (take n src) (drop n dst) (All-take IsByte n src k) (All-drop IsByte n dst h)

name-IsByte :
    (n : ℕ) (name : Text) → All IsNameChar name → All IsByte (write_bytes (zeros n) (as_bytes name))
name-IsByte n name h =
    write_bytes-IsByte (zeros n) (as_bytes name) (All-replicate n 0 (omega arith))
      (All-map (λ b k. k.1) (as_bytes name) (as_bytes-IsNameByte name h))

-- the characters of the part, if it is there
abbrev pub MaybeName : Option Text → Type 0
MaybeName none = Unit
MaybeName (some prefix) = All IsNameChar prefix

prefix-IsByte : (prefix : Option Text) → MaybeName prefix → All IsByte (prefix_field prefix)
prefix-IsByte none h = All-replicate 155 0 (omega arith)
prefix-IsByte (some prefix) h = name-IsByte 155 prefix h

octal_field-IsByte : (places value : ℕ) → All IsByte (octal_field places value)
octal_field-IsByte places value =
    All-append IsByte (octal_digits places value) (0 ∷ [])
      (All-map (λ b k. omega (arith, k.1)) (octal_digits places value)
        (octal_digits-IsOctal places value))
      (omega arith, tt)

magic-IsByte : All IsByte (codes "ustar" ++ (0 ∷ []))
magic-IsByte =
    (omega arith, (omega arith, (omega arith, (omega arith, (omega arith, (omega arith, tt))))))

flat-append : (xs ys : List Bytes) → flat (xs ++ ys) ≡ flat xs ++ flat ys
flat-append [] ys = refl
flat-append (f ∷ xs) ys =
    ap (λ t. f ++ t) (flat-append xs ys) ∙ sym (append_assoc f (flat xs) (flat ys))

pub length-flat : (fs : List Bytes) → length (flat fs) ≡ sum (lengths fs)
length-flat [] = refl
length-flat (f ∷ fs) = length-append f (flat fs) ∙ omega (arith, length-flat fs)

All-flat : (fs : List Bytes) → All (All IsByte) fs → All IsByte (flat fs)
All-flat [] h = tt
All-flat (f ∷ fs) h = All-append IsByte f (flat fs) h.0 (All-flat fs h.1)

module _ (name : Text) (prefix : Option Text) (size mode mtime typeflag : ℕ) where
  abbrev before_checksum : List Bytes
  before_checksum =
      write_bytes (zeros 100) (as_bytes name)
      ∷ octal_field 7 mode
      ∷ octal_field 7 0
      ∷ octal_field 7 0
      ∷ octal_field 11 size
      ∷ octal_field 11 mtime
      ∷ []

  abbrev behind_checksum : List Bytes
  behind_checksum =
      (typeflag ∷ [])
      ∷ zeros 100
      ∷ (codes "ustar" ++ (0 ∷ []))
      ∷ codes "00"
      ∷ zeros 80
      ∷ prefix_field prefix
      ∷ zeros 12
      ∷ []

  abbrev fields : Bytes → List Bytes
  fields checksum = fields_with checksum name prefix size mode mtime typeflag

  abbrev spaces : Bytes
  spaces = replicate 8 b' '

  flat-fields :
      (checksum : Bytes)
      → flat (fields checksum) ≡ flat before_checksum ++ (checksum ++ flat behind_checksum)
  flat-fields checksum = flat-append before_checksum (checksum ∷ behind_checksum)

  abbrev header : Bytes
  header = header_fields name prefix size mode mtime typeflag

  header-flat : Laid header (fields spaces)
  header-flat = header_fields-Laid name prefix size mode mtime typeflag

  before-length : length (flat before_checksum) ≡ 148
  before-length = length-flat before_checksum ∙ ap (λ ns. sum (take 6 ns)) header-flat.sizes

  -- The checksum that a reader computes is the sum that `write_header` has taken, whatever digits
  -- stand in the checksum's field.
  pub compute_tar_checksum-Laid :
      (block checksum : Bytes)
      → Laid block (fields checksum)
      → length checksum ≡ 8
      → compute_tar_checksum block ≡ sum header
  compute_tar_checksum-Laid block checksum l h =
      ap compute_tar_checksum (l.is_flat ∙ flat-fields checksum)
      ∙ checksum-three (flat before_checksum) checksum (flat behind_checksum) before-length h
      ∙ sym (
          ap sum (header-flat.is_flat ∙ flat-fields spaces)
          ∙ sum-append (flat before_checksum) (spaces ++ flat behind_checksum)
          ∙ ap (λ n. sum (flat before_checksum) + n) (sum-append spaces (flat behind_checksum)))

  -- The sum of a header fits in the digits of its checksum.
  pub sum-header : All IsNameChar name → MaybeName prefix → IsByte typeflag → sum header < 8 ^ 6
  sum-header name_chars prefix_chars flag_byte =
      let size_of : length header ≡ 512 =
        ap length header-flat.is_flat ∙ length-flat (fields spaces) ∙ ap sum header-flat.sizes in
      let bytes : All IsByte (flat (fields spaces)) = All-flat (fields spaces) (
        name-IsByte 100 name name_chars,
        (
          octal_field-IsByte 7 mode,
          (
            octal_field-IsByte 7 0,
            (
              octal_field-IsByte 7 0,
              (
                octal_field-IsByte 11 size,
                (
                  octal_field-IsByte 11 mtime,
                  (
                    All-replicate 8 b' ' (omega arith),
                    (
                      (flag_byte, tt),
                      (
                        All-replicate 100 0 (omega arith),
                        (
                          magic-IsByte,
                          (
                            (omega arith, (omega arith, tt)),
                            (
                              All-replicate 80 0 (omega arith),
                              (
                                prefix-IsByte prefix prefix_chars,
                                (All-replicate 12 0 (omega arith), tt),
                              ),
                            ),
                          ),
                        ),
                      ),
                    ),
                  ),
                ),
              ),
            ),
          ),
        ),
      ) in
      omega (arith, sum-bound header (subst (All IsByte) (sym header-flat.is_flat) bytes))
