-- ===== src/Tar.antt =====
-- src/transfer/tar.rs: the headers of a tar stream, as they are written and as they are read.
pub mod Octal
pub mod Fields
pub mod Written
pub mod Checksum
pub mod Header
pub mod RoundTrip
pub mod Paths
pub mod Extract
use se_sshion.Base.{
  ℕ, zero, suc, ◌+◌, ◌-◌, ◌*◌, ◌/◌, ◌%◌, ◌^◌, Bool, true, false, not, ◌&&◌, ◌||◌, Option, none,
  some, List, [], ◌∷◌, ◌++◌, ltb, leb, ◌==◌, if◌then◌else◌, if_some, Result, ok, err, ◌>>=◌, ◌>>◌,
  reject_if, ok_or,
}
use se_sshion.Base.Lists.{length, take, drop, is_nil}
use se_sshion.Base.Text.{Text, codes, text_eq, utf8_len}
use se_sshion.Base.Text.Utf8.{Bytes, from_utf8_lossy, as_bytes}
use se_sshion.Base.Words.{u64_max}
use Prim.Native.Nat.{min}

abbrev pub tar_block : ℕ
tar_block = 512

abbrev pub replicate {ℓ} : {A : Type ℓ} → ℕ → A → List A
replicate zero a = []
replicate (suc n) a = a ∷ replicate n a

-- `block[start..end]`
unfoldable pub slice : ℕ → ℕ → Bytes → Bytes
slice start end block = take (end - start) (drop start block)

-- `write_bytes`
unfoldable pub write_bytes : Bytes → Bytes → Bytes
write_bytes dst src = let len = min (length dst) (length src) in take len src ++ drop len dst

-- the block with what `write` makes of `block[start..end]` in its place
unfoldable pub put : ℕ → ℕ → (Bytes → Bytes) → Bytes → Bytes
unfolding slice
put start end write block = take start block ++ (write (slice start end block) ++ drop end block)

-- The loop of `write_octal`: the last digits of the value, and zeros in front once it is used up.
unfoldable pub octal_digits : ℕ → ℕ → Bytes
octal_digits zero v = []
octal_digits (suc places) v =
    let front = octal_digits places (v / 8) in
    (if v / 8 == 0 then replicate places b'0' else front) ++ ((b'0' + v % 8) ∷ [])

-- `write_octal`, for a field with room for the digits and a NUL
unfoldable pub write_octal : ℕ → ℕ → Bytes → Bytes
unfolding octal_digits
write_octal value width_digits dst =
    let len = min (length dst) width_digits in
    drop (width_digits - len) (octal_digits width_digits value)
    ++ (if ltb width_digits (length dst) then 0 ∷ drop (width_digits + 1) dst else drop len dst)

-- the loop of `write_octal_checksum`, which has no break
unfoldable pub checksum_digits : ℕ → ℕ → Bytes
checksum_digits zero v = []
checksum_digits (suc places) v = checksum_digits places (v / 8) ++ ((b'0' + v % 8) ∷ [])

unfoldable pub write_octal_checksum : ℕ → Bytes → Bytes
unfolding checksum_digits
write_octal_checksum value dst = checksum_digits 6 value ++ (0 ∷ b' ' ∷ [])

-- `path.rfind('/')`, as the texts in front of the last slash and behind it
unfoldable pub rsplit_slash : Text → Option (Text × Text)
rsplit_slash [] = none
rsplit_slash (c ∷ cs) =
    if_some (rsplit_slash cs) (λ p. some (c ∷ p.0, p.1)) (if c == b'/' then some ([], cs) else none)

pub data TarFault : Type 0 where
  path_too_long bad_octal overflowing_octal : TarFault
  bad_checksum : ℕ → ℕ → TarFault

unfoldable pub split_ustar_path : Text → Result TarFault (Text × Option Text)
unfolding rsplit_slash utf8_len
split_ustar_path path =
    if leb (utf8_len path) 100
    then ok (path, none)
    else if_some (rsplit_slash path)
        (λ p.
          if leb (utf8_len p.1) 100 && leb (utf8_len p.0) 155
          then ok (p.1, some p.0)
          else err path_too_long)
        (err path_too_long)

abbrev pub sum : Bytes → ℕ
sum [] = 0
sum (b ∷ bs) = b + sum bs

abbrev write_prefix : Option Text → Bytes → Bytes
write_prefix none header = header
write_prefix (some prefix) header = put 345 500 (λ dst. write_bytes dst (as_bytes prefix)) header

-- `write_header` up to the checksum, on the two parts of the path
unfoldable pub header_fields : Text → Option Text → ℕ → ℕ → ℕ → ℕ → Bytes
unfolding put write_bytes write_octal as_bytes
header_fields name prefix size mode mtime typeflag =
    let h = replicate tar_block 0 in
    let h = put 0 100 (λ dst. write_bytes dst (as_bytes name)) h in
    let h = put 100 108 (write_octal mode 7) h in
    let h = put 108 116 (write_octal 0 7) h in
    let h = put 116 124 (write_octal 0 7) h in
    let h = put 124 136 (write_octal size 11) h in
    let h = put 136 148 (write_octal mtime 11) h in
    let h = put 148 156 (λ dst. replicate (length dst) b' ') h in
    let h = put 156 157 (λ dst. typeflag ∷ []) h in
    let h = put 257 263 (λ dst. write_bytes dst (codes "ustar" ++ (0 ∷ []))) h in
    let h = put 263 265 (λ dst. write_bytes dst (codes "00")) h in write_prefix prefix h

unfoldable pub write_header : Text → ℕ → ℕ → ℕ → ℕ → Result TarFault Bytes
unfolding split_ustar_path header_fields write_octal_checksum
write_header path size mode mtime typeflag = do
  (name, prefix) ← split_ustar_path path
  let header = header_fields name prefix size mode mtime typeflag
  ok (put 148 156 (write_octal_checksum (sum header)) header)

-- `compute_tar_checksum`, from an index on
unfoldable pub checksum_from : ℕ → Bytes → ℕ
checksum_from idx [] = 0
checksum_from idx (b ∷ block) =
    (if leb 148 idx && ltb idx 156 then b' ' else b) + checksum_from (idx + 1) block

unfoldable pub compute_tar_checksum : Bytes → ℕ
unfolding checksum_from
compute_tar_checksum block = checksum_from 0 block

abbrev pub is_trimmed : ℕ → Bool
is_trimmed c = c == 0 || c == b' '

-- `trim_matches(['\0', ' '])`
unfoldable pub trim_front : Text → Text
trim_front [] = []
trim_front (c ∷ cs) = let rest = trim_front cs in if is_trimmed c then rest else c ∷ cs

unfoldable pub trim_back : Text → Text
trim_back [] = []
trim_back (c ∷ cs) = let rest = trim_back cs in if is_nil rest && is_trimmed c then [] else c ∷ rest

-- `u64::from_str_radix` at radix 8, behind the sign
unfoldable pub octal_value : ℕ → Text → Result TarFault ℕ
octal_value value [] = ok value
octal_value value (c ∷ cs) =
    let next = value * 8 + (c - b'0') in
    let rest = octal_value next cs in
    if not (leb b'0' c && leb c b'7')
    then err bad_octal
    else if ltb u64_max next
    then err overflowing_octal
    else rest

unfoldable pub from_octal : Text → Result TarFault ℕ
unfolding octal_value
from_octal [] = err bad_octal
from_octal (c ∷ cs) =
    if c == b'+'
    then (if is_nil cs then err bad_octal else octal_value 0 cs)
    else octal_value 0 (c ∷ cs)

unfoldable pub parse_octal : Bytes → Result TarFault ℕ
unfolding from_utf8_lossy trim_front trim_back from_octal
parse_octal field =
    let s = trim_back (trim_front (from_utf8_lossy field)) in
    if is_nil s then ok 0 else from_octal s

-- the field up to its first NUL
unfoldable pub until_nul : Bytes → Bytes
until_nul [] = []
until_nul (b ∷ bs) = let rest = until_nul bs in if b == 0 then [] else b ∷ rest

unfoldable pub parse_string : Bytes → Text
unfolding until_nul from_utf8_lossy
parse_string field = from_utf8_lossy (until_nul field)

unfoldable pub all_zero : Bytes → Bool
all_zero [] = true
all_zero (b ∷ bs) = b == 0 && all_zero bs

-- The last comparison is of six bytes with seven.
unfoldable pub has_magic : Bytes → Bool
unfolding slice text_eq
has_magic block =
    let magic = slice 257 263 block in
    let version = slice 263 265 block in
    (text_eq magic (codes "ustar" ++ (0 ∷ [])) || text_eq magic (codes "ustar "))
      && (text_eq version (codes "00")
          || (text_eq version (codes "  ")
              || (text_eq version (0 ∷ 0 ∷ [])
                  || (text_eq version (b'0' ∷ 0 ∷ []) || text_eq version (codes "0 ")))))
    || text_eq magic (codes "ustar  ")

unfoldable pub validate_tar_header : Bytes → Result TarFault Bool
unfolding all_zero parse_octal compute_tar_checksum has_magic
validate_tar_header block = if all_zero block then ok true else do
  stored ← parse_octal (slice 148 156 block)
  reject_if (not (stored == compute_tar_checksum block))
      (bad_checksum (compute_tar_checksum block) stored)
  ok (has_magic block)

pub record TarEntryHeader : Type 0 where
  pub path : Text
  pub size : ℕ
  pub typeflag : ℕ

abbrev pub full_path : Bool → Text → Text → Text
full_path is_ustar prefix name =
    if is_ustar && not (is_nil prefix) then prefix ++ (b'/' ∷ name) else name

abbrev pub first_of : Bytes → ℕ
first_of [] = 0
first_of (b ∷ bs) = b

unfoldable pub parse_header : Bytes → Result TarFault TarEntryHeader
unfolding validate_tar_header parse_string
parse_header block = do
  is_ustar ← validate_tar_header block
  size ← parse_octal (slice 124 136 block)
  ok (record {
    path =
        full_path is_ustar (parse_string (slice 345 500 block)) (parse_string (slice 0 100 block));
    size = size;
    typeflag = first_of (slice 156 157 block);
  })
