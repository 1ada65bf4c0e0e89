-- ===== src/Tar/Octal.antt =====
-- src/transfer/tar.rs: numbers in octal digits, read back from a header's field.
use se_sshion.Base.{
  ℕ, zero, suc, ◌+◌, ◌-◌, ◌*◌, ◌/◌, ◌%◌, ◌^◌, ◌≤◌, ◌<◌, ◌≡◌, refl, ap, ◌∙◌, sym, inl, inr, true,
  false, ◌&&◌, [], ◌∷◌, ◌++◌, ltb, leb, ◌==◌, Bool-cases, ok, arith, subst,
}
use se_sshion.Base.Lists.{length, length-append, All, All-append}
use se_sshion.Base.Text.{Text}
use se_sshion.Base.Text.Utf8.{Bytes, between, lossy_from, from_utf8_lossy}
use se_sshion.Base.Text.Encoded.{one_byte}
use se_sshion.Base.Words.{u64_max}
use native.Mathlib.Nat.{
  mod-lt, mod-eq_of_lt, mul-add-mod_self_left, pow-le-pow_right, pow-succ', zero-mod,
}
use se_sshion.Tar.{
  replicate, octal_digits, checksum_digits, is_trimmed, trim_front, trim_back, octal_value,
  from_octal, parse_octal,
}

abbrev pub IsOctal : ℕ → Type 0
IsOctal c = (b'0' ≤ c) × (c ≤ b'7')

-- the number that octal digits continue
abbrev pub read_octal : ℕ → Text → ℕ
read_octal value [] = value
read_octal value (c ∷ cs) = read_octal (value * 8 + (c - b'0')) cs

read_octal-append :
    (value : ℕ) (a b : Text) → read_octal value (a ++ b) ≡ read_octal (read_octal value a) b
read_octal-append value [] b = refl
read_octal-append value (c ∷ a) b = read_octal-append (value * 8 + (c - b'0')) a b

le-read_octal : (value : ℕ) (a : Text) → value ≤ read_octal value a
le-read_octal value [] = omega arith
le-read_octal value (c ∷ a) = omega (arith, le-read_octal (value * 8 + (c - b'0')) a)

octal_value-read :
    (value : ℕ) (ds : Text)
    → All IsOctal ds
    → read_octal value ds ≤ u64_max
    → octal_value value ds ≡ ok (read_octal value ds)
unfolding octal_value
octal_value-read value [] h k = refl
octal_value-read value (c ∷ ds) h k =
    let e : (leb b'0' c && leb c b'7') ≡ true = ground arith in
    let f : ltb u64_max (value * 8 + (c - b'0')) ≡ false =
      ground (arith, le-read_octal (value * 8 + (c - b'0')) ds) in
    rw (e, f) (octal_value-read (value * 8 + (c - b'0')) ds h.1 k)

from-ascii : (a : Bytes) → All (λ b. b < 128) a → lossy_from between a ≡ a
from-ascii [] h = unfold lossy_from in refl
from-ascii (b ∷ a) h = one_byte b a h.0 ∙ ap (λ t. b ∷ t) (from-ascii a h.1)

trim_back-append :
    (ds tail : Text) → All IsOctal ds → trim_back tail ≡ [] → trim_back (ds ++ tail) ≡ ds
unfolding trim_back
trim_back-append [] tail h k = k
trim_back-append (c ∷ ds) tail h k =
    let e : is_trimmed c ≡ false = ground arith in
    let f : trim_back (ds ++ tail) ≡ ds = trim_back-append ds tail h.1 k in rw (f, e) (ground arith)

IsOctal-ascii : (ds : Bytes) → All IsOctal ds → All (λ b. b < 128) ds
IsOctal-ascii [] h = tt
IsOctal-ascii (c ∷ ds) h = (omega (arith, h.0), IsOctal-ascii ds h.1)

trim_front-octal : (c : ℕ) (cs : Text) → IsOctal c → trim_front (c ∷ cs) ≡ c ∷ cs
unfolding trim_front
trim_front-octal c cs h = let e : is_trimmed c ≡ false = ground arith in rw e refl

from_octal-octal : (c : ℕ) (cs : Text) → IsOctal c → from_octal (c ∷ cs) ≡ octal_value 0 (c ∷ cs)
unfolding from_octal
from_octal-octal c cs h = let e : (c == b'+') ≡ false = ground arith in rw e refl

-- A field with digits, and behind them only what the reader trims, is read as their number.
pub parse_octal-digits :
    (c : ℕ) (ds tail : Bytes)
    → All IsOctal (c ∷ ds)
    → All (λ b. b < 128) tail
    → trim_back tail ≡ []
    → read_octal 0 (c ∷ ds) ≤ u64_max
    → parse_octal (c ∷ ds ++ tail) ≡ ok (read_octal 0 (c ∷ ds))
unfolding parse_octal
parse_octal-digits c ds tail h t k bound =
    let lossy : from_utf8_lossy (c ∷ ds ++ tail) ≡ c ∷ ds ++ tail =
      unfold from_utf8_lossy in
      from-ascii (c ∷ ds ++ tail)
        (All-append (λ b. b < 128) (c ∷ ds) tail (IsOctal-ascii (c ∷ ds) h) t) in
    let front : trim_front (c ∷ ds ++ tail) ≡ c ∷ ds ++ tail =
      trim_front-octal c (ds ++ tail) h.0 in
    rw (lossy, front, trim_back-append (c ∷ ds) tail h k)
      (from_octal-octal c ds h.0 ∙ octal_value-read 0 (c ∷ ds) h bound)

split_mod : (v m : ℕ) → 0 < m → v / 8 % m * 8 + v % 8 ≡ v % (8 * m)
split_mod v m h =
    let low : ℕ = v / 8 % m * 8 + v % 8 in
    let below : low < 8 * m = omega (arith, mod-lt (v / 8) h) in
    sym (mod-eq_of_lt below)
    ∙ sym (mul-add-mod_self_left (8 * m) (v / 8 / m) low)
    ∙ ap (λ n. n % (8 * m)) (ground arith)

replicate-IsOctal : (n : ℕ) → All IsOctal (replicate n b'0')
replicate-IsOctal zero = tt
replicate-IsOctal (suc n) = ((omega arith, omega arith), replicate-IsOctal n)

pub octal_digits-IsOctal : (places v : ℕ) → All IsOctal (octal_digits places v)
unfolding octal_digits
octal_digits-IsOctal zero v = tt
octal_digits-IsOctal (suc places) v = elim (Bool-cases (v / 8 == 0)) [
  | inl e ↦ rw e (
      All-append IsOctal (replicate places b'0') _ (replicate-IsOctal places)
        ((omega arith, omega arith), tt))
  | inr e ↦ rw e (
      All-append IsOctal (octal_digits places (v / 8)) _ (octal_digits-IsOctal places (v / 8))
        ((omega arith, omega arith), tt))
]

read_octal-replicate : (n : ℕ) → read_octal 0 (replicate n b'0') ≡ 0
read_octal-replicate zero = refl
read_octal-replicate (suc n) = read_octal-replicate n

power_some : (n : ℕ) → 0 < 8 ^ n
power_some zero = omega arith
power_some (suc n) = omega (arith, power_some n, pow-succ' 8 n)

-- one more digit at the end
read_octal-last :
    (places v : ℕ) (front : Bytes)
    → read_octal 0 front ≡ v / 8 % 8 ^ places
    → read_octal 0 (front ++ (b'0' + v % 8) ∷ []) ≡ v % 8 ^ suc places
read_octal-last places v front h =
    read_octal-append 0 front ((b'0' + v % 8) ∷ [])
    ∙ ap (λ n. n * 8 + (b'0' + v % 8 - b'0')) h
    ∙ ap (λ n. v / 8 % 8 ^ places * 8 + n) (omega arith)
    ∙ split_mod v (8 ^ places) (power_some places)
    ∙ ap (λ n. v % n) (sym (pow-succ' 8 places))

pub read_octal-octal_digits : (places v : ℕ) → read_octal 0 (octal_digits places v) ≡ v % 8 ^ places
unfolding octal_digits
read_octal-octal_digits zero v = omega arith
read_octal-octal_digits (suc places) v = elim (Bool-cases (v / 8 == 0)) [
  | inl e ↦ rw e (
      read_octal-last places v (replicate places b'0') (
        read_octal-replicate places
        ∙ sym (ap (λ n. n % 8 ^ places) (ground arith) ∙ zero-mod (8 ^ places))))
  | inr e ↦ rw e (
      read_octal-last places v (octal_digits places (v / 8))
        (read_octal-octal_digits places (v / 8)))
]

pub checksum_digits-IsOctal : (places v : ℕ) → All IsOctal (checksum_digits places v)
unfolding checksum_digits
checksum_digits-IsOctal zero v = tt
checksum_digits-IsOctal (suc places) v =
    All-append IsOctal (checksum_digits places (v / 8)) _ (checksum_digits-IsOctal places (v / 8))
      ((omega arith, omega arith), tt)

read_octal-checksum_digits :
    (places v : ℕ) → read_octal 0 (checksum_digits places v) ≡ v % 8 ^ places
unfolding checksum_digits
read_octal-checksum_digits zero v = omega arith
read_octal-checksum_digits (suc places) v =
    read_octal-last places v (checksum_digits places (v / 8))
      (read_octal-checksum_digits places (v / 8))

pub length-replicate : (n b : ℕ) → length (replicate n b) ≡ n
length-replicate zero b = refl
length-replicate (suc n) b = ap suc (length-replicate n b)

pub length-octal_digits : (places v : ℕ) → length (octal_digits places v) ≡ places
unfolding octal_digits
length-octal_digits zero v = refl
length-octal_digits (suc places) v = elim (Bool-cases (v / 8 == 0)) [
  | inl e ↦
      rw e (length-append (replicate places b'0') _ ∙ ground (arith, length-replicate places b'0'))
  | inr e ↦ rw e (
      length-append (octal_digits places (v / 8)) _
      ∙ ground (arith, length-octal_digits places (v / 8)))
]

pub length-checksum_digits : (places v : ℕ) → length (checksum_digits places v) ≡ places
unfolding checksum_digits
length-checksum_digits zero v = refl
length-checksum_digits (suc places) v =
    length-append (checksum_digits places (v / 8)) _
    ∙ ground (arith, length-checksum_digits places (v / 8))

octal_fits : (v places : ℕ) → places ≤ 21 → v % 8 ^ places ≤ u64_max
octal_fits v places h =
    let most : 8 ^ places ≤ 8 ^ 21 = pow-le-pow_right (omega arith) h in
    omega (arith, mod-lt v (power_some places))

digits-read :
    (ds tail : Bytes) (places v : ℕ)
    → places < 21
    → length ds ≡ suc places
    → All IsOctal ds
    → read_octal 0 ds ≡ v % 8 ^ suc places
    → All (λ b. b < 128) tail
    → trim_back tail ≡ []
    → parse_octal (ds ++ tail) ≡ ok (v % 8 ^ suc places)
digits-read [] tail places v small len h e t k = absurd (omega arith)
digits-read (c ∷ ds) tail places v small len h e t k =
    parse_octal-digits c ds tail h t k
      (subst (λ n. n ≤ u64_max) (sym e) (octal_fits v (suc places) (omega arith)))
    ∙ ap ok e

-- a field of a header: digits and a NUL
pub parse_octal-octal_digits :
    (places v : ℕ)
    → places < 21
    → parse_octal (octal_digits (suc places) v ++ (0 ∷ [])) ≡ ok (v % 8 ^ suc places)
parse_octal-octal_digits places v small =
    digits-read (octal_digits (suc places) v) (0 ∷ []) places v small
      (length-octal_digits (suc places) v) (octal_digits-IsOctal (suc places) v)
      (read_octal-octal_digits (suc places) v) (omega arith, tt) (unfold trim_back in refl)

-- the field of the checksum: six digits, a NUL and a space
pub parse_octal-checksum_digits :
    (v : ℕ) → v < 8 ^ 6 → parse_octal (checksum_digits 6 v ++ (0 ∷ b' ' ∷ [])) ≡ ok v
parse_octal-checksum_digits v h =
    digits-read (checksum_digits 6 v) (0 ∷ b' ' ∷ []) 5 v (omega arith) (length-checksum_digits 6 v)
      (checksum_digits-IsOctal 6 v) (read_octal-checksum_digits 6 v)
      (omega arith, (omega arith, tt)) (unfold trim_back in refl)
    ∙ ap ok (mod-eq_of_lt h)
