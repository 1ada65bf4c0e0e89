-- ===== src/Background/Marker/Digits.antt =====
-- `u32::from_str` on printed numbers.
use se_sshion.Base.{
  ℕ, ◌+◌, ◌-◌, ◌*◌, ◌^◌, ◌≤◌, ◌<◌, true, false, some, [], ◌∷◌, ◌≡◌, refl, sym, ap, ◌∙◌, arith, leb,
  ltb, ◌==◌, subst,
}
use se_sshion.Base.Lists.{All, is_nil}
use se_sshion.Base.Decimal.{
  decimal-some, decimal, read_digits, read_digits-decimal, IsDigit, decimal-IsDigit,
}
use se_sshion.Base.Text.{Text}
use se_sshion.Background.Marker.{u32_digits, some_digits, parse_u32}

read_digits-le : (value : ℕ) (digits : Text) → value ≤ read_digits value digits
read_digits-le value [] = omega arith
read_digits-le value (c ∷ cs) = omega (arith, read_digits-le (value * 10 + (c - b'0')) cs)

u32_digits-read :
    (value : ℕ) (digits : Text)
    → All IsDigit digits
    → read_digits value digits < 2 ^ 32
    → u32_digits value digits ≡ some (read_digits value digits)
unfolding u32_digits
u32_digits-read value [] h k = refl
u32_digits-read value (c ∷ cs) h k =
    let next_le : value * 10 + (c - b'0') ≤ read_digits (value * 10 + (c - b'0')) cs =
      read_digits-le (value * 10 + (c - b'0')) cs in
    let low : leb b'0' c ≡ true = ground arith in
    let high : leb c b'9' ≡ true = ground arith in
    let fits : ltb (value * 10 + (c - b'0')) (2 ^ 32) ≡ true = ground arith in
    rw (low, high, fits) (u32_digits-read (value * 10 + (c - b'0')) cs h.1 k)

-- digits that are a number are read as that number
parse_u32-read :
    (digits : Text)
    → is_nil digits ≡ false
    → All IsDigit digits
    → read_digits 0 digits < 2 ^ 32
    → parse_u32 digits ≡ some (read_digits 0 digits)
unfolding parse_u32 some_digits
parse_u32-read [] some_left h k = absurd (cc some_left)
parse_u32-read (c ∷ cs) some_left h k =
    let no_plus : (c == b'+') ≡ false = ground arith in rw no_plus (u32_digits-read 0 (c ∷ cs) h k)

pub parse_u32-decimal : (n : ℕ) → n < 2 ^ 32 → parse_u32 (decimal n) ≡ some n
parse_u32-decimal n h =
    parse_u32-read (decimal n) (decimal-some n) (decimal-IsDigit n)
      (subst (λ k. k < 2 ^ 32) (sym (read_digits-decimal n)) h)
    ∙ ap some (read_digits-decimal n)
