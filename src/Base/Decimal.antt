-- ===== src/Base/Decimal.antt =====
-- Numbers as `format!` prints them, and as they are read.
use Prim.Native.Nat.{ℕ, zero, suc, ◌+◌, ◌-◌, ◌*◌, ◌/◌, ◌%◌, ◌<◌, ◌≤◌}
use mathlib.Core.Path.{◌≡◌, refl, ap, ◌∙◌}
use mathlib.Core.Logic.{inl, inr}
use mathlib.Core.Bool.{false}
use mathlib.Core.List.{[], ◌∷◌, ◌++◌}
use native.Mathlib.Omega.{arith}
use se_sshion.Base.Tests.{ltb, if◌then◌else◌, Bool-cases}
use se_sshion.Base.Text.{Text}
use se_sshion.Base.Lists.{All, All-append, is_nil}

-- the last digits of the number, as many as there are rounds, and no leading zero
unfoldable pub decimal_digits : ℕ → ℕ → Text
decimal_digits zero n = []
decimal_digits (suc rounds) n =
    let front = decimal_digits rounds (n / 10) in
    if ltb n 10 then (b'0' + n) ∷ [] else front ++ ((b'0' + n % 10) ∷ [])

-- `{n}`
unfoldable pub decimal : ℕ → Text
unfolding decimal_digits
decimal n = decimal_digits (suc n) n

-- `{n:02}`
unfoldable pub decimal_02 : ℕ → Text
unfolding decimal
decimal_02 n = if ltb n 10 then b'0' ∷ decimal n else decimal n

-- the number that digits continue
abbrev pub read_digits : ℕ → Text → ℕ
read_digits value [] = value
read_digits value (c ∷ cs) = read_digits (value * 10 + (c - b'0')) cs

read_digits-append :
    (value : ℕ) (a b : Text) → read_digits value (a ++ b) ≡ read_digits (read_digits value a) b
read_digits-append value [] b = refl
read_digits-append value (c ∷ a) b = read_digits-append (value * 10 + (c - b'0')) a b

read_digits-decimal_digits :
    (rounds n : ℕ) → n < rounds → read_digits 0 (decimal_digits rounds n) ≡ n
unfolding decimal_digits
read_digits-decimal_digits zero n h = absurd (omega arith)
read_digits-decimal_digits (suc rounds) n h = elim (Bool-cases (ltb n 10)) [
  | inl e ↦ rw e (omega arith)
  | inr e ↦ rw e (
      read_digits-append 0 (decimal_digits rounds (n / 10)) ((b'0' + n % 10) ∷ [])
      ∙ ap (λ v. v * 10 + (b'0' + n % 10 - b'0'))
          (read_digits-decimal_digits rounds (n / 10) (ground arith))
      ∙ omega arith)
]

pub read_digits-decimal : (n : ℕ) → read_digits 0 (decimal n) ≡ n
unfolding decimal
read_digits-decimal n = read_digits-decimal_digits (suc n) n (omega arith)

pub read_digits-decimal_02 : (n : ℕ) → read_digits 0 (decimal_02 n) ≡ n
unfolding decimal_02
read_digits-decimal_02 n = elim (Bool-cases (ltb n 10)) [
  | inl e ↦ rw e (omega arith)
  | inr e ↦ rw e (rw e at (read_digits-decimal n))
]

-- the character is a decimal digit
abbrev pub IsDigit : ℕ → Type 0
IsDigit c = (b'0' ≤ c) × (c < b':')

decimal_digits-IsDigit : (rounds n : ℕ) → All IsDigit (decimal_digits rounds n)
unfolding decimal_digits
decimal_digits-IsDigit zero n = tt
decimal_digits-IsDigit (suc rounds) n = elim (Bool-cases (ltb n 10)) [
  | inl e ↦ rw e ((omega arith, ground arith), tt)
  | inr e ↦ rw e (
      All-append IsDigit (decimal_digits rounds (n / 10)) ((b'0' + n % 10) ∷ [])
        (decimal_digits-IsDigit rounds (n / 10)) ((omega arith, omega arith), tt))
]

pub decimal-IsDigit : (n : ℕ) → All IsDigit (decimal n)
decimal-IsDigit n = unfold decimal in decimal_digits-IsDigit (suc n) n

pub decimal_02-IsDigit : (n : ℕ) → All IsDigit (decimal_02 n)
decimal_02-IsDigit n =
    unfold decimal_02 in
    elim (Bool-cases (ltb n 10)) [
      | inl e ↦ rw e ((omega arith, omega arith), ((omega arith, ground arith), tt))
      | inr e ↦ rw e (rw e at (decimal-IsDigit n))
    ]

append-some : (a : Text) (c : ℕ) → is_nil (a ++ (c ∷ [])) ≡ false
append-some [] c = refl
append-some (d ∷ a) c = refl

-- a number has a digit
pub decimal-some : (n : ℕ) → is_nil (decimal n) ≡ false
decimal-some n =
    unfold decimal in
    elim (Bool-cases (ltb n 10)) [
      | inl e ↦ rw e refl
      | inr e ↦ rw e (append-some (decimal_digits n (n / 10)) (b'0' + n % 10))
    ]
