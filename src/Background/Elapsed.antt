-- ===== src/Background/Elapsed.antt =====
-- The elapsed time as it is printed.
use se_sshion.Base.{
  ℕ, ◌+◌, ◌-◌, ◌*◌, ◌/◌, ◌%◌, false, [], ◌∷◌, ◌++◌, ◌≡◌, refl, sym, ap, ◌∙◌, arith, Bool-cases, inl,
  inr, ltb, ◌==◌, if◌then◌else◌, append-nil,
}
use se_sshion.Base.Decimal.{
  decimal, decimal_02, read_digits, IsDigit, decimal-IsDigit, decimal_02-IsDigit,
  read_digits-decimal, read_digits-decimal_02,
}
use se_sshion.Base.Text.{Text}
use se_sshion.Base.Lists.{All}
use se_sshion.Background.{format_ps_elapsed, nanos_per_sec}

-- What a character makes of the total of the parts so far, in the unit of the next part, and of
-- the number that is being read.
abbrev pub read_char : ℕ → ℕ × ℕ → ℕ × ℕ
read_char c (total, value) =
    if c == b'-'
    then ((total + value) * 24, 0)
    else if c == b':'
    then ((total + value) * 60, 0)
    else (total, value * 10 + (c - b'0'))

-- reads an elapsed time back, in seconds
abbrev pub read_elapsed : ℕ × ℕ → Text → ℕ
read_elapsed (total, value) [] = total + value
read_elapsed state (c ∷ cs) = read_elapsed (read_char c state) cs

read_elapsed-append :
    (total value : ℕ) (digits rest : Text)
    → All IsDigit digits
    → read_elapsed (total, value) (digits ++ rest)
      ≡ read_elapsed (total, read_digits value digits) rest
read_elapsed-append total value [] rest h = refl
read_elapsed-append total value (c ∷ digits) rest h =
    let no_dash : (c == b'-') ≡ false = ground arith in
    let no_colon : (c == b':') ≡ false = ground arith in
    rw (no_dash, no_colon) (read_elapsed-append total (value * 10 + (c - b'0')) digits rest h.1)

-- `{days}-` and `{hours:02}:`, and the last part
read_days :
    (n : ℕ) (rest : Text)
    → read_elapsed (0, 0) (decimal n ++ (b'-' ∷ rest)) ≡ read_elapsed (n * 24, 0) rest
read_days n rest =
    read_elapsed-append 0 0 (decimal n) (b'-' ∷ rest) (decimal-IsDigit n)
    ∙ ap (λ v. read_elapsed ((0 + v) * 24, 0) rest) (read_digits-decimal n)
    ∙ ap (λ v. read_elapsed (v * 24, 0) rest) (omega arith)

read_part :
    (total n : ℕ) (rest : Text)
    → read_elapsed (total, 0) (decimal_02 n ++ (b':' ∷ rest))
      ≡ read_elapsed ((total + n) * 60, 0) rest
read_part total n rest =
    read_elapsed-append total 0 (decimal_02 n) (b':' ∷ rest) (decimal_02-IsDigit n)
    ∙ ap (λ v. read_elapsed ((total + v) * 60, 0) rest) (read_digits-decimal_02 n)

read_last : (total n : ℕ) → read_elapsed (total, 0) (decimal_02 n) ≡ total + n
read_last total n =
    ap (read_elapsed (total, 0)) (sym (append-nil (decimal_02 n)))
    ∙ read_elapsed-append total 0 (decimal_02 n) [] (decimal_02-IsDigit n)
    ∙ ap (λ v. total + v) (read_digits-decimal_02 n)

-- the minutes and the seconds
clock_value :
    (total m s : ℕ)
    → read_elapsed (total, 0) (decimal_02 m ++ (b':' ∷ decimal_02 s)) ≡ (total + m) * 60 + s
clock_value total m s = read_part total m (decimal_02 s) ∙ read_last ((total + m) * 60) s

-- `format_ps_elapsed` on its own parts, for any printing of the numbers
abbrev laid_out : (ℕ → Text) → (ℕ → Text) → ℕ → Text
laid_out show show_02 t =
    let clock = show_02 (t % 3600 / 60) ++ (b':' ∷ show_02 (t % 60)) in
    if ltb 0 (t / 86400)
    then show (t / 86400) ++ (b'-' ∷ (show_02 (t % 86400 / 3600) ++ (b':' ∷ clock)))
    else if ltb 0 (t % 86400 / 3600)
    then show_02 (t % 86400 / 3600) ++ (b':' ∷ clock)
    else clock

format_ps_elapsed-laid_out :
    (elapsed : ℕ)
    → format_ps_elapsed elapsed ≡ laid_out decimal decimal_02 (elapsed / nanos_per_sec)
unfolding format_ps_elapsed
format_ps_elapsed-laid_out elapsed = refl

laid_out-value : (t : ℕ) → read_elapsed (0, 0) (laid_out decimal decimal_02 t) ≡ t
laid_out-value t = elim (Bool-cases (ltb 0 (t / 86400))) [
  | inl e ↦ rw e (
      read_days (t / 86400) _
      ∙ read_part (t / 86400 * 24) (t % 86400 / 3600) _
      ∙ clock_value ((t / 86400 * 24 + t % 86400 / 3600) * 60) (t % 3600 / 60) (t % 60)
      ∙ omega arith)
  | inr e ↦ elim (Bool-cases (ltb 0 (t % 86400 / 3600))) [
    | inl k ↦
        rw (e, k)
          (read_part 0 (t % 86400 / 3600) _
            ∙ clock_value ((0 + t % 86400 / 3600) * 60) (t % 3600 / 60) (t % 60)
            ∙ ground arith)
    | inr k ↦ rw (e, k) (clock_value 0 (t % 3600 / 60) (t % 60) ∙ ground arith)
  ]
]

-- The printed elapsed time, read with its units, is the count of whole seconds.
pub format_ps_elapsed-read :
    (elapsed : ℕ) → read_elapsed (0, 0) (format_ps_elapsed elapsed) ≡ elapsed / nanos_per_sec
format_ps_elapsed-read elapsed =
    ap (read_elapsed (0, 0)) (format_ps_elapsed-laid_out elapsed)
    ∙ laid_out-value (elapsed / nanos_per_sec)
