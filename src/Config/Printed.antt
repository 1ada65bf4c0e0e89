-- ===== src/Config/Printed.antt =====
-- src/config.rs: an endpoint that is written out is read back.
use se_sshion.Base.{
  ℕ, ◌+◌, ◌-◌, ◌*◌, ◌≤◌, ◌<◌, ◌≡◌, refl, ap, sym, ◌∙◌, subst, Bool, true, false, none, some, [],
  ◌∷◌, ◌++◌, leb, ◌==◌, ok, arith,
}
use se_sshion.Base.Lists.{All, All-map, any, is_nil}
use se_sshion.Base.Decimal.{
  decimal, decimal-some, read_digits, read_digits-decimal, IsDigit, decimal-IsDigit,
}
use se_sshion.Base.Text.{Text, is_whitespace}
use se_sshion.Base.Text.Reading.{
  split_once, rsplit_once, number_digits, parse_unsigned, is_ascii_digit,
}
use se_sshion.Config.{host_and_port, parse_jump_endpoint}

-- a character that a user's or a host's name may have here
abbrev pub IsNamed : ℕ → Type 0
IsNamed c = ((c == b'@') ≡ false) × (is_whitespace c ≡ false)

read_digits-le : (value : ℕ) (digits : Text) → value ≤ read_digits value digits
read_digits-le value [] = omega arith
read_digits-le value (c ∷ cs) = omega (arith, read_digits-le (value * 10 + (c - b'0')) cs)

number_digits-read :
    (most value : ℕ) (digits : Text)
    → All IsDigit digits
    → read_digits value digits ≤ most
    → number_digits most value digits ≡ some (read_digits value digits)
unfolding number_digits
number_digits-read most value [] h k = refl
number_digits-read most value (c ∷ cs) h k =
    let digit : is_ascii_digit c ≡ true = ground arith in
    let fits : leb (value * 10 + (c - b'0')) most ≡ true =
      ground (arith, read_digits-le (value * 10 + (c - b'0')) cs) in
    rw (digit, fits) (number_digits-read most (value * 10 + (c - b'0')) cs h.1 k)

parse_unsigned-read :
    (most : ℕ) (digits : Text)
    → is_nil digits ≡ false
    → All IsDigit digits
    → read_digits 0 digits ≤ most
    → parse_unsigned most digits ≡ some (read_digits 0 digits)
unfolding parse_unsigned
parse_unsigned-read most [] some_left h k = absurd (cc some_left)
parse_unsigned-read most (c ∷ cs) some_left h k =
    let no_plus : (c == b'+') ≡ false = ground arith in
    rw no_plus (number_digits-read most 0 (c ∷ cs) h k)

parse_unsigned-decimal : (most n : ℕ) → n ≤ most → parse_unsigned most (decimal n) ≡ some n
parse_unsigned-decimal most n h =
    parse_unsigned-read most (decimal n) (decimal-some n) (decimal-IsDigit n)
      (subst (λ k. k ≤ most) (sym (read_digits-decimal n)) h)
    ∙ ap some (read_digits-decimal n)

split_once-append : (a b : Text) → All IsNamed a → split_once b'@' (a ++ b'@' ∷ b) ≡ some (a, b)
unfolding split_once
split_once-append [] b h = refl
split_once-append (c ∷ a) b h = rw (h.0.0, split_once-append a b h.1) refl

rsplit_once-none : (b : Text) → All IsDigit b → rsplit_once b':' b ≡ none
unfolding rsplit_once
rsplit_once-none [] h = refl
rsplit_once-none (c ∷ b) h =
    let e : (c == b':') ≡ false = ground arith in rw (rsplit_once-none b h.1, e) refl

rsplit_once-append : (a b : Text) → All IsDigit b → rsplit_once b':' (a ++ b':' ∷ b) ≡ some (a, b)
unfolding rsplit_once
rsplit_once-append [] b h = rw (rsplit_once-none b h) refl
rsplit_once-append (c ∷ a) b h = rw (rsplit_once-append a b h) refl

any-All : (p : ℕ → Bool) (t : Text) → All (λ c. p c ≡ false) t → any p t ≡ false
any-All p [] h = refl
any-All p (c ∷ t) h = rw (h.0, any-All p t h.1) refl

digits-no_at : (digits : Text) → All IsDigit digits → any (λ c. c == b'@') digits ≡ false
digits-no_at [] h = refl
digits-no_at (c ∷ digits) h =
    let e : (c == b'@') ≡ false = ground arith in rw (e, digits-no_at digits h.1) refl

endpoint-some : (host digits : Text) → is_nil (host ++ b':' ∷ digits) ≡ false
endpoint-some [] digits = refl
endpoint-some (c ∷ host) digits = refl

endpoint-no_at :
    (host digits : Text)
    → All IsNamed host
    → All IsDigit digits
    → any (λ c. c == b'@') (host ++ b':' ∷ digits) ≡ false
endpoint-no_at [] digits h k = digits-no_at digits k
endpoint-no_at (c ∷ host) digits h k = rw (h.0.0, endpoint-no_at host digits h.1 k) refl

-- A jump endpoint is read back as it was written: user, host and port, where user and host are not
-- empty and hold neither `@` nor white space, and the port is positive and fits in 16 bits.
pub parse_jump_endpoint-printed :
    (user host : Text) (port : ℕ)
    → is_nil user ≡ false
    → is_nil host ≡ false
    → All IsNamed user
    → All IsNamed host
    → 0 < port
    → port ≤ 65535
    → parse_jump_endpoint (user ++ b'@' ∷ (host ++ b':' ∷ decimal port)) ≡ ok (user, host, port)
unfolding parse_jump_endpoint host_and_port
parse_jump_endpoint-printed user host port some_user some_host users hosts positive fits =
    let digits : All IsDigit (decimal port) = decimal-IsDigit port in
    let cut = split_once-append user (host ++ b':' ∷ decimal port) users in
    let no_at = endpoint-no_at host (decimal port) hosts digits in
    let halves = rsplit_once-append host (decimal port) digits in
    let some_endpoint : is_nil (host ++ b':' ∷ decimal port) ≡ false =
      endpoint-some host (decimal port) in
    let number = parse_unsigned-decimal 65535 port fits in
    let some_port : (port == 0) ≡ false = ground arith in
    let clean_user = any-All is_whitespace user (All-map (λ c h. h.1) user users) in
    let clean_host = any-All is_whitespace host (All-map (λ c h. h.1) host hosts) in
    rw
      (
        cut, some_user, some_endpoint, no_at, halves, number, some_host, some_port, clean_user,
        clean_host,
      )
      refl
