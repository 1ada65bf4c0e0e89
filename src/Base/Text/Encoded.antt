-- ===== src/Base/Text/Encoded.antt =====
-- Text in UTF-8, read back by the lossy reading.
use Prim.Native.Nat.{ℕ, ◌+◌, ◌-◌, ◌*◌, ◌/◌, ◌%◌, ◌<◌, ◌≤◌}
use mathlib.Core.Path.{◌≡◌, refl, ap, ◌∙◌}
use mathlib.Core.Logic.{◌⊎◌, inl, inr, dite}
use mathlib.Core.Bool.{true}
use mathlib.Core.List.{List, [], ◌∷◌, ◌++◌}
use native.Mathlib.Omega.{arith}
use native.Mathlib.Decide.{dec_lt}
use se_sshion.Base.Tests.{◌==◌, if◌then◌else◌}
use se_sshion.Base.Lists.{All, All-append, length, length-append}
use mathlib.Core.Option.{some}
use se_sshion.Base.Text.{Text, utf8_len, utf8_width}
use se_sshion.Base.Text.Utf8.{
  Bytes, tail_byte, within, utf8_tail, lead_value, Partial, between, lossy_first, lossy_step,
  lossy_from, from_utf8_lossy, encode_char, as_bytes,
}

-- the number is a character: no surrogate, and at most the last code point
abbrev pub IsScalar : ℕ → Type 0
IsScalar c = (c < 55296) ⊎ ((57343 < c) × (c < 1114112))

from-first :
    (b : ℕ) (p : Partial) (bs : Bytes)
    → lossy_first b ≡ ([], p)
    → lossy_from between (b ∷ bs) ≡ lossy_from p bs
unfolding lossy_from lossy_step
from-first b p bs h = rw h refl

from-next :
    (value lo hi : ℕ) (r : ℕ × ℕ) (rs : List (ℕ × ℕ)) (b : ℕ) (bs : Bytes)
    → within lo hi b ≡ true
    → lossy_from (value, (lo, hi) ∷ r ∷ rs) (b ∷ bs)
      ≡ lossy_from (value * 64 + (b - 128), r ∷ rs) bs
unfolding lossy_from lossy_step
from-next value lo hi r rs b bs h = rw h refl

from-last :
    (value lo hi b : ℕ) (bs : Bytes)
    → within lo hi b ≡ true
    → lossy_from (value, (lo, hi) ∷ []) (b ∷ bs) ≡ (value * 64 + (b - 128)) ∷ lossy_from between bs
unfolding lossy_from lossy_step
from-last value lo hi b bs h = rw h refl

tail_of_one : (b : ℕ) → b < 128 → utf8_tail b ≡ some []
unfolding utf8_tail
tail_of_one b h = ground arith

pub one_byte :
    (b : ℕ) (bs : Bytes) → b < 128 → lossy_from between (b ∷ bs) ≡ b ∷ lossy_from between bs
unfolding lossy_from lossy_step lossy_first
one_byte b bs h = rw (tail_of_one b h) refl

tail-within : (c : ℕ) → within 128 191 (128 + c % 64) ≡ true
tail-within c = ground arith

tail_of_two : (l : ℕ) → 194 ≤ l → l < 224 → utf8_tail l ≡ some (tail_byte ∷ [])
unfolding utf8_tail
tail_of_two l h k = ground arith

first_of_two : (l : ℕ) → 194 ≤ l → l < 224 → lossy_first l ≡ ([], (l - 192, tail_byte ∷ []))
unfolding lossy_first
first_of_two l h k = let e : lead_value l ≡ l - 192 = ground arith in rw (tail_of_two l h k, e) refl

-- the ranges behind a lead byte of three or four
abbrev second_of_three : ℕ → ℕ × ℕ
second_of_three l = if l == 224 then (160, 191) else if l == 237 then (128, 159) else tail_byte

abbrev second_of_four : ℕ → ℕ × ℕ
second_of_four l = if l == 240 then (144, 191) else if l == 244 then (128, 143) else tail_byte

tail_of_three :
    (l : ℕ) → 224 ≤ l → l < 240 → utf8_tail l ≡ some (second_of_three l ∷ tail_byte ∷ [])
unfolding utf8_tail
tail_of_three l h k = ground arith

tail_of_four :
    (l : ℕ) → 240 ≤ l → l < 245 → utf8_tail l ≡ some (second_of_four l ∷ tail_byte ∷ tail_byte ∷ [])
unfolding utf8_tail
tail_of_four l h k = ground arith

first_of_three :
    (l : ℕ)
    → 224 ≤ l
    → l < 240
    → lossy_first l ≡ ([], (l - 224, second_of_three l ∷ tail_byte ∷ []))
unfolding lossy_first
first_of_three l h k =
    let e : lead_value l ≡ l - 224 = ground arith in rw (tail_of_three l h k, e) refl

first_of_four :
    (l : ℕ)
    → 240 ≤ l
    → l < 245
    → lossy_first l ≡ ([], (l - 240, second_of_four l ∷ tail_byte ∷ tail_byte ∷ []))
unfolding lossy_first
first_of_four l h k =
    let e : lead_value l ≡ l - 240 = ground arith in rw (tail_of_four l h k, e) refl

second_of_three-within :
    (c : ℕ)
    → 2048 ≤ c
    → c < 65536
    → IsScalar c
    → within
        (second_of_three (224 + c / 4096)).0
        (second_of_three (224 + c / 4096)).1
        (128 + c / 64 % 64)
      ≡ true
second_of_three-within c h k (inl s) = ground arith
second_of_three-within c h k (inr s) = ground arith

second_of_four-within :
    (c : ℕ)
    → 65536 ≤ c
    → c < 1114112
    → within
        (second_of_four (240 + c / 262144)).0
        (second_of_four (240 + c / 262144)).1
        (128 + c / 4096 % 64)
      ≡ true
second_of_four-within c h k = ground arith

two_bytes :
    (c : ℕ) (bs : Bytes)
    → 128 ≤ c
    → c < 2048
    → lossy_from between ((192 + c / 64) ∷ (128 + c % 64) ∷ bs) ≡ c ∷ lossy_from between bs
two_bytes c bs h k =
    from-first (192 + c / 64) (192 + c / 64 - 192, tail_byte ∷ []) ((128 + c % 64) ∷ bs)
      (first_of_two (192 + c / 64) (omega arith) (omega arith))
    ∙ from-last (192 + c / 64 - 192) 128 191 (128 + c % 64) bs (tail-within c)
    ∙ ap (λ v. v ∷ lossy_from between bs) (omega arith)

three_bytes :
    (c : ℕ) (bs : Bytes)
    → 2048 ≤ c
    → c < 65536
    → IsScalar c
    → lossy_from between ((224 + c / 4096) ∷ (128 + c / 64 % 64) ∷ (128 + c % 64) ∷ bs)
      ≡ c ∷ lossy_from between bs
three_bytes c bs h k s =
    let r = second_of_three (224 + c / 4096) in
    let v = 224 + c / 4096 - 224 in
    let w = v * 64 + (128 + c / 64 % 64 - 128) in
    from-first (224 + c / 4096) (v, r ∷ tail_byte ∷ []) ((128 + c / 64 % 64) ∷ (128 + c % 64) ∷ bs)
      (first_of_three (224 + c / 4096) (omega arith) (omega arith))
    ∙ from-next v r.0 r.1 tail_byte [] (128 + c / 64 % 64) ((128 + c % 64) ∷ bs)
        (second_of_three-within c h k s)
    ∙ from-last w 128 191 (128 + c % 64) bs (tail-within c)
    ∙ ap (λ v. v ∷ lossy_from between bs) (omega arith)

four_bytes :
    (c : ℕ) (bs : Bytes)
    → 65536 ≤ c
    → c < 1114112
    → lossy_from between
        ((240 + c / 262144) ∷ (128 + c / 4096 % 64) ∷ (128 + c / 64 % 64) ∷ (128 + c % 64) ∷ bs)
      ≡ c ∷ lossy_from between bs
four_bytes c bs h k =
    let r = second_of_four (240 + c / 262144) in
    let v = 240 + c / 262144 - 240 in
    let w = v * 64 + (128 + c / 4096 % 64 - 128) in
    let x = w * 64 + (128 + c / 64 % 64 - 128) in
    from-first (240 + c / 262144) (v, r ∷ tail_byte ∷ tail_byte ∷ [])
      ((128 + c / 4096 % 64) ∷ (128 + c / 64 % 64) ∷ (128 + c % 64) ∷ bs)
      (first_of_four (240 + c / 262144) (omega arith) (omega arith))
    ∙ from-next v r.0 r.1 tail_byte (tail_byte ∷ []) (128 + c / 4096 % 64)
        ((128 + c / 64 % 64) ∷ (128 + c % 64) ∷ bs) (second_of_four-within c h k)
    ∙ from-next w 128 191 tail_byte [] (128 + c / 64 % 64) ((128 + c % 64) ∷ bs)
        (tail-within (c / 64))
    ∙ from-last x 128 191 (128 + c % 64) bs (tail-within c)
    ∙ ap (λ v. v ∷ lossy_from between bs) (omega arith)

IsScalar-bound : (c : ℕ) → IsScalar c → c < 1114112
IsScalar-bound c (inl h) = omega arith
IsScalar-bound c (inr h) = h.1

encode_two : (c : ℕ) → 128 ≤ c → c < 2048 → encode_char c ≡ (192 + c / 64) ∷ (128 + c % 64) ∷ []
unfolding encode_char
encode_two c h k = ground arith

encode_three :
    (c : ℕ)
    → 2048 ≤ c
    → c < 65536
    → encode_char c ≡ (224 + c / 4096) ∷ (128 + c / 64 % 64) ∷ (128 + c % 64) ∷ []
unfolding encode_char
encode_three c h k = ground arith

encode_four :
    (c : ℕ)
    → 65536 ≤ c
    → encode_char c
      ≡ (240 + c / 262144) ∷ (128 + c / 4096 % 64) ∷ (128 + c / 64 % 64) ∷ (128 + c % 64) ∷ []
unfolding encode_char
encode_four c h = ground arith

from-encode_char :
    (c : ℕ) (bs : Bytes)
    → IsScalar c
    → lossy_from between (encode_char c ++ bs) ≡ c ∷ lossy_from between bs
from-encode_char c bs s =
    dite (dec_lt c 128)
      (λ h.
        let e : encode_char c ≡ c ∷ [] = unfold encode_char in ground arith in
        rw e (one_byte c bs h))
      (λ h.
        dite (dec_lt c 2048)
          (λ k. rw (encode_two c (omega arith) k) (two_bytes c bs (omega arith) k))
          (λ k.
            dite (dec_lt c 65536)
              (λ m. rw (encode_three c (omega arith) m) (three_bytes c bs (omega arith) m s))
              (λ m.
                rw (encode_four c (omega arith))
                  (four_bytes c bs (omega arith) (IsScalar-bound c s)))))

from-as_bytes : (t : Text) → All IsScalar t → lossy_from between (as_bytes t) ≡ t
unfolding as_bytes
from-as_bytes [] h = unfold lossy_from in refl
from-as_bytes (c ∷ t) h =
    from-encode_char c (as_bytes t) h.0 ∙ ap (λ u. c ∷ u) (from-as_bytes t h.1)

-- What is written in UTF-8 is read as it was.
pub from_utf8_lossy-as_bytes : (t : Text) → All IsScalar t → from_utf8_lossy (as_bytes t) ≡ t
unfolding from_utf8_lossy
from_utf8_lossy-as_bytes t h = from-as_bytes t h

-- a character that a C string can hold, and a byte of one
abbrev pub IsNameChar : ℕ → Type 0
IsNameChar c = IsScalar c × (0 < c)

abbrev pub IsNameByte : ℕ → Type 0
IsNameByte b = (0 < b) × (b < 256)

encode_char-IsNameByte : (c : ℕ) → IsNameChar c → All IsNameByte (encode_char c)
encode_char-IsNameByte c h =
    let end : c < 1114112 = IsScalar-bound c h.0 in
    dite (dec_lt c 128)
      (λ k.
        let e : encode_char c ≡ c ∷ [] = unfold encode_char in ground arith in
        rw e ((h.1, omega arith), tt))
      (λ k.
        dite (dec_lt c 2048)
          (λ m.
            rw (encode_two c (omega arith) m)
              ((omega arith, omega arith), ((omega arith, omega arith), tt)))
          (λ m.
            dite (dec_lt c 65536)
              (λ n. rw (encode_three c (omega arith) n) (
                (omega arith, omega arith),
                ((omega arith, omega arith), ((omega arith, omega arith), tt)),
              ))
              (λ n. rw (encode_four c (omega arith)) (
                (omega arith, omega arith),
                (
                  (omega arith, omega arith),
                  ((omega arith, omega arith), ((omega arith, omega arith), tt)),
                ),
              ))))

pub as_bytes-IsNameByte : (t : Text) → All IsNameChar t → All IsNameByte (as_bytes t)
unfolding as_bytes
as_bytes-IsNameByte [] h = tt
as_bytes-IsNameByte (c ∷ t) h =
    All-append IsNameByte (encode_char c) (as_bytes t) (encode_char-IsNameByte c h.0)
      (as_bytes-IsNameByte t h.1)

length-encode_char : (c : ℕ) → length (encode_char c) ≡ utf8_width c
length-encode_char c = unfold encode_char utf8_width in ground arith

pub length-as_bytes : (t : Text) → length (as_bytes t) ≡ utf8_len t
unfolding as_bytes utf8_len
length-as_bytes [] = refl
length-as_bytes (c ∷ t) =
    length-append (encode_char c) (as_bytes t)
    ∙ omega (arith, length-encode_char c, length-as_bytes t)
