-- ===== src/Base/Text/Utf8.antt =====
-- UTF-8: what `std::str::from_utf8`, `String::from_utf8_lossy` and `str::as_bytes` do.
use Prim.Native.Nat.{ℕ, ◌+◌, ◌-◌, ◌*◌, ◌/◌, ◌%◌}
use mathlib.Core.Bool.{Bool, true, false, ◌&&◌}
use mathlib.Core.Option.{Option, none, some}
use mathlib.Core.List.{List, [], ◌∷◌, ◌++◌}
use se_sshion.Base.Tests.{ltb, leb, ◌==◌, if◌then◌else◌}
use se_sshion.Base.Text.{Text}

abbrev pub Bytes : Type 0
Bytes = List ℕ

-- the ranges of the bytes that must follow this lead byte in UTF-8
abbrev pub tail_byte : ℕ × ℕ
tail_byte = (128, 191)

abbrev pub within : ℕ → ℕ → ℕ → Bool
within lo hi b = leb lo b && leb b hi

unfoldable pub utf8_tail : ℕ → Option (List (ℕ × ℕ))
utf8_tail b =
    if leb b 127
    then some []
    else if within 194 223 b
    then some (tail_byte ∷ [])
    else if b == 224
    then some ((160, 191) ∷ tail_byte ∷ [])
    else if b == 237
    then some ((128, 159) ∷ tail_byte ∷ [])
    else if within 225 239 b
    then some (tail_byte ∷ tail_byte ∷ [])
    else if b == 240
    then some ((144, 191) ∷ tail_byte ∷ tail_byte ∷ [])
    else if within 241 243 b
    then some (tail_byte ∷ tail_byte ∷ tail_byte ∷ [])
    else if b == 244
    then some ((128, 143) ∷ tail_byte ∷ tail_byte ∷ [])
    else none

-- `std::str::from_utf8` succeeds
unfoldable pub is_utf8_from : List (ℕ × ℕ) → Bytes → Bool
unfolding utf8_tail
is_utf8_from [] [] = true
is_utf8_from (r ∷ rs) [] = false
is_utf8_from ((lo, hi) ∷ rs) (b ∷ bs) = within lo hi b && is_utf8_from rs bs
is_utf8_from [] (b ∷ bs) = elim (utf8_tail b) [ none ↦ false | some rs ↦ is_utf8_from rs bs ]

-- `std::str::from_utf8`, whose value the lossy reading gives
unfoldable pub is_utf8 : Bytes → Bool
unfolding is_utf8_from
is_utf8 bytes = is_utf8_from [] bytes

-- the bits of a lead byte
abbrev pub lead_value : ℕ → ℕ
lead_value b =
    if ltb b 128 then b else if ltb b 224 then b - 192 else if ltb b 240 then b - 224 else b - 240

-- A reader in the middle of a character: the bits so far, and the ranges of the bytes that follow.
abbrev pub Partial : Type 0
Partial = ℕ × List (ℕ × ℕ)

abbrev pub between : Partial
between = (0, [])

abbrev pub replacement : ℕ
replacement = 65533

-- the first byte of a character, or one that can be none
abbrev pub lossy_lead : ℕ → Option (List (ℕ × ℕ)) → Text × Partial
lossy_lead b none = (replacement ∷ [], between)
lossy_lead b (some []) = (b ∷ [], between)
lossy_lead b (some (r ∷ rs)) = ([], (lead_value b, r ∷ rs))

unfoldable pub lossy_first : ℕ → Text × Partial
unfolding utf8_tail
lossy_first b = lossy_lead b (utf8_tail b)

-- The characters that a byte completes. A byte that does not fit ends the broken character, in
-- whose place stands one replacement, and is read anew.
unfoldable pub lossy_step : Partial → ℕ → Text × Partial
unfolding lossy_first
lossy_step (value, []) b = lossy_first b
lossy_step (value, (lo, hi) ∷ []) b =
    if within lo hi b
    then ((value * 64 + (b - 128)) ∷ [], between)
    else (replacement ∷ (lossy_first b).0, (lossy_first b).1)
lossy_step (value, (lo, hi) ∷ r ∷ rs) b =
    if within lo hi b
    then ([], (value * 64 + (b - 128), r ∷ rs))
    else (replacement ∷ (lossy_first b).0, (lossy_first b).1)

unfoldable pub lossy_from : Partial → Bytes → Text
unfolding lossy_step
lossy_from (value, []) [] = []
lossy_from (value, r ∷ rs) [] = replacement ∷ []
lossy_from p (b ∷ bs) = (lossy_step p b).0 ++ lossy_from (lossy_step p b).1 bs

-- `String::from_utf8_lossy`
unfoldable pub from_utf8_lossy : Bytes → Text
unfolding lossy_from
from_utf8_lossy bytes = lossy_from between bytes

-- `str::as_bytes`, for one character and for all
unfoldable pub encode_char : ℕ → Bytes
encode_char c =
    if ltb c 128
    then c ∷ []
    else if ltb c 2048
    then (192 + c / 64) ∷ (128 + c % 64) ∷ []
    else if ltb c 65536
    then (224 + c / 4096) ∷ (128 + c / 64 % 64) ∷ (128 + c % 64) ∷ []
    else (240 + c / 262144) ∷ (128 + c / 4096 % 64) ∷ (128 + c / 64 % 64) ∷ (128 + c % 64) ∷ []

unfoldable pub as_bytes : Text → Bytes
unfolding encode_char
as_bytes [] = []
as_bytes (c ∷ cs) = encode_char c ++ as_bytes cs
