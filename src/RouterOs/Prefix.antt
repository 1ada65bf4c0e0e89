-- ===== src/RouterOs/Prefix.antt =====
-- A stream of packets is kept as its first bytes, whatever the packets are.
use se_sshion.Base.{
  ℕ, zero, suc, ◌-◌, ◌≤◌, Option, none, some, List, [], ◌∷◌, ◌++◌, ◌≡◌, refl, sym, ap, ◌∙◌, arith,
  if_some,
}
use se_sshion.Base.Lists.{length, take, length-append}
use se_sshion.Base.Text.Utf8.{Bytes}
use se_sshion.Base.Words.{u64_max}
use se_sshion.RouterOs.{BytePrefix, append}
use Prim.Native.Nat.{min}

-- the first bytes of a stream, as many as the limit allows
abbrev pub limited : Option ℕ → Bytes → Bytes
limited none bytes = bytes
limited (some n) bytes = take n bytes

-- What was kept of a stream: its first bytes, and its length as far as that can be counted.
pub record Keeps (limit : Option ℕ) (stream : Bytes) (p : BytePrefix) : Type 0 where
  pub kept : p.bytes ≡ limited limit stream
  pub counted : p.total_bytes ≡ min (length stream) u64_max

take-all {ℓ} : {A : Type ℓ} (n : ℕ) (xs : List A) → length xs ≤ n → take n xs ≡ xs
take-all zero [] h = refl
take-all zero (x ∷ xs) h = ground arith
take-all (suc n) [] h = refl
take-all (suc n) (x ∷ xs) h = ap (◌∷◌ x) (take-all n xs (omega arith))

take-min {ℓ} : {A : Type ℓ} (m : ℕ) (ys : List A) → take (min m (length ys)) ys ≡ take m ys
take-min zero ys = let none_left : min 0 (length ys) ≡ 0 = omega arith in rw none_left refl
take-min (suc m) [] = let none_there : min (suc m) 0 ≡ 0 = omega arith in rw none_there refl
take-min (suc m) (y ∷ ys) =
    let next : min (suc m) (suc (length ys)) ≡ suc (min m (length ys)) = omega arith in
    rw next (ap (◌∷◌ y) (take-min m ys))

-- the first bytes of two parts
take-append {ℓ} :
    {A : Type ℓ} (n : ℕ) (xs ys : List A)
    → take n (xs ++ ys) ≡ take n xs ++ take (n - length (take n xs)) ys
take-append zero xs ys = refl
take-append (suc n) [] ys = let same : suc n - 0 ≡ suc n = omega arith in rw same refl
take-append (suc n) (x ∷ xs) ys =
    let same : suc n - suc (length (take n xs)) ≡ n - length (take n xs) = omega arith in
    rw same (ap (◌∷◌ x) (take-append n xs ys))

append_bytes :
    (limit : Option ℕ) (stream bytes kept : Bytes)
    → kept ≡ limited limit stream
    → kept ++ take (if_some limit (λ n. min (n - length kept) (length bytes)) (length bytes)) bytes
      ≡ limited limit (stream ++ bytes)
append_bytes none stream bytes kept h =
    rw h (ap (λ t. stream ++ t) (take-all (length bytes) bytes (omega arith)))
append_bytes (some n) stream bytes kept h = rw h (
    ap (λ t. take n stream ++ t) (take-min (n - length (take n stream)) bytes)
    ∙ sym (take-append n stream bytes))

pub append-Keeps :
    (limit : Option ℕ) (stream bytes : Bytes) (p : BytePrefix)
    → Keeps limit stream p
    → Keeps limit (stream ++ bytes) (append limit bytes p)
unfolding append
append-Keeps limit stream bytes p k = record {
  kept = append_bytes limit stream bytes p.bytes k.kept;
  counted = rw (k.counted, length-append stream bytes) (omega arith);
}
