-- ===== src/Tar/Fields.antt =====
-- src/transfer/tar.rs: a block as the list of its fields, each written and read at its offsets.
use se_sshion.Base.{
  ℕ, zero, suc, ◌+◌, ◌-◌, ◌<◌, ◌≡◌, refl, ap, sym, ◌∙◌, List, [], ◌∷◌, ◌++◌, append_assoc, arith,
  subst,
}
use se_sshion.Base.Lists.{length, take, drop, take-length, drop-length, drop_add}
use se_sshion.Base.Text.Utf8.{Bytes}
use se_sshion.Tar.{slice, put}

abbrev pub flat : List Bytes → Bytes
flat [] = []
flat (f ∷ fs) = f ++ flat fs

abbrev pub lengths : List Bytes → List ℕ
lengths [] = []
lengths (f ∷ fs) = length f ∷ lengths fs

-- where the field of this index starts
abbrev pub offset : List ℕ → ℕ → ℕ
offset sizes zero = 0
offset [] (suc i) = 0
offset (n ∷ sizes) (suc i) = n + offset sizes i

abbrev pub nth : ℕ → List Bytes → Bytes
nth i [] = []
nth zero (f ∷ fs) = f
nth (suc i) (f ∷ fs) = nth i fs

abbrev pub update : ℕ → (Bytes → Bytes) → List Bytes → List Bytes
update i write [] = []
update zero write (f ∷ fs) = write f ∷ fs
update (suc i) write (f ∷ fs) = f ∷ update i write fs

take-shift : (f xs : Bytes) (a : ℕ) → take (length f + a) (f ++ xs) ≡ f ++ take a xs
take-shift [] xs a = ap (λ n. take n xs) (omega arith)
take-shift (b ∷ f) xs a =
    let e : length (b ∷ f) + a ≡ suc (length f + a) = omega arith in
    rw e (ap (λ t. b ∷ t) (take-shift f xs a))

drop-shift : (f xs : Bytes) (a : ℕ) → drop (length f + a) (f ++ xs) ≡ drop a xs
drop-shift f xs a = drop_add (length f) a (f ++ xs) ∙ ap (drop a) (drop-length f xs)

slice-shift :
    (f xs : Bytes) (a b : ℕ) → slice (length f + a) (length f + b) (f ++ xs) ≡ slice a b xs
unfolding slice
slice-shift f xs a b =
    let e : length f + b - (length f + a) ≡ b - a = omega arith in rw (e, drop-shift f xs a) refl

put-shift :
    (f xs : Bytes) (a b : ℕ) (write : Bytes → Bytes)
    → put (length f + a) (length f + b) write (f ++ xs) ≡ f ++ put a b write xs
unfolding put
put-shift f xs a b write =
    rw (take-shift f xs a, slice-shift f xs a b, drop-shift f xs b)
      (append_assoc f (take a xs) (write (slice a b xs) ++ drop b xs))

first-slice : (f xs : Bytes) → slice 0 (length f + 0) (f ++ xs) ≡ f
unfolding slice
first-slice f xs = let e : length f + 0 - 0 ≡ length f = omega arith in rw e (take-length f xs)

first-put :
    (f xs : Bytes) (write : Bytes → Bytes) → put 0 (length f + 0) write (f ++ xs) ≡ write f ++ xs
unfolding put
first-put f xs write = rw (first-slice f xs, drop-shift f xs 0) refl

pub slice-flat :
    (fs : List Bytes) (i : ℕ)
    → i < length fs
    → slice (offset (lengths fs) i) (offset (lengths fs) (suc i)) (flat fs) ≡ nth i fs
slice-flat [] i h = absurd (omega arith)
slice-flat (f ∷ fs) zero h = first-slice f (flat fs)
slice-flat (f ∷ fs) (suc i) h =
    slice-shift f (flat fs) (offset (lengths fs) i) (offset (lengths fs) (suc i))
    ∙ slice-flat fs i (omega arith)

pub put-flat :
    (fs : List Bytes) (i : ℕ) (write : Bytes → Bytes)
    → i < length fs
    → put (offset (lengths fs) i) (offset (lengths fs) (suc i)) write (flat fs)
      ≡ flat (update i write fs)
put-flat [] i write h = absurd (omega arith)
put-flat (f ∷ fs) zero write h = first-put f (flat fs) write
put-flat (f ∷ fs) (suc i) write h =
    put-shift f (flat fs) (offset (lengths fs) i) (offset (lengths fs) (suc i)) write
    ∙ ap (λ t. f ++ t) (put-flat fs i write (omega arith))

lengths-update :
    (fs : List Bytes) (i : ℕ) (write : Bytes → Bytes)
    → length (write (nth i fs)) ≡ length (nth i fs)
    → lengths (update i write fs) ≡ lengths fs
lengths-update [] i write h = refl
lengths-update (f ∷ fs) zero write h = ap (λ n. n ∷ lengths fs) h
lengths-update (f ∷ fs) (suc i) write h = ap (λ ns. length f ∷ ns) (lengths-update fs i write h)

-- the sizes of the fields of a header: name, mode, user, group, size, time, checksum, type, link,
-- magic, version, the fields that are not used, prefix, and the rest
abbrev pub layout : List ℕ
layout = 100 ∷ 8 ∷ 8 ∷ 8 ∷ 12 ∷ 12 ∷ 8 ∷ 1 ∷ 100 ∷ 6 ∷ 2 ∷ 80 ∷ 155 ∷ 12 ∷ []

-- the block has these fields
pub record Laid (block : Bytes) (fs : List Bytes) : Type 0 where
  pub is_flat : block ≡ flat fs
  pub sizes : lengths fs ≡ layout

length-lengths : (fs : List Bytes) → length (lengths fs) ≡ length fs
length-lengths [] = refl
length-lengths (f ∷ fs) = ap suc (length-lengths fs)

count-Laid : (fs : List Bytes) → lengths fs ≡ layout → length fs ≡ 14
count-Laid fs h = sym (length-lengths fs) ∙ ap length h

pub slice-Laid :
    (block : Bytes) (fs : List Bytes) (i : ℕ)
    → Laid block fs
    → i < 14
    → slice (offset layout i) (offset layout (suc i)) block ≡ nth i fs
slice-Laid block fs i l h =
    ap (slice (offset layout i) (offset layout (suc i))) l.is_flat
    ∙ subst (λ ns. slice (offset ns i) (offset ns (suc i)) (flat fs) ≡ nth i fs) l.sizes
        (slice-flat fs i (omega (arith, count-Laid fs l.sizes)))

pub put-Laid :
    (block : Bytes) (fs : List Bytes) (i : ℕ) (write : Bytes → Bytes)
    → Laid block fs
    → i < 14
    → length (write (nth i fs)) ≡ length (nth i fs)
    → Laid (put (offset layout i) (offset layout (suc i)) write block) (update i write fs)
put-Laid block fs i write l h k = record {
  is_flat =
      ap (put (offset layout i) (offset layout (suc i)) write) l.is_flat
      ∙ subst
          (λ ns. put (offset ns i) (offset ns (suc i)) write (flat fs) ≡ flat (update i write fs))
          l.sizes (put-flat fs i write (omega (arith, count-Laid fs l.sizes)));
  sizes = lengths-update fs i write k ∙ l.sizes;
}
