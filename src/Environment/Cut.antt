-- ===== src/Environment/Cut.antt =====
-- src/ssh/environment.rs: a record that is complete in an answer is read the same whatever is behind
-- the answer.
use se_sshion.Environment.Values.{IfSome}
use se_sshion.Base.{
  ℕ, zero, suc, ◌≤◌, ◌≡◌, refl, ap, ◌∙◌, inl, inr, Bool, true, false, not, Option, none, some, [],
  ◌∷◌, ◌++◌, ltb, ◌==◌, if◌then◌else◌, arith, Bool-cases,
}
use se_sshion.Base.Lists.{length, take, drop, length-append, length-drop}
use se_sshion.Base.Text.{text_eq}
use se_sshion.Base.Text.Utf8.{Bytes}
use se_sshion.Environment.{and_then}
use se_sshion.Environment.Records.{FieldId, id_elf, id_text}
use se_sshion.Environment.Snapshot.{nul_value, next_record, named_record}

-- the value that was read, and behind it what was read before and `more`
abbrev Kept : Bytes → Option (Bytes × Bytes) → Option (Bytes × Bytes) → Type 0
Kept more longer = IfSome (λ p. longer ≡ some (p.0, p.1 ++ more))

abbrev pub KeptRecord :
    Bytes → Option (Bytes × Bytes × Bytes) → Option (Bytes × Bytes × Bytes) → Type 0
KeptRecord more longer = IfSome (λ q. longer ≡ some (q.0, q.1, q.2 ++ more))

longer_value :
    (b : ℕ) (more : Bytes) (short longer : Option (Bytes × Bytes))
    → Kept more longer short
    → Kept more
        (and_then longer (λ p. some (b ∷ p.0, p.1)))
        (and_then short (λ p. some (b ∷ p.0, p.1)))
longer_value b more none longer h = tt
longer_value b more (some (value, rest)) longer h = rw h refl

nul_value-Kept : (short more : Bytes) → Kept more (nul_value (short ++ more)) (nul_value short)
unfolding nul_value
nul_value-Kept [] more = tt
nul_value-Kept (b ∷ short) more = elim (Bool-cases (b == 0)) [
  | inl e ↦ rw e refl
  | inr e ↦ rw e (
      longer_value b more (nul_value short) (nul_value (short ++ more)) (nul_value-Kept short more))
]

and_then-KeptRecord :
    (more : Bytes) (short longer : Option (Bytes × Bytes))
    (f g : Bytes × Bytes → Option (Bytes × Bytes × Bytes))
    → Kept more longer short
    → ((value rest : Bytes) → KeptRecord more (g (value, rest ++ more)) (f (value, rest)))
    → KeptRecord more (and_then longer g) (and_then short f)
and_then-KeptRecord more none longer f g h k = tt
and_then-KeptRecord more (some (value, rest)) longer f g h k = rw h (k value rest)

pub take-append :
    (n : ℕ) (short more : Bytes) → n ≤ length short → take n (short ++ more) ≡ take n short
take-append zero short more h = refl
take-append (suc n) [] more h = absurd (omega arith)
take-append (suc n) (b ∷ short) more h = ap (λ t. b ∷ t) (take-append n short more (omega arith))

pub drop-append :
    (n : ℕ) (short more : Bytes) → n ≤ length short → drop n (short ++ more) ≡ drop n short ++ more
drop-append zero short more h = refl
drop-append (suc n) [] more h = absurd (omega arith)
drop-append (suc n) (b ∷ short) more h = drop-append n short more (omega arith)

pub take_all : (n : ℕ) (s : Bytes) → length s ≡ n → take n s ≡ s
take_all zero [] h = refl
take_all zero (b ∷ s) h = absurd (omega arith)
take_all (suc n) [] h = absurd (omega arith)
take_all (suc n) (b ∷ s) h = ap (λ t. b ∷ t) (take_all n s (omega arith))

pub drop_all : (n : ℕ) (s : Bytes) → length s ≡ n → drop n s ≡ []
drop_all zero [] h = refl
drop_all zero (b ∷ s) h = absurd (omega arith)
drop_all (suc n) [] h = absurd (omega arith)
drop_all (suc n) (b ∷ s) h = drop_all n s (omega arith)

pub drop-suc : (n : ℕ) (s : Bytes) → drop (suc n) s ≡ drop 1 (drop n s)
drop-suc zero s = refl
drop-suc (suc n) [] = refl
drop-suc (suc n) (b ∷ s) = drop-suc n s

if-KeptRecord :
    (b : Bool) (more : Bytes) (short longer : Option (Bytes × Bytes × Bytes))
    → KeptRecord more longer short
    → KeptRecord more (if b then none else longer) (if b then none else short)
if-KeptRecord true more short longer h = tt
if-KeptRecord false more short longer h = h

elf_record-KeptRecord :
    (short more : Bytes)
    → KeptRecord more (next_record id_elf (short ++ more)) (next_record id_elf short)
unfolding next_record
elf_record-KeptRecord short more = elim (Bool-cases (ltb (length short) 65)) [
  | inl e ↦ rw e tt
  | inr e ↦
      let size : 65 ≤ length short = ground arith in
      let longer : ltb (length (short ++ more)) 65 ≡ false =
        ground (arith, length-append short more) in
      let header : take 64 (short ++ more) ≡ take 64 short =
        take-append 64 short more (omega arith) in
      let nul : take 1 (drop 64 (short ++ more)) ≡ take 1 (drop 64 short) =
        ap (take 1) (drop-append 64 short more (omega arith))
        ∙ take-append 1 (drop 64 short) more (omega (arith, length-drop 64 short)) in
      rw (e, longer, header, nul, drop-append 65 short more size)
        (if-KeptRecord (not (text_eq (take 1 (drop 64 short)) (0 ∷ []))) more _ _ (
          and_then-KeptRecord more (nul_value (drop 65 short)) (nul_value (drop 65 short ++ more)) _
            _ (nul_value-Kept (drop 65 short) more) (λ value rest. refl)))
]

-- a record with a payload that ends at a NUL
text_record-KeptRecord :
    (short more : Bytes)
    → KeptRecord more
        (and_then
          (nul_value (short ++ more))
          (λ p. and_then (nul_value p.1) (λ q. some (p.0, q.0, q.1))))
        (and_then (nul_value short) (λ p. and_then (nul_value p.1) (λ q. some (p.0, q.0, q.1))))
text_record-KeptRecord short more =
    and_then-KeptRecord more (nul_value short) (nul_value (short ++ more)) _ _
      (nul_value-Kept short more)
      (λ value rest.
        and_then-KeptRecord more (nul_value rest) (nul_value (rest ++ more)) _ _
          (nul_value-Kept rest more) (λ status after. refl))

next_record-KeptRecord :
    (id : FieldId) (short more : Bytes)
    → KeptRecord more (next_record id (short ++ more)) (next_record id short)
unfolding next_record
next_record-KeptRecord id_elf short more = elf_record-KeptRecord short more
next_record-KeptRecord id short more = text_record-KeptRecord short more

if_named-KeptRecord :
    (b : Bool) (more : Bytes) (short longer : Option (Bytes × Bytes × Bytes))
    → KeptRecord more longer short
    → KeptRecord more (if b then longer else none) (if b then short else none)
if_named-KeptRecord true more short longer h = h
if_named-KeptRecord false more short longer h = tt

pub named_record-KeptRecord :
    (id : FieldId) (short more : Bytes)
    → KeptRecord more (named_record id (short ++ more)) (named_record id short)
unfolding named_record
named_record-KeptRecord id short more =
    and_then-KeptRecord more (nul_value short) (nul_value (short ++ more)) _ _
      (nul_value-Kept short more)
      (λ value rest.
        if_named-KeptRecord (text_eq value (id_text id)) more _ _
          (next_record-KeptRecord id rest more))
