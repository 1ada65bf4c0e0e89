-- ===== src/Base/Text/Pieces.antt =====
-- What the tests on prefixes and pieces of a text decide.
use se_sshion.Base.Tests.{◌==◌, Bool-cases}
use se_sshion.Base.Lists.{any, Somewhere, here, later}
use se_sshion.Base.Text.{Text, starts_with, strip_prefix, contains}
use mathlib.Core.Path.{◌≡◌, refl, ap}
use mathlib.Core.Logic.{◌↔◌, inl, inr}
use mathlib.Core.Bool.{Bool, true, ◌||◌}
use mathlib.Core.Option.{some}
use mathlib.Core.List.{List, [], ◌∷◌, ◌++◌}
use native.Mathlib.Omega.{arith}

-- `p` is a piece of `s`.
abbrev pub IsPiece : Text → Text → Type 0
IsPiece p s = (before : Text) × (after : Text) × (s ≡ before ++ (p ++ after))

pub strip_prefix-append : (p s : Text) → strip_prefix p (p ++ s) ≡ some s
unfolding strip_prefix
strip_prefix-append [] s = refl
strip_prefix-append (c ∷ p) s = ground (arith, strip_prefix-append p s)

pub strip_prefix-eq-some : (p s r : Text) → strip_prefix p s ≡ some r → s ≡ p ++ r
unfolding strip_prefix
strip_prefix-eq-some [] s r h = cc
strip_prefix-eq-some (c ∷ p) [] r h = cc
strip_prefix-eq-some (c ∷ p) (d ∷ s) r h = ground (arith, strip_prefix-eq-some p s r)

pub starts_with-append : (p s : Text) → starts_with p (p ++ s) ≡ true
unfolding starts_with
starts_with-append [] s = refl
starts_with-append (c ∷ p) s = ground (arith, starts_with-append p s)

pub starts_with-IsPrefix : (p s : Text) → starts_with p s ≡ true → (after : Text) × (s ≡ p ++ after)
unfolding starts_with
starts_with-IsPrefix [] s h = (s, refl)
starts_with-IsPrefix (c ∷ p) [] h = cc
starts_with-IsPrefix (c ∷ p) (d ∷ s) h = elim (Bool-cases (c == d)) [
  | inl e ↦ let (after, t) = starts_with-IsPrefix p s (rw e at h) in (after, ground arith)
  | inr e ↦ cc (rw e at h)
]

pub ||-intro : (a b : Bool) → b ≡ true → (a || b) ≡ true
||-intro a b h = ground arith

contains-append : (p before after : Text) → contains p (before ++ (p ++ after)) ≡ true
unfolding contains
contains-append [] [] [] = refl
contains-append [] [] (a ∷ after) = refl
contains-append (c ∷ p) [] after = rw (starts_with-append (c ∷ p) after)
contains-append p (b ∷ before) after = ||-intro _ _ (contains-append p before after)

contains-IsPiece : (p s : Text) → contains p s ≡ true → IsPiece p s
unfolding contains
contains-IsPiece p [] h = let (after, e) = starts_with-IsPrefix p [] h in ([], after, e)
contains-IsPiece p (c ∷ s) h = elim (Bool-cases (starts_with p (c ∷ s))) [
  | inl first ↦ let (after, e) = starts_with-IsPrefix p (c ∷ s) first in ([], after, e)
  | inr other ↦
      let (before, after, e) = contains-IsPiece p s (rw other at h) in
      (c ∷ before, after, ap (◌∷◌ c) e)
]

pub contains_iff : (p s : Text) → (contains p s ≡ true) ↔ IsPiece p s
contains_iff p s =
    (contains-IsPiece p s, λ (before, after, e). rw e (contains-append p before after))

module _ {ℓ κ} {A : Type ℓ} (P : A → Type κ) (p : A → Bool)
    (iff : (a : A) → (p a ≡ true) ↔ P a) where
  any-Somewhere : (xs : List A) → any p xs ≡ true → Somewhere P xs
  any-Somewhere [] h = absurd (cc h)
  any-Somewhere (x ∷ xs) h = elim (Bool-cases (p x)) [
    | inl e ↦ here ((iff x).0 e)
    | inr e ↦ later (any-Somewhere xs (rw e at h))
  ]

  Somewhere-any : {xs : List A} → Somewhere P xs → any p xs ≡ true
  Somewhere-any (here {x} h) = rw ((iff x).1 h)
  Somewhere-any (later h) = ||-intro _ _ (Somewhere-any h)

  pub any_iff : (xs : List A) → (any p xs ≡ true) ↔ Somewhere P xs
  any_iff xs = (any-Somewhere xs, Somewhere-any)
