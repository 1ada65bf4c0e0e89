-- ===== src/Base/Text/Trim.antt =====
-- Trimming cuts white space from both ends, and a trimmed text is left alone by it.
use se_sshion.Base.Tests.{Bool-cases}
use se_sshion.Base.Text.{Text, is_whitespace, trim_start, trim_end, trim}
use Prim.Native.Nat.{ℕ}
use mathlib.Core.Path.{◌≡◌, refl, ap, sym, ◌∙◌, subst}
use mathlib.Core.Logic.{inl, inr}
use mathlib.Core.Bool.{true, false}
use mathlib.Core.List.{[], ◌∷◌, ◌++◌, reverse, reverse-reverse, reverse-append}

-- The text is empty, or its first character is no white space.
abbrev pub StartsClean : Text → Type 0
StartsClean [] = Unit
StartsClean (c ∷ cs) = is_whitespace c ≡ false

trim_start_skip : (c : ℕ) (s : Text) → is_whitespace c ≡ true → trim_start (c ∷ s) ≡ trim_start s
trim_start_skip c s h = unfold trim_start in rw h

trim_start_keep : (c : ℕ) (s : Text) → is_whitespace c ≡ false → trim_start (c ∷ s) ≡ c ∷ s
trim_start_keep c s h = unfold trim_start in rw h

trim_start-StartsClean : (s : Text) → StartsClean (trim_start s)
trim_start-StartsClean [] = unfold trim_start in tt
trim_start-StartsClean (c ∷ s) = elim (Bool-cases (is_whitespace c)) [
  | inl e ↦ subst StartsClean (sym (trim_start_skip c s e)) (trim_start-StartsClean s)
  | inr e ↦ subst StartsClean (sym (trim_start_keep c s e)) e
]

trim_start-eq_self : (s : Text) → StartsClean s → trim_start s ≡ s
trim_start-eq_self [] h = unfold trim_start in refl
trim_start-eq_self (c ∷ s) h = trim_start_keep c s h

trim_start_suffix : (s : Text) → (cut : Text) × (s ≡ cut ++ trim_start s)
trim_start_suffix [] = ([], unfold trim_start in refl)
trim_start_suffix (c ∷ s) = elim (Bool-cases (is_whitespace c)) [
  | inl e ↦
      let (cut, split_at) = trim_start_suffix s in
      (c ∷ cut, rw (trim_start_skip c s e) (ap (◌∷◌ c) split_at))
  | inr e ↦ ([], sym (trim_start_keep c s e))
]

trim_end_prefix : (s : Text) → (cut : Text) × (s ≡ trim_end s ++ cut)
unfolding trim_end
trim_end_prefix s =
    let (cut, split_at) = trim_start_suffix (reverse s) in
    (
      reverse cut,
      sym (reverse-reverse s) ∙ ap reverse split_at ∙ reverse-append cut (trim_start (reverse s)),
    )

StartsClean-prefix : (a b : Text) → StartsClean (a ++ b) → StartsClean a
StartsClean-prefix [] b h = tt
StartsClean-prefix (c ∷ a) b h = h

trim_end_idem : (s : Text) → trim_end (trim_end s) ≡ trim_end s
unfolding trim_end
trim_end_idem s =
    let kept : Text = trim_start (reverse s) in
    ap (λ t. reverse (trim_start t)) (reverse-reverse kept)
    ∙ ap reverse (trim_start-eq_self kept (trim_start-StartsClean (reverse s)))

pub trim_idem : (s : Text) → trim (trim s) ≡ trim s
unfolding trim
trim_idem s =
    let kept : Text = trim_start s in
    let (cut, split_at) = trim_end_prefix kept in
    ap trim_end (
      trim_start-eq_self (trim_end kept) (
        StartsClean-prefix (trim_end kept) cut
          (subst StartsClean split_at (trim_start-StartsClean s))))
    ∙ trim_end_idem kept
