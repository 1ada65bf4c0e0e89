-- ===== src/Base/Text/Lines.antt =====
-- `split` and `join` undo one another.
use se_sshion.Base.Tests.{◌==◌, Bool-cases, ==_iff}
use se_sshion.Base.Lists.{All, any}
use se_sshion.Base.Text.{Text, cons_first, split, join, strip_suffix, without_suffix, ends_with}
use Prim.Native.Nat.{ℕ}
use mathlib.Core.Path.{◌≡◌, refl, ap, sym, ◌∙◌}
use mathlib.Core.Logic.{◌≢◌, inl, inr}
use mathlib.Core.Bool.{true, false}
use mathlib.Core.Option.{some}
use mathlib.Core.List.{List, [], ◌∷◌, ◌++◌}
use native.Mathlib.Omega.{arith}

-- No character of the text is `sep`.
abbrev pub Lacks : ℕ → Text → Type 0
Lacks sep [] = Unit
Lacks sep (c ∷ cs) = ((c == sep) ≡ false) × Lacks sep cs

-- for a literal, by evaluation
pub any-Lacks : (sep : ℕ) (s : Text) → any (λ c. c == sep) s ≡ false → Lacks sep s
any-Lacks sep [] h = tt
any-Lacks sep (c ∷ s) h = ground (arith, any-Lacks sep s)

cons_first-ne-nil : (c : ℕ) (ls : List Text) → cons_first c ls ≢ []
cons_first-ne-nil c [] = ground arith
cons_first-ne-nil c (l ∷ ls) = ground arith

pub split-ne-nil : (sep : ℕ) (s : Text) → split sep s ≢ []
unfolding split
split-ne-nil sep [] = ground arith
split-ne-nil sep (c ∷ s) = elim (Bool-cases (c == sep)) [
  | inl e ↦ rw e (ground arith)
  | inr e ↦ rw e (cons_first-ne-nil c (split sep s))
]

join-cons_first :
    (sep c : ℕ) (ls : List Text) → ls ≢ [] → join sep (cons_first c ls) ≡ c ∷ join sep ls
unfolding join
join-cons_first sep c [] h = absurd (h refl)
join-cons_first sep c (l ∷ []) h = refl
join-cons_first sep c (l ∷ m ∷ ls) h = refl

join-nil_first : (sep : ℕ) (ls : List Text) → ls ≢ [] → join sep ([] ∷ ls) ≡ sep ∷ join sep ls
unfolding join
join-nil_first sep [] h = absurd (h refl)
join-nil_first sep (l ∷ ls) h = refl

pub join-split : (sep : ℕ) (s : Text) → join sep (split sep s) ≡ s
unfolding split
join-split sep [] = unfold join in refl
join-split sep (c ∷ s) = elim (Bool-cases (c == sep)) [
  | inl e ↦ rw e (
      join-nil_first sep (split sep s) (split-ne-nil sep s)
      ∙ ap (◌∷◌ sep) (join-split sep s)
      ∙ ap (λ k. k ∷ s) (sym ((==_iff c sep).0 e)))
  | inr e ↦
      rw e
        (join-cons_first sep c (split sep s) (split-ne-nil sep s) ∙ ap (◌∷◌ c) (join-split sep s))
]

pub split-Lacks : (sep : ℕ) (l : Text) → Lacks sep l → split sep l ≡ l ∷ []
unfolding split
split-Lacks sep [] h = refl
split-Lacks sep (c ∷ l) h = ground (arith, split-Lacks sep l h.1)

pub split-append :
    (sep : ℕ) (l rest : Text) → Lacks sep l → split sep (l ++ (sep ∷ rest)) ≡ l ∷ split sep rest
unfolding split
split-append sep [] rest h = ground arith
split-append sep (c ∷ l) rest h = ground (arith, split-append sep l rest h.1)

pub split-join :
    (sep : ℕ) (l : Text) (ls : List Text)
    → All (Lacks sep) (l ∷ ls)
    → split sep (join sep (l ∷ ls)) ≡ l ∷ ls
unfolding join
split-join sep l [] h = split-Lacks sep l h.0
split-join sep l (m ∷ ls) h =
    split-append sep l (join sep (m ∷ ls)) h.0 ∙ ap (◌∷◌ l) (split-join sep m ls h.1)

strip_suffix-concat : (c : ℕ) (s : Text) → strip_suffix c (s ++ c ∷ []) ≡ some s
unfolding strip_suffix
strip_suffix-concat c [] = ground arith
strip_suffix-concat c (x ∷ []) = ground arith
strip_suffix-concat c (x ∷ y ∷ s) = ground (arith, strip_suffix-concat c (y ∷ s))

pub without_suffix-concat : (c : ℕ) (s : Text) → without_suffix c (s ++ c ∷ []) ≡ s
unfolding without_suffix
without_suffix-concat c s = rw (strip_suffix-concat c s, without_suffix)

pub ends_with-concat : (c : ℕ) (s : Text) → ends_with c (s ++ c ∷ []) ≡ true
unfolding ends_with
ends_with-concat c [] = ground arith
ends_with-concat c (x ∷ []) = ground arith
ends_with-concat c (x ∷ y ∷ s) = ends_with-concat c (y ∷ s)

-- Without the suffix and with it again, a text that ends in it is itself.
pub without_suffix-ends_with :
    (c : ℕ) (s : Text) → ends_with c s ≡ true → without_suffix c s ++ c ∷ [] ≡ s
unfolding without_suffix ends_with
without_suffix-ends_with c [] h = cc
without_suffix-ends_with c (x ∷ []) h = ground arith
without_suffix-ends_with c (x ∷ y ∷ s) h = ground (arith, without_suffix-ends_with c (y ∷ s))

pub without_suffix_other : (c : ℕ) (s : Text) → ends_with c s ≡ false → without_suffix c s ≡ s
unfolding without_suffix ends_with
without_suffix_other c [] h = refl
without_suffix_other c (x ∷ []) h = ground arith
without_suffix_other c (x ∷ y ∷ s) h = ground (arith, without_suffix_other c (y ∷ s))

pub Lacks-append : (sep : ℕ) (a b : Text) → Lacks sep a → Lacks sep b → Lacks sep (a ++ b)
Lacks-append sep [] b h k = k
Lacks-append sep (c ∷ a) b h k = (h.0, Lacks-append sep a b h.1 k)

cons_first-Lacks :
    (sep c : ℕ) (ls : List Text)
    → (c == sep) ≡ false
    → All (Lacks sep) ls
    → All (Lacks sep) (cons_first c ls)
cons_first-Lacks sep c [] e h = ((e, tt), tt)
cons_first-Lacks sep c (l ∷ ls) e h = ((e, h.0), h.1)

pub split-All-Lacks : (sep : ℕ) (s : Text) → All (Lacks sep) (split sep s)
unfolding split
split-All-Lacks sep [] = (tt, tt)
split-All-Lacks sep (c ∷ s) = elim (Bool-cases (c == sep)) [
  | inl e ↦ rw e (tt, split-All-Lacks sep s)
  | inr e ↦ rw e (cons_first-Lacks sep c (split sep s) e (split-All-Lacks sep s))
]

pub ends_with-append :
    (c : ℕ) (a : Text) (x : ℕ) (b : Text) → ends_with c (a ++ (x ∷ b)) ≡ ends_with c (x ∷ b)
unfolding ends_with
ends_with-append c [] x b = refl
ends_with-append c (y ∷ []) x b = refl
ends_with-append c (y ∷ z ∷ a) x b = ends_with-append c (z ∷ a) x b

append-ne-nil : (a : Text) (x : ℕ) (b : Text) → a ++ (x ∷ b) ≢ []
append-ne-nil [] x b = ground arith
append-ne-nil (y ∷ a) x b = ground arith

join-ne-nil : (sep : ℕ) (ls : List Text) (x : ℕ) (l : Text) → join sep (ls ++ (x ∷ l) ∷ []) ≢ []
unfolding join
join-ne-nil sep [] x l = ground arith
join-ne-nil sep (a ∷ []) x l = append-ne-nil a sep (x ∷ l)
join-ne-nil sep (a ∷ b ∷ ls) x l = append-ne-nil a sep (join sep (b ∷ (ls ++ (x ∷ l) ∷ [])))

ends_with-cons : (c y : ℕ) (t : Text) → t ≢ [] → ends_with c (y ∷ t) ≡ ends_with c t
unfolding ends_with
ends_with-cons c y [] h = absurd (h refl)
ends_with-cons c y (x ∷ t) h = refl

-- A joined text ends as its last piece, if that is not empty.
pub ends_with-join :
    (sep : ℕ) (ls : List Text) (x : ℕ) (l : Text)
    → ends_with sep (join sep (ls ++ (x ∷ l) ∷ [])) ≡ ends_with sep (x ∷ l)
unfolding join
ends_with-join sep [] x l = refl
ends_with-join sep (a ∷ []) x l = ends_with-append sep a sep (x ∷ l) ∙ unfold ends_with in refl
ends_with-join sep (a ∷ b ∷ ls) x l =
    let rest : Text = join sep (b ∷ (ls ++ (x ∷ l) ∷ [])) in
    ends_with-append sep a sep rest
    ∙ ends_with-cons sep sep rest (join-ne-nil sep (b ∷ ls) x l)
    ∙ ends_with-join sep (b ∷ ls) x l

pub Lacks-suffix : (sep : ℕ) (a b : Text) → Lacks sep (a ++ b) → Lacks sep b
Lacks-suffix sep [] b h = h
Lacks-suffix sep (c ∷ a) b h = Lacks-suffix sep a b h.1
