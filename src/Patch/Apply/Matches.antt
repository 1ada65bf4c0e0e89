-- ===== src/Patch/Apply/Matches.antt =====
-- Where a hunk fits, said without indices, and that the search of `apply_hunks` finds exactly
-- these places.
use se_sshion.Base.{
  ℕ, zero, suc, ◌+◌, ◌≤◌, ◌<◌, true, Option, none, some, List, ◌∷◌, ◌++◌, ◌≡◌, refl, sym, ap, ◌∙◌,
  ◌↔◌, inl, inr, append_assoc, arith, Bool-cases, dec_lt, &&-eq-true, &&-intro, subst, ◌-◌, leb,
}
use se_sshion.Base.Lists.{
  length, take, drop, Somewhere, here, later, Elem, cons-injective, Somewhere-cons, length-append,
  take-append-drop, length-take, take-length, drop-length, take_add,
}
use se_sshion.Base.Text.{Text, text_eq_iff, contains}
use se_sshion.Base.Text.Pieces.{IsPiece, contains_iff, any_iff}
use se_sshion.Patch.{PatchHunk}
use se_sshion.Patch.Apply.{lines_eq, anchored, is_candidate, candidates_from, candidates}

-- The anchor, if any, is a piece of one of the lines.
abbrev pub IsAnchored : Option Text → List Text → Type 0
IsAnchored none above = Unit
IsAnchored (some anchor) above = Somewhere (IsPiece anchor) above

-- The old lines of the hunk stand at line `start`, at or below its anchor.
pub record Fits (hunk : PatchHunk) (lines : List Text) (start : ℕ) : Type 0 where
  pub above : List Text
  pub below : List Text
  pub splits : lines ≡ above ++ (hunk.old_lines ++ below)
  pub start_is : length above ≡ start
  pub near : IsAnchored hunk.anchor (above ++ hunk.old_lines)

lines_eq_iff : (xs ys : List Text) → (lines_eq xs ys ≡ true) ↔ (xs ≡ ys)
unfolding lines_eq
lines_eq_iff (x ∷ xs) (y ∷ ys) = ground (arith, text_eq_iff x y, lines_eq_iff xs ys)
lines_eq_iff _ _ = ground arith

anchored_iff :
    (a : Option Text) (above : List Text) → (anchored a above ≡ true) ↔ IsAnchored a above
unfolding anchored
anchored_iff none above = (λ _. tt, λ _. refl)
anchored_iff (some anchor) above =
    any_iff (IsPiece anchor) (contains anchor) (contains_iff anchor) above

is_candidate-Fits :
    (hunk : PatchHunk) (lines : List Text) (start : ℕ)
    → start ≤ length lines
    → is_candidate hunk lines start ≡ true
    → Fits hunk lines start
unfolding is_candidate
is_candidate-Fits hunk lines start room h =
    let old : List Text = hunk.old_lines in
    let rest : List Text = drop start lines in
    let parts = &&-eq-true _ _ h in
    let same = (lines_eq_iff (take (length old) rest) old).0 parts.0 in
    record {
      above = take start lines;
      below = drop (length old) rest;
      splits =
          sym (take-append-drop start lines)
          ∙ ap (λ r. take start lines ++ r)
              (sym (take-append-drop (length old) rest)
                ∙ ap (λ o. o ++ drop (length old) rest) same);
      start_is = length-take start lines room;
      near =
          subst (λ ls. IsAnchored hunk.anchor ls)
            (take_add start (length old) lines ∙ ap (λ o. take start lines ++ o) same)
            ((anchored_iff _ _).0 parts.1);
    }

take_both {ℓ} :
    {A : Type ℓ} (above old below : List A)
    → take (length above + length old) (above ++ (old ++ below)) ≡ above ++ old
take_both above old below =
    rw (← length-append above old, ← append_assoc above old below)
      (take-length (above ++ old) below)

is_candidate_at :
    (hunk : PatchHunk) (above below : List Text)
    → IsAnchored hunk.anchor (above ++ hunk.old_lines)
    → is_candidate hunk (above ++ (hunk.old_lines ++ below)) (length above) ≡ true
unfolding is_candidate
is_candidate_at hunk above below near =
    rw
      (
        take_both above hunk.old_lines below,
        drop-length above (hunk.old_lines ++ below),
        take-length hunk.old_lines below,
      )
      (&&-intro (lines_eq hunk.old_lines hunk.old_lines)
        (anchored hunk.anchor (above ++ hunk.old_lines))
        ((lines_eq_iff hunk.old_lines hunk.old_lines).1 refl) ((anchored_iff _ _).1 near))

Fits-is_candidate :
    (hunk : PatchHunk) (lines : List Text) (start : ℕ)
    → Fits hunk lines start
    → is_candidate hunk lines start ≡ true
Fits-is_candidate hunk lines start f =
    rw (f.splits, ← f.start_is) (is_candidate_at hunk f.above f.below f.near)

Fits-room :
    (hunk : PatchHunk) (lines : List Text) (start : ℕ)
    → Fits hunk lines start
    → start + length hunk.old_lines ≤ length lines
Fits-room hunk lines start f =
    let l = ap length f.splits in
    omega (
      arith,
      l,
      length-append f.above (hunk.old_lines ++ f.below),
      length-append hunk.old_lines f.below,
      f.start_is,
    )

-- Every start that the loop keeps fits, and lies at or after the loop's first start.
candidates_from-Fits :
    (hunk : PatchHunk) (lines : List Text) (start rounds : ℕ)
    → start + rounds ≤ suc (length lines)
    → (k : ℕ) → Elem k (candidates_from hunk lines start rounds)
    → Fits hunk lines k × (start ≤ k)
unfolding candidates_from
candidates_from-Fits hunk lines start zero room k m = elim m [ ]
candidates_from-Fits hunk lines start (suc rounds) room k m =
    let ih = candidates_from-Fits hunk lines (suc start) rounds (omega arith) in
    elim (Bool-cases (is_candidate hunk lines start)) [
      | inl e ↦ elim (Somewhere-cons (rw e at m)) [
        | inl first ↦ (
          subst (Fits hunk lines) (sym first) (is_candidate-Fits hunk lines start (omega arith) e),
          omega arith,
        )
        | inr more ↦ let (f, le) = ih k more in (f, omega arith)
      ]
      | inr e ↦ let (f, le) = ih k (rw e at m) in (f, omega arith)
    ]

-- Every start in the loop's range that fits is kept.
candidates_from_complete :
    (hunk : PatchHunk) (lines : List Text) (start rounds k : ℕ)
    → start ≤ k
    → k < start + rounds
    → Fits hunk lines k
    → Elem k (candidates_from hunk lines start rounds)
unfolding candidates_from
candidates_from_complete hunk lines start zero k lo hi f = absurd (omega arith)
candidates_from_complete hunk lines start (suc rounds) k lo hi f =
    let ih = λ (p : start < k).
      candidates_from_complete hunk lines (suc start) rounds k p (omega arith) f in
    let fits = Fits-is_candidate hunk lines k f in
    elim (Bool-cases (is_candidate hunk lines start)) [
      | inl e ↦ rw e (elim (dec_lt start k) [ yes p ↦ later (ih p) | no p ↦ here (omega arith) ])
      | inr e ↦ rw e (elim (dec_lt start k) [
        | yes p ↦ ih p
        | no p ↦ absurd (cc (let same : start ≡ k = omega arith in same))
      ])
    ]

-- The starts are found in order.
candidates_from-lt :
    (hunk : PatchHunk) (lines : List Text) (start rounds : ℕ) {a b : ℕ} {more : List ℕ}
    → start + rounds ≤ suc (length lines)
    → candidates_from hunk lines start rounds ≡ a ∷ b ∷ more
    → a < b
unfolding candidates_from
candidates_from-lt hunk lines start zero room e = absurd (cc e)
candidates_from-lt hunk lines start (suc rounds) {a} {b} {more} room e =
    elim (Bool-cases (is_candidate hunk lines start)) [
      | inl here_too ↦
          let (first, second) = cons-injective (rw here_too at e) in
          let (_f, le) =
            candidates_from-Fits hunk lines (suc start) rounds (omega arith) b
              (rw second (here refl)) in
          omega arith
      | inr h ↦ candidates_from-lt hunk lines (suc start) rounds (omega arith) (rw h at e)
    ]

-- The starts that `apply_hunks` collects are those where the hunk fits.
pub candidates_iff :
    (hunk : PatchHunk) (lines : List Text) (k : ℕ)
    → Elem k (candidates hunk lines) ↔ Fits hunk lines k
unfolding candidates
candidates_iff hunk lines k =
    let old_len : ℕ = length hunk.old_lines in
    let rounds : ℕ = suc (length lines - old_len) in
    elim (Bool-cases (leb old_len (length lines))) [
      | inl e ↦ rw e (
        λ m. (candidates_from-Fits hunk lines 0 rounds (ground arith) k m).0,
        λ f.
            let room = Fits-room hunk lines k f in
            candidates_from_complete hunk lines 0 rounds k (omega arith) (omega arith) f,
      )
      | inr e ↦
          rw e (λ m. elim m [ ], λ f. let room = Fits-room hunk lines k f in absurd (ground arith))
    ]

pub candidates-lt :
    (hunk : PatchHunk) (lines : List Text) {a b : ℕ} {more : List ℕ}
    → candidates hunk lines ≡ a ∷ b ∷ more
    → a < b
unfolding candidates
candidates-lt hunk lines e = elim (Bool-cases (leb (length hunk.old_lines) (length lines))) [
  | inl fits ↦
      candidates_from-lt hunk lines 0 (suc (length lines - length hunk.old_lines)) (ground arith)
        (rw fits at e)
  | inr too_long ↦ absurd (cc (rw too_long at e))
]
