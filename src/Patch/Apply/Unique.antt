-- ===== src/Patch/Apply/Unique.antt =====
-- One hunk of `apply_hunks` against a specification that has no search in it.
use se_sshion.Base.{
  ℕ, ◌+◌, ◌<◌, List, [], ◌∷◌, ◌++◌, ◌≡◌, refl, sym, ap, ◌∙◌, subst, ◌↔◌, arith, Result, ok, err,
}
use se_sshion.Base.Lists.{length, here, later, Elem, Elem-one, take-length, drop-length, drop_add}
use se_sshion.Base.Text.{Text}
use se_sshion.Patch.{PatchHunk, PatchError, context_not_found, ambiguous_context}
use se_sshion.Patch.Apply.{candidates, splice, choose, apply_hunk}
use se_sshion.Patch.Apply.Matches.{IsAnchored, Fits, candidates_iff, candidates-lt}

-- `result` is `lines` with the one place where the hunk fits rewritten, and nothing else.
pub record IsReplaced (hunk : PatchHunk) (lines result : List Text) : Type 0 where
  pub above : List Text
  pub below : List Text
  pub splits : lines ≡ above ++ (hunk.old_lines ++ below)
  pub near : IsAnchored hunk.anchor (above ++ hunk.old_lines)
  pub only : (k : ℕ) → Fits hunk lines k → k ≡ length above
  pub result_is : result ≡ above ++ (hunk.new_lines ++ below)

-- The hunk fits at two places.
abbrev pub IsAmbiguous : PatchHunk → List Text → Type 0
IsAmbiguous hunk lines = (a : ℕ) × (b : ℕ) × (a < b) × Fits hunk lines a × Fits hunk lines b

splice_at :
    (hunk : PatchHunk) (above below : List Text)
    → splice hunk (above ++ (hunk.old_lines ++ below)) (length above)
      ≡ above ++ (hunk.new_lines ++ below)
unfolding splice
splice_at hunk above below = rw (
  take-length above (hunk.old_lines ++ below),
  drop_add (length above) (length hunk.old_lines) (above ++ (hunk.old_lines ++ below)),
  drop-length above (hunk.old_lines ++ below),
  drop-length hunk.old_lines below,
)

splice-Fits :
    (hunk : PatchHunk) (lines : List Text) (k : ℕ) (f : Fits hunk lines k)
    → splice hunk lines k ≡ f.above ++ (hunk.new_lines ++ f.below)
splice-Fits hunk lines k f =
    ap (splice hunk lines) (sym f.start_is)
    ∙ ap (λ l. splice hunk l (length f.above)) f.splits
    ∙ splice_at hunk f.above f.below

IsReplaced-Fits :
    {hunk : PatchHunk} {lines result : List Text} (r : IsReplaced hunk lines result)
    → Fits hunk lines (length r.above)
IsReplaced-Fits r = record {
  above = r.above;
  below = r.below;
  splits = r.splits;
  start_is = refl;
  near = r.near;
}

module _ (index : ℕ) (hunk : PatchHunk) (lines : List Text) where
  abbrev outcome : List ℕ → Result PatchError (List Text)
  outcome = choose index hunk lines

  found : (ks : List ℕ) → candidates hunk lines ≡ ks → (k : ℕ) → Elem k ks ↔ Fits hunk lines k
  found ks e k = subst (λ l. Elem k l ↔ Fits hunk lines k) e (candidates_iff hunk lines k)

  unique→replaced :
      (ks : List ℕ) {result : List Text}
      → candidates hunk lines ≡ ks
      → outcome ks ≡ ok result
      → IsReplaced hunk lines result
  unfolding choose
  unique→replaced [] e h = absurd (cc h)
  unique→replaced (k ∷ []) e h =
      let f : Fits hunk lines k = (found (k ∷ []) e k).0 (here refl) in
      record {
        above = f.above;
        below = f.below;
        splits = f.splits;
        near = f.near;
        only = λ j fj. Elem-one ((found (k ∷ []) e j).1 fj) ∙ sym f.start_is;
        result_is = cc (h, splice-Fits hunk lines k f);
      }
  unique→replaced (a ∷ b ∷ more) e h = absurd (cc h)

  replaced→unique :
      (ks : List ℕ) {result : List Text}
      → candidates hunk lines ≡ ks
      → IsReplaced hunk lines result
      → outcome ks ≡ ok result
  unfolding choose IsReplaced-Fits
  replaced→unique [] e r = absurd (elim ((found [] e _).1 (IsReplaced-Fits r)) [ ])
  replaced→unique (k ∷ []) e r =
      let at : length r.above ≡ k = Elem-one ((found (k ∷ []) e _).1 (IsReplaced-Fits r)) in
      let f : Fits hunk lines k = subst (Fits hunk lines) at (IsReplaced-Fits r) in
      ap ok (
        ap (splice hunk lines) (sym at)
        ∙ splice-Fits hunk lines (length r.above) (IsReplaced-Fits r)
        ∙ sym r.result_is)
  replaced→unique (a ∷ b ∷ more) e r =
      let ea = r.only a ((found _ e a).0 (here refl)) in
      let eb = r.only b ((found _ e b).0 (later (here refl))) in
      let lt = candidates-lt hunk lines e in absurd (omega arith)

  -- A hunk succeeds exactly where it fits at one place only, and then this place alone is
  -- rewritten from the old lines to the new.
  pub apply_hunk-eq-ok :
      (result : List Text)
      → (apply_hunk index hunk lines ≡ ok result) ↔ IsReplaced hunk lines result
  unfolding apply_hunk
  apply_hunk-eq-ok result =
      (unique→replaced (candidates hunk lines) refl, replaced→unique (candidates hunk lines) refl)

  error_cases :
      (ks : List ℕ)
      → candidates hunk lines ≡ ks
      → ((outcome ks ≡ err (context_not_found (index + 1))) ↔ ((k : ℕ) → ¬ Fits hunk lines k))
        × ((outcome ks ≡ err (ambiguous_context (index + 1))) ↔ IsAmbiguous hunk lines)
  unfolding choose
  error_cases [] e = (
    (λ _ k f. elim ((found [] e k).1 f) [ ], λ _. refl),
    (λ h. absurd (cc h), λ (a, b, lt, fa, fb). absurd (elim ((found [] e a).1 fa) [ ])),
  )
  error_cases (k ∷ []) e =
      let f : Fits hunk lines k = (found (k ∷ []) e k).0 (here refl) in
      (
        (λ h. absurd (cc h), λ never. absurd (never k f)),
        (
          λ h. absurd (cc h),
          λ (a, b, lt, fa, fb).
              let ea = Elem-one ((found (k ∷ []) e a).1 fa) in
              let eb = Elem-one ((found (k ∷ []) e b).1 fb) in absurd (omega arith),
        ),
      )
  error_cases (a ∷ b ∷ more) e =
      let fa : Fits hunk lines a = (found _ e a).0 (here refl) in
      let fb : Fits hunk lines b = (found _ e b).0 (later (here refl)) in
      (
        (λ h. absurd (cc h), λ never. absurd (never a fa)),
        (λ _. (a, b, candidates-lt hunk lines e, fa, fb), λ _. refl),
      )

  -- The two errors of a hunk, with its number from 1: it is not found exactly where it fits at
  -- no place, and ambiguous exactly where it fits at two.
  pub apply_hunk_errors :
      ((apply_hunk index hunk lines ≡ err (context_not_found (index + 1)))
        ↔ ((k : ℕ) → ¬ Fits hunk lines k))
      × ((apply_hunk index hunk lines ≡ err (ambiguous_context (index + 1)))
          ↔ IsAmbiguous hunk lines)
  unfolding apply_hunk
  apply_hunk_errors = error_cases (candidates hunk lines) refl
