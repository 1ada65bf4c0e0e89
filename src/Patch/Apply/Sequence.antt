-- ===== src/Patch/Apply/Sequence.antt =====
-- All hunks of `apply_hunks`, one after another, and the text around them.
use se_sshion.Base.{
  ℕ, suc, Bool, true, false, ◌&&◌, List, [], ◌∷◌, ◌++◌, ◌≡◌, refl, sym, ap, ◌∙◌, ◌↔◌, ◌≢◌, inl, inr,
  ok, ◌>>=◌, >>=-eq-ok, Bool-cases, if◌then◌else◌, append-nil, append_assoc,
}
use se_sshion.Base.Lists.{is_nil}
use se_sshion.Base.Text.{Text, join, split, ends_with, without_suffix}
use se_sshion.Base.Text.Lines.{
  join-split, split-ne-nil, without_suffix-ends_with, without_suffix_other,
}
use se_sshion.Patch.{PatchHunk}
use se_sshion.Patch.Apply.{apply_hunk, hunks_loop, content_lines, render_lines, apply_hunks}
use se_sshion.Patch.Apply.Unique.{IsReplaced, apply_hunk-eq-ok}

-- Each hunk in turn rewrites the one place where it fits in what those before it left.
pub data Rewrites : List PatchHunk → List Text → List Text → Type 0 where
  done : {lines result : List Text} → lines ≡ result → Rewrites [] lines result
  step :
      {hunk : PatchHunk} {hunks : List PatchHunk} {lines lines' result : List Text}
      → IsReplaced hunk lines lines'
      → Rewrites hunks lines' result
      → Rewrites (hunk ∷ hunks) lines result

loop→rewrites :
    (index : ℕ) (hunks : List PatchHunk) (lines result : List Text)
    → hunks_loop index hunks lines ≡ ok result
    → Rewrites hunks lines result
unfolding hunks_loop
loop→rewrites index [] lines result h = done (cc h)
loop→rewrites index (hunk ∷ hunks) lines result h =
    let (lines', first, rest) =
      >>=-eq-ok (apply_hunk index hunk lines) (hunks_loop (suc index) hunks) h in
    step ((apply_hunk-eq-ok index hunk lines lines').0 first)
      (loop→rewrites (suc index) hunks lines' result rest)

rewrites→loop :
    {hunks : List PatchHunk} {lines result : List Text} (index : ℕ)
    → Rewrites hunks lines result
    → hunks_loop index hunks lines ≡ ok result
unfolding hunks_loop
rewrites→loop index (done e) = ap ok e
rewrites→loop index (step {hunk} {hunks} {lines} {lines'} {result} r rs) =
    ap (λ m. m >>= hunks_loop (suc index) hunks) ((apply_hunk-eq-ok index hunk lines lines').1 r)
    ∙ rewrites→loop (suc index) rs

-- The text of lines: each ends in a newline, the last one only where `final` says so. No line,
-- no text.
abbrev pub text_of : Bool → List Text → Text
text_of final [] = []
text_of final (line ∷ []) = line ++ (if final then b'\n' ∷ [] else [])
text_of final (line ∷ next ∷ lines) = line ++ b'\n' ∷ text_of final (next ∷ lines)

-- The code joins the lines first and then appends the final newline.
render_lines-text_of :
    (final : Bool) (lines : List Text) → render_lines final lines ≡ text_of final lines
unfolding render_lines join
render_lines-text_of true [] = refl
render_lines-text_of false [] = refl
render_lines-text_of true (line ∷ []) = refl
render_lines-text_of false (line ∷ []) = sym (append-nil line)
render_lines-text_of true (line ∷ next ∷ lines) =
    append_assoc line (b'\n' ∷ join b'\n' (next ∷ lines)) (b'\n' ∷ [])
    ∙ ap (λ t. line ++ b'\n' ∷ t) (render_lines-text_of true (next ∷ lines))
render_lines-text_of false (line ∷ next ∷ lines) =
    ap (λ t. line ++ b'\n' ∷ t) (render_lines-text_of false (next ∷ lines))

-- `apply_hunks` succeeds exactly where its hunks, in order, each rewrite the one place where
-- they fit in the lines that the hunks before them left, from the lines of the content on, and
-- its result is the text of the last lines: each of them with a newline, the last one only if the
-- content ended in one, and nothing where no line is left.
pub apply_hunks-eq-ok :
    (content : Text) (hunks : List PatchHunk) (result : Text)
    → (apply_hunks content hunks ≡ ok result) ↔ (
        (lines : List Text) × Rewrites hunks (content_lines content) lines
        × (result ≡ text_of (ends_with b'\n' content) lines))
unfolding apply_hunks
apply_hunks-eq-ok content hunks result = (
  λ h.
      let (lines, r, e) =
        >>=-eq-ok (hunks_loop 0 hunks (content_lines content))
          (λ ls. ok (render_lines (ends_with b'\n' content) ls)) h in
      (
        lines,
        loop→rewrites 0 hunks (content_lines content) lines r,
        cc (e, render_lines-text_of (ends_with b'\n' content) lines),
      ),
  λ (lines, r, e).
      rw (rewrites→loop 0 r) (ap ok (render_lines-text_of (ends_with b'\n' content) lines ∙ sym e)),
)

is_nil-eq-false {ℓ} : {A : Type ℓ} (xs : List A) → xs ≢ [] → is_nil xs ≡ false
is_nil-eq-false [] h = absurd (h refl)
is_nil-eq-false (x ∷ xs) h = refl

render_lines-split :
    (final : Bool) (body : Text)
    → render_lines final (split b'\n' body) ≡ (if final then body ++ b'\n' ∷ [] else body)
unfolding render_lines
render_lines-split final body =
    rw (is_nil-eq-false (split b'\n' body) (split-ne-nil b'\n' body), join-split b'\n' body)
      (if_same final)
  where
    if_same :
        (b : Bool)
        → (if b && true then body ++ b'\n' ∷ [] else body)
          ≡ (if b then body ++ b'\n' ∷ [] else body)
    if_same true = refl
    if_same false = refl

-- The lines of a content and its final newline hold the whole content: rendered again they are
-- the content, character for character.
pub render_lines-content_lines :
    (content : Text) → render_lines (ends_with b'\n' content) (content_lines content) ≡ content
unfolding content_lines
render_lines-content_lines [] = unfold render_lines ends_with join in refl
render_lines-content_lines (c ∷ s) =
    render_lines-split (ends_with b'\n' (c ∷ s)) (without_suffix b'\n' (c ∷ s))
    ∙ elim (Bool-cases (ends_with b'\n' (c ∷ s))) [
      | inl e ↦ rw e (without_suffix-ends_with b'\n' (c ∷ s) e)
      | inr e ↦ rw e (without_suffix_other b'\n' (c ∷ s) e)
    ]
