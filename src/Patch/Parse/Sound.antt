-- ===== src/Patch/Parse/Sound.antt =====
-- What `parse_patch` returns is a list of file patches that a patch text can hold.
use se_sshion.Patch.Parse.Hunks.{hunk_loop_marker, hunk_loop_line}
use se_sshion.Base.{
  ℕ, true, not, Option, none, some, List, [], ◌∷◌, ◌≡◌, ◌≢◌, ◌⊎◌, refl, inl, inr, arith, subst,
  Bool-cases, OnOk, OnOk-bind, OnOk-bind_eq, OnOk-reject_if, OnOk-if, OnOk-if_some,
}
use se_sshion.Base.Lists.{All, All-append, is_nil}
use se_sshion.Base.Text.{Text, codes, join, ends_with, strip_prefix, starts_with, text_eq}
use se_sshion.Base.Text.Lines.{Lacks-suffix, ends_with-concat}
use se_sshion.Base.Text.Pieces.{strip_prefix-eq-some}
use se_sshion.Patch.{add_file, update_file, delete_file, PatchHunk, FilePatch, move_to}
use se_sshion.Patch.Parse.{
  HunkLines, fresh_hunk, parse_marker, prefixed_line, hunk_line, finish_hunk, hunk_loop,
  parse_update, parse_add, add_lines, parse_header, parse_section, validate_path, marker_name,
  delete_section,
}
use se_sshion.Patch.Parse.Render.{Anchors, IsHunk, IsOperation, IsFilePatch}
use se_sshion.Patch.Parse.RoundTrip.{OneLine}

-- what holds of a hunk while its lines are read
record HoldsLines (h : HunkLines) : Type 0 where
  anchor_name : Anchors h.anchor
  old_lacks : All OneLine h.old_lines
  new_lacks : All OneLine h.new_lines

prefixed_line-HoldsLines :
    (h : HunkLines) (c : ℕ) (text : Text)
    → HoldsLines h
    → OneLine text
    → OnOk HoldsLines (prefixed_line h c text)
unfolding prefixed_line
prefixed_line-HoldsLines h c text i l = ground (
  arith,
  All-append OneLine h.old_lines (text ∷ []) i.old_lacks (l, tt),
  All-append OneLine h.new_lines (text ∷ []) i.new_lacks (l, tt),
)

hunk_line-HoldsLines :
    (h : HunkLines) (line : Text) → HoldsLines h → OneLine line → OnOk HoldsLines (hunk_line h line)
unfolding hunk_line
hunk_line-HoldsLines h [] i l = tt
hunk_line-HoldsLines h (c ∷ text) i l =
    OnOk-if HoldsLines (starts_with (codes "*** ") (c ∷ text)) _ _ (λ _. tt)
      (λ _. prefixed_line-HoldsLines h c text i l.1)

finish_hunk-IsHunk : (h : HunkLines) → HoldsLines h → OnOk IsHunk (finish_hunk h)
unfolding finish_hunk
finish_hunk-IsHunk h i = OnOk-reject_if IsHunk (is_nil h.old_lines) _ _ (λ some_old.
    OnOk-reject_if IsHunk (not h.has_change) _ _ (λ _. record {
      anchor_name = i.anchor_name;
      old_some = λ e. cc (rw e at some_old);
      old_lacks = i.old_lacks;
      new_lacks = i.new_lacks;
    }))

marker_name-Anchors :
    (line : Text) (o : Option Text)
    → strip_prefix (codes "@@ ") line ≡ o
    → OneLine line
    → OnOk Anchors (marker_name line o)
unfolding marker_name
marker_name-Anchors line none e l = tt
marker_name-Anchors line (some []) e l = tt
marker_name-Anchors line (some (c ∷ cs)) e l = (
  ground arith,
  Lacks-suffix b'\n' (codes "@@ ") (c ∷ cs)
      (subst OneLine (strip_prefix-eq-some (codes "@@ ") line (c ∷ cs) e) l),
)

parse_marker-Anchors : (line : Text) → OneLine line → OnOk Anchors (parse_marker line)
unfolding parse_marker
parse_marker-Anchors line l =
    OnOk-if Anchors (starts_with (codes "*** ") line) _ _ (λ _. tt)
      (λ _.
        OnOk-if Anchors (text_eq line (codes "@@")) _ _ (λ _. tt)
          (λ _. marker_name-Anchors line (strip_prefix (codes "@@ ") line) refl l))

abbrev AreHunks : List PatchHunk → Type 0
AreHunks hunks = (hunks ≢ []) × All IsHunk hunks

hunk_loop-AreHunks :
    (lines : List Text) (h : HunkLines)
    → HoldsLines h
    → All OneLine lines
    → OnOk AreHunks (hunk_loop h lines)
hunk_loop-AreHunks [] h i ls =
    unfold hunk_loop in
    OnOk-bind IsHunk AreHunks (finish_hunk h) _ (finish_hunk-IsHunk h i)
      (λ hunk is. (ground arith, (is, tt)))
hunk_loop-AreHunks (line ∷ lines) h i ls = elim (Bool-cases (starts_with (codes "@@") line)) [
  | inl e ↦ rw (hunk_loop_marker h line lines e) (
      OnOk-bind IsHunk AreHunks (finish_hunk h) _ (finish_hunk-IsHunk h i) (λ hunk is.
        OnOk-bind Anchors AreHunks (parse_marker line) _ (parse_marker-Anchors line ls.0) (λ a ia.
          OnOk-bind AreHunks AreHunks (hunk_loop (fresh_hunk a) lines) _
            (hunk_loop-AreHunks lines (fresh_hunk a)
              (record { anchor_name = ia; old_lacks = tt; new_lacks = tt }) ls.1)
            (λ hunks ihs. (ground arith, (is, ihs.1))))))
  | inr e ↦ rw (hunk_loop_line h line lines e) (
      OnOk-bind HoldsLines AreHunks (hunk_line h line) _ (hunk_line-HoldsLines h line i ls.0)
        (λ h' i'. hunk_loop-AreHunks lines h' i' ls.1))
]

parse_update-AreHunks : (lines : List Text) → All OneLine lines → OnOk AreHunks (parse_update lines)
unfolding parse_update
parse_update-AreHunks [] ls = tt
parse_update-AreHunks (marker ∷ lines) ls =
    OnOk-bind Anchors AreHunks (parse_marker marker) _ (parse_marker-Anchors marker ls.0) (λ a is.
      hunk_loop-AreHunks lines (fresh_hunk a)
        (record { anchor_name = is; old_lacks = tt; new_lacks = tt }) ls.1)

-- the content of an `Add File` section
abbrev IsContent : Text → Type 0
IsContent content = (content ≡ []) ⊎ (ends_with b'\n' content ≡ true)

parse_add-IsContent : (lines : List Text) → OnOk IsContent (parse_add lines)
unfolding parse_add
parse_add-IsContent lines = OnOk-bind_eq IsContent (add_lines lines) _ (λ content_lines _.
    elim (Bool-cases (is_nil content_lines)) [
      | inl e ↦ rw e (inl refl)
      | inr e ↦ rw e (inr (ends_with-concat b'\n' (join b'\n' content_lines)))
    ])

HasOperation : FilePatch → Type 0
HasOperation p = IsOperation p.operation

parse_header-HasOperation :
    (header : Text) (body : List Text)
    → All OneLine body
    → OnOk HasOperation (parse_header header body)
unfolding parse_header HasOperation
parse_header-HasOperation header body ls =
    OnOk-if_some HasOperation (strip_prefix add_file header) _ _
      (λ path _.
        OnOk-bind IsContent HasOperation (parse_add body) _ (parse_add-IsContent body) (λ c i. i))
      (λ _.
        OnOk-if_some HasOperation (strip_prefix update_file header) _ _
          (λ path _.
            OnOk-bind AreHunks HasOperation (parse_update body) _ (parse_update-AreHunks body ls)
              (λ hunks is. is))
          (λ _.
            OnOk-if_some HasOperation (strip_prefix delete_file header) _ _
              (λ path _. delete_only path body)
              (λ _. OnOk-if HasOperation (starts_with move_to header) _ _ (λ _. tt) (λ _. tt))))
  where
    delete_only : (path : Text) (b : List Text) → OnOk HasOperation (delete_section b path)
    delete_only path [] = tt
    delete_only path (extra ∷ more) = tt

pub parse_section-IsFilePatch :
    (header : Text) (body : List Text)
    → All OneLine body
    → OnOk IsFilePatch (parse_section header body)
unfolding parse_section HasOperation
parse_section-IsFilePatch header body ls =
    OnOk-bind HasOperation IsFilePatch (parse_header header body) _
      (parse_header-HasOperation header body ls)
      (λ p op.
        OnOk-bind_eq IsFilePatch (validate_path p.path) _
          (λ u accepted. record { path_accepted = accepted; operation_is = op }))
