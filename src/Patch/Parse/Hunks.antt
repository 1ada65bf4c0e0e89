-- ===== src/Patch/Parse/Hunks.antt =====
-- `parse_update` and `parse_add` read back the bodies that Render writes.
use se_sshion.Base.{
  true, Option, none, some, List, [], ◌∷◌, ◌++◌, ◌≡◌, ◌≢◌, refl, ap, ◌∙◌, map, append_assoc,
  append-nil, ok, ◌>>=◌, false,
}
use se_sshion.Base.Lists.{All}
use se_sshion.Base.Text.{
  Text, codes, split, join, without_suffix, ends_with, starts_with, strip_prefix,
}
use se_sshion.Base.Text.Lines.{join-split, split-ne-nil, without_suffix-ends_with}
use se_sshion.Patch.{PatchHunk}
use se_sshion.Patch.Parse.{
  HunkLines, fresh_hunk, parse_marker, finish_hunk, hunk_loop, parse_update, add_lines, parse_add,
  hunk_line,
}
use se_sshion.Patch.Parse.Render.{marker, removed, added, hunks_before, Anchors, IsHunk}

-- inside a hunk that has a change
abbrev changed : Option Text → List Text → List Text → HunkLines
changed a olds news = record { anchor = a; old_lines = olds; new_lines = news; has_change = true }

loop_removed :
    (a : Option Text) (olds more : List Text) (rest : List Text)
    → hunk_loop (changed a olds []) (map removed more ++ rest)
      ≡ hunk_loop (changed a (olds ++ more) []) rest
unfolding hunk_loop
loop_removed a olds [] rest = rw append-nil
loop_removed a olds (l ∷ more) rest = loop_removed a (olds ++ l ∷ []) more rest ∙ rw append_assoc

loop_added :
    (a : Option Text) (olds news more : List Text) (rest : List Text)
    → hunk_loop (changed a olds news) (map added more ++ rest)
      ≡ hunk_loop (changed a olds (news ++ more)) rest
unfolding hunk_loop
loop_added a olds news [] rest = rw append-nil
loop_added a olds news (l ∷ more) rest =
    loop_added a olds (news ++ l ∷ []) more rest ∙ rw append_assoc

parse_marker-marker : (a : Option Text) → Anchors a → parse_marker (marker a) ≡ ok a
unfolding parse_marker
parse_marker-marker none h = refl
parse_marker-marker (some []) h = absurd (h.0 refl)
parse_marker-marker (some (c ∷ cs)) h = refl

loop_body :
    (a : Option Text) (olds news rest : List Text)
    → olds ≢ []
    → hunk_loop (fresh_hunk a) (map removed olds ++ (map added news ++ rest))
      ≡ hunk_loop (changed a olds news) rest
unfolding hunk_loop
loop_body a [] news rest ne = absurd (ne refl)
loop_body a (o ∷ os) news rest ne =
    loop_removed a (o ∷ []) os (map added news ++ rest) ∙ loop_added a (o ∷ os) [] news rest

finish_hunk_lem :
    (a : Option Text) (olds news : List Text)
    → olds ≢ []
    → finish_hunk (changed a olds news)
      ≡ ok (record { anchor = a; old_lines = olds; new_lines = news })
unfolding finish_hunk
finish_hunk_lem a [] news ne = absurd (ne refl)
finish_hunk_lem a (o ∷ os) news ne = refl

starts_with-marker : (a : Option Text) → starts_with (codes "@@") (marker a) ≡ true
unfolding starts_with
starts_with-marker none = refl
starts_with-marker (some a) = refl

-- at a line that opens the next hunk
pub hunk_loop_marker :
    (h : HunkLines) (line : Text) (lines : List Text)
    → starts_with (codes "@@") line ≡ true
    → hunk_loop h (line ∷ lines) ≡ (
        finish_hunk h >>= λ hunk. parse_marker line >>= λ anchor.
        hunk_loop (fresh_hunk anchor) lines >>= λ hunks. ok (hunk ∷ hunks))
unfolding hunk_loop
hunk_loop_marker h line lines e = rw (e, hunk_loop)

-- at a line of the hunk
pub hunk_loop_line :
    (h : HunkLines) (line : Text) (lines : List Text)
    → starts_with (codes "@@") line ≡ false
    → hunk_loop h (line ∷ lines) ≡ (hunk_line h line >>= λ h'. hunk_loop h' lines)
unfolding hunk_loop
hunk_loop_line h line lines e = rw (e, hunk_loop)

hunk_loop-hunks :
    (h : PatchHunk) (hs : List PatchHunk)
    → IsHunk h
    → All IsHunk hs
    → hunk_loop (changed h.anchor h.old_lines h.new_lines) (hunks_before hs []) ≡ ok (h ∷ hs)
unfolding hunks_before
hunk_loop-hunks h [] i is =
    unfold hunk_loop in
    ap (λ m. m >>= λ hunk. ok (hunk ∷ []))
      (finish_hunk_lem h.anchor h.old_lines h.new_lines i.old_some)
hunk_loop-hunks h (k ∷ ks) i is =
    hunk_loop_marker _ (marker k.anchor) _ (starts_with-marker k.anchor)
    ∙ rw (
      finish_hunk_lem h.anchor h.old_lines h.new_lines i.old_some,
      parse_marker-marker k.anchor is.0.anchor_name,
      loop_body k.anchor k.old_lines k.new_lines (hunks_before ks []) is.0.old_some,
      hunk_loop-hunks k ks is.0 is.1,
    )

pub parse_update-hunks :
    (hunks : List PatchHunk)
    → hunks ≢ []
    → All IsHunk hunks
    → parse_update (hunks_before hunks []) ≡ ok hunks
unfolding parse_update hunks_before
parse_update-hunks [] ne is = absurd (ne refl)
parse_update-hunks (h ∷ hs) ne is = rw (
  parse_marker-marker h.anchor is.0.anchor_name,
  loop_body h.anchor h.old_lines h.new_lines (hunks_before hs []) is.0.old_some,
  hunk_loop-hunks h hs is.0 is.1,
)

add_lines-added : (lines : List Text) → add_lines (map added lines) ≡ ok lines
unfolding add_lines strip_prefix
add_lines-added [] = refl
add_lines-added (l ∷ lines) = rw (add_lines-added lines)

parse_add-lines :
    (lines : List Text)
    → lines ≢ []
    → parse_add (map added lines) ≡ ok (join b'\n' lines ++ b'\n' ∷ [])
unfolding parse_add
parse_add-lines [] ne = absurd (ne refl)
parse_add-lines (l ∷ ls) ne = rw (add_lines-added (l ∷ ls))

pub parse_add-content :
    (content : Text)
    → ends_with b'\n' content ≡ true
    → parse_add (map added (split b'\n' (without_suffix b'\n' content))) ≡ ok content
parse_add-content content h =
    let body : Text = without_suffix b'\n' content in
    parse_add-lines (split b'\n' body) (split-ne-nil b'\n' body)
    ∙ rw (join-split b'\n' body, without_suffix-ends_with b'\n' content h)
