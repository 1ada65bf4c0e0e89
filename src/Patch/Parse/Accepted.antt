-- ===== src/Patch/Parse/Accepted.antt =====
-- The patches that `parse_patch` accepts.
use se_sshion.Base.{
  true, not, ◌||◌, List, [], ◌∷◌, ◌++◌, ◌≡◌, ◌≢◌, refl, arith, ok, ltb, Bool-cases, OnOk, OnOk-bind,
  OnOk-reject_if, OnOk-use, OnOk-map, ||-eq-false, ◌≤◌, inl, inr,
}
use se_sshion.Base.Lists.{All, All-map, any, All-append, is_nil, length, get_last?}
use se_sshion.Base.Text.{Text, without_suffix, text_eq}
use se_sshion.Base.Text.Lines.{split-All-Lacks}
use se_sshion.Patch.{begin_patch, end_patch, FilePatch}
use se_sshion.Patch.Parse.{
  parse_section, section_loop, sections_of, parse_lines, parse_patch, starts_section, is_line,
  head?,
}
use se_sshion.Patch.Parse.Render.{IsFilePatch, IsFresh, IsPatch}
use se_sshion.Patch.Parse.FilePaths.{IsFilePath, validate_path-IsFilePath}
use se_sshion.Patch.Parse.RoundTrip.{OneLine}
use se_sshion.Patch.Parse.Sections.{loop_line, loop_section}
use se_sshion.Patch.Parse.Sound.{parse_section-IsFilePatch}

-- what the loop returns for the lines that are left
record AreSections (paths rest : List Text) (ps : List FilePatch) : Type 0 where
  sections : All IsFilePatch ps
  fresh : IsFresh paths ps
  some_section : rest ≢ [] → ps ≢ []

section_closed :
    (paths : List Text) (header : Text) (body : List Text) (line : Text) (rest : List Text)
    → All OneLine body
    → ((path : Text)
        → OnOk (AreSections (path ∷ paths) rest) (section_loop (path ∷ paths) line [] rest))
    → (is_nil rest || starts_section line) ≡ true
    → OnOk (AreSections paths (line ∷ rest)) (section_loop paths header body (line ∷ rest))
section_closed paths header body line rest lb later e =
    rw (loop_section paths header body line rest e) (
      OnOk-bind IsFilePatch (AreSections paths (line ∷ rest)) (parse_section header body) _
        (parse_section-IsFilePatch header body lb)
        (λ p is.
          OnOk-reject_if (AreSections paths (line ∷ rest)) (any (text_eq p.path) paths) _ _ (λ new.
            OnOk-bind (AreSections (p.path ∷ paths) rest) (AreSections paths (line ∷ rest))
              (section_loop (p.path ∷ paths) line [] rest) _ (later p.path)
              (λ ps more. record {
                sections = (is, more.sections);
                fresh = (new, more.fresh);
                some_section = λ _. ground arith;
              }))))

section_loop-AreSections :
    (rest paths : List Text) (header : Text) (body : List Text)
    → All OneLine body
    → All OneLine rest
    → OnOk (AreSections paths rest) (section_loop paths header body rest)
section_loop-AreSections [] paths header body lb lr =
    unfold section_loop in record { sections = tt; fresh = tt; some_section = λ h. absurd (h refl) }
section_loop-AreSections (line ∷ rest) paths header body lb lr =
    elim (Bool-cases (is_nil rest || starts_section line)) [
      | inl e ↦
          section_closed paths header body line rest lb
            (λ path. section_loop-AreSections rest (path ∷ paths) line [] tt lr.1) e
      | inr e ↦ rw (loop_line paths header body line rest e) (
          OnOk-map (AreSections paths rest) (AreSections paths (line ∷ rest))
            (section_loop paths header (body ++ line ∷ []) rest)
            (λ ps more. record {
              sections = more.sections;
              fresh = more.fresh;
              some_section = λ _.
                  more.some_section
                    (λ n. cc (rw n at (||-eq-false (is_nil rest) (starts_section line) e).0));
            })
            (section_loop-AreSections rest paths header (body ++ line ∷ [])
              (All-append OneLine body (line ∷ []) lb (lr.0, tt)) lr.1))
    ]

sections_of-IsPatch :
    (lines : List Text) → 3 ≤ length lines → All OneLine lines → OnOk IsPatch (sections_of lines)
unfolding sections_of
sections_of-IsPatch [] long ls = absurd (omega arith)
sections_of-IsPatch (a ∷ []) long ls = absurd (omega arith)
sections_of-IsPatch (a ∷ b ∷ []) long ls = absurd (omega arith)
sections_of-IsPatch (envelope ∷ header ∷ line ∷ rest) long ls =
    OnOk-map (AreSections [] (line ∷ rest)) IsPatch (section_loop [] header [] (line ∷ rest))
      (λ ps a. record {
        some_section = a.some_section (λ h. cc h);
        sections = a.sections;
        fresh = a.fresh;
      })
      (section_loop-AreSections (line ∷ rest) [] header [] tt ls.1.1)

parse_lines-IsPatch : (lines : List Text) → All OneLine lines → OnOk IsPatch (parse_lines lines)
unfolding parse_lines
parse_lines-IsPatch lines ls =
    OnOk-reject_if IsPatch (not (is_line begin_patch (head? lines))) _ _ (λ _.
      OnOk-reject_if IsPatch (not (is_line end_patch (get_last? lines))) _ _ (λ _.
        OnOk-reject_if IsPatch (ltb (length lines) 3) _ _
          (λ long. sections_of-IsPatch lines (ground arith) ls)))

accepted-IsFilePath : (ps : List FilePatch) → IsPatch ps → All (λ p. IsFilePath p.path) ps
accepted-IsFilePath ps is =
    All-map (λ p h. validate_path-IsFilePath p.path h.path_accepted) ps is.sections

-- What the parser returns is never empty; its paths are distinct, pass `validate_path`, start with
-- a slash, end in another character, have no whitespace around them and no control character in
-- them; every hunk has an old line, an anchor that is not empty, and no line break inside a line;
-- the content of a new file is empty or ends in a newline.
pub parse_patch-IsPatch :
    (input : Text) {ps : List FilePatch}
    → parse_patch input ≡ ok ps
    → IsPatch ps × All (λ p. IsFilePath p.path) ps
unfolding parse_patch
parse_patch-IsPatch input {ps} h =
    let is : IsPatch ps =
      OnOk-use IsPatch (parse_patch input)
        (parse_lines-IsPatch _ (split-All-Lacks b'\n' (without_suffix b'\n' input))) h in
    (is, accepted-IsFilePath ps is)
