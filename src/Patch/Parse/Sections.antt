-- ===== src/Patch/Parse/Sections.antt =====
-- The sections of a patch text are read back one by one.
use se_sshion.Base.{
  true, false, ◌||◌, Option, none, some, List, [], ◌∷◌, ◌++◌, ◌≡◌, refl, sym, ap, ◌∙◌, inl, inr,
  map, append_assoc, append-nil, arith, ok, ◌>>=◌, reject_if, ltb, ◌<◌, ◌≤◌,
}
use se_sshion.Base.Lists.{
  All, is_nil, any, length, get_last?, length-append, All-append, get_last?_concat,
}
use se_sshion.Base.Text.{Text, text_eq}
use se_sshion.Base.Text.Pieces.{||-intro}
use se_sshion.Patch.{begin_patch, end_patch, PatchHunk, PatchOperation, FilePatch, duplicate_path}
use se_sshion.Patch.Parse.{
  Parsed, parse_header, parse_section, validate_path, starts_section, section_loop, sections_of,
  parse_lines, head?, is_line,
}
use se_sshion.Patch.Parse.Hunks.{parse_update-hunks, parse_add-content}
use se_sshion.Patch.Parse.Render.{
  marker, removed, added, hunks_before, section_header, section_body, section_lines, IsOperation,
  IsFilePatch, IsFresh, IsPatch,
}

parse_header-section :
    (path : Text) (op : PatchOperation)
    → IsOperation op
    → parse_header (section_header op ++ path) (section_body op)
      ≡ ok (record { path = path; operation = op })
unfolding section_header section_body
parse_header-section path (PatchOperation.add []) h = unfold parse_header in refl
parse_header-section path (PatchOperation.add (c ∷ cs)) h =
    unfold parse_header in
    elim h [ inl e ↦ absurd (cc e) | inr e ↦ rw (parse_add-content (c ∷ cs) e) ]
parse_header-section path (PatchOperation.update hunks) h =
    unfold parse_header in rw (parse_update-hunks hunks h.0 h.1)
parse_header-section path PatchOperation.delete h = unfold parse_header in refl

parse_section-section :
    (p : FilePatch)
    → IsFilePatch p
    → parse_section (section_header p.operation ++ p.path) (section_body p.operation) ≡ ok p
unfolding parse_section
parse_section-section p i =
    ap (λ m. m >>= λ patch. validate_path patch.path >>= λ _. ok patch)
      (parse_header-section p.path p.operation i.operation_is)
    ∙ ap (λ (m : Parsed (Unit {0})). m >>= λ _. ok p) i.path_accepted

-- no line of a body opens a section
abbrev NoHeader : Text → Type 0
NoHeader line = starts_section line ≡ false

added-NoHeader : (lines : List Text) → All NoHeader (map added lines)
added-NoHeader [] = tt
added-NoHeader (l ∷ lines) = (unfold starts_section in refl, added-NoHeader lines)

removed-NoHeader : (lines : List Text) → All NoHeader (map removed lines)
removed-NoHeader [] = tt
removed-NoHeader (l ∷ lines) = (unfold starts_section in refl, removed-NoHeader lines)

marker-NoHeader : (a : Option Text) → NoHeader (marker a)
unfolding starts_section
marker-NoHeader none = refl
marker-NoHeader (some a) = refl

hunks-NoHeader : (hunks : List PatchHunk) → All NoHeader (hunks_before hunks [])
unfolding hunks_before
hunks-NoHeader [] = tt
hunks-NoHeader (h ∷ hs) = (
  marker-NoHeader h.anchor,
  All-append NoHeader (map removed h.old_lines) _ (removed-NoHeader h.old_lines) (
      All-append NoHeader (map added h.new_lines) _ (added-NoHeader h.new_lines)
        (hunks-NoHeader hs)),
)

body-NoHeader : (op : PatchOperation) → All NoHeader (section_body op)
unfolding section_body
body-NoHeader (PatchOperation.add []) = tt
body-NoHeader (PatchOperation.add (c ∷ cs)) = added-NoHeader _
body-NoHeader (PatchOperation.update hunks) = hunks-NoHeader hunks
body-NoHeader PatchOperation.delete = tt

header-starts_section :
    (op : PatchOperation) (path : Text) → starts_section (section_header op ++ path) ≡ true
unfolding starts_section section_header
header-starts_section (PatchOperation.add content) path = refl
header-starts_section (PatchOperation.update hunks) path = refl
header-starts_section PatchOperation.delete path = refl

pub loop_line :
    (paths : List Text) (header : Text) (body : List Text) (line : Text) (rest : List Text)
    → (is_nil rest || starts_section line) ≡ false
    → section_loop paths header body (line ∷ rest)
      ≡ section_loop paths header (body ++ line ∷ []) rest
unfolding section_loop
loop_line paths header body line rest e = rw (e, section_loop)

loop_lines :
    (paths : List Text) (header : Text) (body more : List Text) (line : Text) (rest : List Text)
    → All NoHeader more
    → section_loop paths header body (more ++ (line ∷ rest))
      ≡ section_loop paths header (body ++ more) (line ∷ rest)
loop_lines paths header body [] line rest h = rw append-nil
loop_lines paths header body (l ∷ []) line rest h = loop_line paths header body l (line ∷ rest) h.0
loop_lines paths header body (l ∷ m ∷ more) line rest h =
    loop_line paths header body l (m ∷ (more ++ (line ∷ rest))) h.0
    ∙ loop_lines paths header (body ++ l ∷ []) (m ∷ more) line rest h.1
    ∙ ap (λ b. section_loop paths header b (line ∷ rest)) (append_assoc body (l ∷ []) (m ∷ more))

pub loop_section :
    (paths : List Text) (header : Text) (body : List Text) (line : Text) (rest : List Text)
    → (is_nil rest || starts_section line) ≡ true
    → section_loop paths header body (line ∷ rest) ≡ (
        parse_section header body >>= λ patch.
        reject_if (any (text_eq patch.path) paths) (duplicate_path patch.path) >>= λ _.
        section_loop (patch.path ∷ paths) line [] rest >>= λ patches. ok (patch ∷ patches))
unfolding section_loop
loop_section paths header body line rest e = rw (e, section_loop)

section_loop-sections :
    (paths : List Text) (p : FilePatch) (ps : List FilePatch)
    → All IsFilePatch (p ∷ ps)
    → IsFresh paths (p ∷ ps)
    → section_loop paths
        (section_header p.operation ++ p.path)
        []
        (section_body p.operation ++ section_lines ps)
      ≡ ok (p ∷ ps)
unfolding section_lines
section_loop-sections paths p [] is fresh =
    loop_lines paths _ [] (section_body p.operation) end_patch [] (body-NoHeader p.operation)
    ∙ loop_section paths _ _ end_patch [] refl
    ∙ rw (parse_section-section p is.0, fresh.0) (unfold section_loop in refl)
section_loop-sections paths p (q ∷ qs) is fresh =
    loop_lines paths _ [] (section_body p.operation) _ _ (body-NoHeader p.operation)
    ∙ loop_section paths _ _ _ _ (||-intro _ _ (header-starts_section q.operation q.path))
    ∙ rw (
      parse_section-section p is.0,
      fresh.0,
      section_loop-sections (p.path ∷ paths) q qs is.1 fresh.1,
    )

-- all lines but the last, which closes the patch
abbrev pub front : List FilePatch → List Text
front [] = []
front (p ∷ ps) = (section_header p.operation ++ p.path) ∷ (section_body p.operation ++ front ps)

pub section_lines-concat : (ps : List FilePatch) → section_lines ps ≡ front ps ++ end_patch ∷ []
unfolding section_lines
section_lines-concat [] = refl
section_lines-concat (p ∷ ps) =
    ap (λ l. (section_header p.operation ++ p.path) ∷ l)
      (ap (λ l. section_body p.operation ++ l) (section_lines-concat ps)
        ∙ sym (append_assoc (section_body p.operation) (front ps) (end_patch ∷ [])))

parse_lines_accepted :
    (lines : List Text)
    → is_line begin_patch (head? lines) ≡ true
    → is_line end_patch (get_last? lines) ≡ true
    → 3 ≤ length lines
    → parse_lines lines ≡ sections_of lines
unfolding parse_lines
parse_lines_accepted lines first last long =
    let enough : ltb (length lines) 3 ≡ false = ground arith in rw (first, last, enough)

length-section_lines : (ps : List FilePatch) → 0 < length (section_lines ps)
unfolding section_lines
length-section_lines [] = omega arith
length-section_lines (p ∷ ps) = omega arith

pub parse_lines-sections :
    (ps : List FilePatch) → IsPatch ps → parse_lines (begin_patch ∷ section_lines ps) ≡ ok ps
parse_lines-sections [] i = absurd (i.some_section refl)
parse_lines-sections (p ∷ ps) i =
    parse_lines_accepted (begin_patch ∷ section_lines (p ∷ ps)) (unfold head? is_line in refl)
      (ap (is_line end_patch) (
          ap (λ l. get_last? (begin_patch ∷ l)) (section_lines-concat (p ∷ ps))
          ∙ get_last?_concat (begin_patch ∷ front (p ∷ ps)) end_patch)
        ∙ unfold is_line in refl)
      (unfold section_lines in
        omega (
          arith,
          length-append (section_body p.operation) (section_lines ps),
          length-section_lines ps,
        ))
    ∙ unfold sections_of section_lines in section_loop-sections [] p ps i.sections i.fresh
