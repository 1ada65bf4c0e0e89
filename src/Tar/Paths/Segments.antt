-- ===== src/Tar/Paths/Segments.antt =====
-- src/transfer/tar.rs: what `sanitize_tar_path` accepts.
use se_sshion.Base.{
  ℕ, ◌≡◌, refl, ◌≢◌, inl, inr, Bool, true, false, ◌==◌, List, [], ◌∷◌, ◌++◌, if◌then◌else◌, ok,
  ◌>>◌, reject_if, arith, Bool-cases, subst, ok-injective,
}
use se_sshion.Base.Results.{>>=-eq-ok, reject_if-eq-ok}
use se_sshion.Base.Lists.{is_nil, All, All-append}
use se_sshion.Base.Text.{Text, codes, text_eq, text_eq_iff, split, starts_with, cons_first}
use se_sshion.Tar.Paths.{
  Component, normal, cur_dir, parent_dir, root_dir, pieces_components, components, empty_path,
  dot_path, strip_dots, push_components, sanitize_tar_path, IsSegment,
}

abbrev NoSlash : Text → Type 0
NoSlash = All (λ c. c ≢ b'/')

cons_first-NoSlash :
    (c : ℕ) (ls : List Text) → c ≢ b'/' → All NoSlash ls → All NoSlash (cons_first c ls)
cons_first-NoSlash c [] h k = ((h, tt), tt)
cons_first-NoSlash c (l ∷ ls) h k = ((h, k.0), k.1)

split-NoSlash : (t : Text) → All NoSlash (split b'/' t)
unfolding split
split-NoSlash [] = (tt, tt)
split-NoSlash (c ∷ t) = elim (Bool-cases (c == b'/')) [
  | inl e ↦ rw e (tt, split-NoSlash t)
  | inr e ↦ rw e (cons_first-NoSlash c (split b'/' t) (λ same. ground arith) (split-NoSlash t))
]

abbrev IsChecked : Component → Type 0
IsChecked (normal segment) = IsSegment segment
IsChecked other = Unit

is_nil-some : (t : Text) → is_nil t ≡ false → t ≢ []
is_nil-some t h e = cc (rw e at h)

text_eq-differs : (t other : Text) → text_eq t other ≡ false → t ≢ other
text_eq-differs t other h e = ground (arith, (text_eq_iff t other).1 e, h)

front-IsChecked :
    (front : Bool) (cs : List Component)
    → All IsChecked cs
    → All IsChecked (if front then cur_dir ∷ cs else cs)
front-IsChecked true cs h = (tt, h)
front-IsChecked false cs h = h

pieces_components-IsChecked :
    (front : Bool) (pieces : List Text)
    → All NoSlash pieces
    → All IsChecked (pieces_components front pieces)
unfolding pieces_components
pieces_components-IsChecked front [] h = tt
pieces_components-IsChecked front (piece ∷ pieces) h =
    let rest : All IsChecked (pieces_components false pieces) =
      pieces_components-IsChecked false pieces h.1 in
    elim (Bool-cases (is_nil piece)) [
      | inl a ↦ rw a rest
      | inr a ↦ elim (Bool-cases (text_eq piece (codes "."))) [
        | inl b ↦ rw (a, b) (front-IsChecked front (pieces_components false pieces) rest)
        | inr b ↦ elim (Bool-cases (text_eq piece (codes ".."))) [
          | inl c ↦ rw (a, b, c) (tt, rest)
          | inr c ↦
              rw (a, b, c)
                (
                  record {
                    some_chars = is_nil-some piece a;
                    no_slash = h.0;
                    no_dot = text_eq-differs piece (codes ".") b;
                    no_dots = text_eq-differs piece (codes "..") c;
                  },
                  rest,
                )
        ]
      ]
    ]

components-IsChecked : (path : Text) → All IsChecked (components path)
unfolding components
components-IsChecked path = elim (Bool-cases (starts_with (codes "/") path)) [
  | inl e ↦ rw e (tt, pieces_components-IsChecked false (split b'/' path) (split-NoSlash path))
  | inr e ↦ rw e (pieces_components-IsChecked true (split b'/' path) (split-NoSlash path))
]

push_components-IsSegment :
    (cs : List Component) (out final : List Text)
    → All IsChecked cs
    → All IsSegment out
    → push_components cs out ≡ ok final
    → All IsSegment final
unfolding push_components
push_components-IsSegment [] out final h k e = subst (All IsSegment) (ok-injective _ refl e) k
push_components-IsSegment (normal segment ∷ cs) out final h k e =
    push_components-IsSegment cs (out ++ segment ∷ []) final h.1
      (All-append IsSegment out (segment ∷ []) k (h.0, tt)) e
push_components-IsSegment (cur_dir ∷ cs) out final h k e =
    push_components-IsSegment cs out final h.1 k e
push_components-IsSegment (parent_dir ∷ cs) out final h k e = absurd cc
push_components-IsSegment (root_dir ∷ cs) out final h k e = absurd cc

-- a path below a directory, as the names that lead to it
pub record IsBelow (segments : List Text) : Type 0 where
  pub some_segments : segments ≢ []
  pub all_segments : All IsSegment segments

-- A path that is accepted leads to a place below the destination: it has at least one name, and
-- each of its names is not empty, holds no slash, and is neither `.` nor `..`.
pub sanitize_tar_path-IsBelow :
    (path : Text) (out : List Text) → sanitize_tar_path path ≡ ok out → IsBelow out
unfolding sanitize_tar_path
sanitize_tar_path-IsBelow path out e =
    let (_, f) = reject_if-eq-ok (is_nil (strip_dots path)) empty_path _ e in
    let (pushed, g, h) =
      >>=-eq-ok (push_components (components (strip_dots path)) [])
        (λ x. reject_if (is_nil x) dot_path >> ok x) f in
    let (some_out, same) = reject_if-eq-ok (is_nil pushed) dot_path (ok pushed) h in
    let segments : All IsSegment pushed =
      push_components-IsSegment (components (strip_dots path)) [] pushed
        (components-IsChecked (strip_dots path)) tt g in
    subst IsBelow (ok-injective _ refl same)
      (record { some_segments = λ nil. cc (rw nil at some_out); all_segments = segments })
