-- ===== src/Tar/Paths.antt =====
-- src/transfer/tar.rs: `sanitize_tar_path`, which decides where an entry is written.
pub mod Segments
use se_sshion.Base.{
  ◌≢◌, Bool, true, false, ◌&&◌, ◌==◌, List, [], ◌∷◌, ◌++◌, if◌then◌else◌, Result, ok, err, ◌>>=◌,
  ◌>>◌, reject_if,
}
use se_sshion.Base.Lists.{is_nil, All}
use se_sshion.Base.Text.{Text, codes, text_eq, split, starts_with}

-- `std::path::Component`, as it is on Unix
pub data Component : Type 0 where
  normal : Text → Component
  cur_dir parent_dir root_dir : Component

-- The components of the pieces between slashes. An empty piece is none, and `.` is one only at the
-- very front.
unfoldable pub pieces_components : Bool → List Text → List Component
unfolding text_eq
pieces_components front [] = []
pieces_components front (piece ∷ pieces) =
    let rest = pieces_components false pieces in
    if is_nil piece
    then rest
    else if text_eq piece (codes ".")
    then (if front then cur_dir ∷ rest else rest)
    else if text_eq piece (codes "..")
    then parent_dir ∷ rest
    else normal piece ∷ rest

-- `Path::components`
unfoldable pub components : Text → List Component
unfolding pieces_components split starts_with
components path =
    if starts_with (codes "/") path
    then root_dir ∷ pieces_components false (split b'/' path)
    else pieces_components true (split b'/' path)

pub data EntryFault : Type 0 where
  empty_path parent_path absolute_path dot_path : EntryFault

-- `while let Some(rest) = p.strip_prefix("./")`
unfoldable pub strip_dots : Text → Text
strip_dots [] = []
strip_dots (c ∷ []) = c ∷ []
strip_dots (c ∷ d ∷ path) =
    let rest = strip_dots path in if (c == b'.') && (d == b'/') then rest else c ∷ d ∷ path

-- the loop over the components, with the path so far as its segments
unfoldable pub push_components : List Component → List Text → Result EntryFault (List Text)
push_components [] out = ok out
push_components (normal segment ∷ cs) out = push_components cs (out ++ segment ∷ [])
push_components (cur_dir ∷ cs) out = push_components cs out
push_components (parent_dir ∷ cs) out = err parent_path
push_components (root_dir ∷ cs) out = err absolute_path

unfoldable pub sanitize_tar_path : Text → Result EntryFault (List Text)
unfolding strip_dots components push_components
sanitize_tar_path path = do
  let p = strip_dots path
  reject_if (is_nil p) empty_path
  out ← push_components (components p) []
  reject_if (is_nil out) dot_path
  ok out

-- the text is one name of a directory: not empty, no slash, and neither `.` nor `..`
pub record IsSegment (segment : Text) : Type 0 where
  pub some_chars : segment ≢ []
  pub no_slash : All (λ c. c ≢ b'/') segment
  pub no_dot : segment ≢ codes "."
  pub no_dots : segment ≢ codes ".."
