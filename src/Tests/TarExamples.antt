-- ===== src/Tests/TarExamples.antt =====
-- Tar streams at concrete archives.
use se_sshion.Base.{
  ℕ, ◌%◌, ◌^◌, ◌≡◌, refl, inl, List, [], ◌∷◌, ◌++◌, Result, ok, err, arith, ◌+◌, Option, some, none,
}
use se_sshion.Base.Lists.{length, All}
use se_sshion.Base.Text.{Text, codes, starts_with, utf8_len, utf8_width}
use se_sshion.Base.Text.Utf8.{Bytes}
use se_sshion.Base.Text.Encoded.{IsNameChar}
use se_sshion.Tar.{replicate, TarFault, write_header, parse_header}
use se_sshion.Tar.RoundTrip.{parse_header-write_header}
use se_sshion.Tar.Paths.{sanitize_tar_path, parent_path, absolute_path, empty_path, dot_path}
use se_sshion.Tar.Paths.Segments.{IsBelow, sanitize_tar_path-IsBelow}
use se_sshion.Tar.Extract.{
  FsAction, create_dir_all, create_file, flush, write_all, extract_tar_to_dir, read_failed,
}
use se_sshion.Tar.Extract.Steps.{Confined}
use se_sshion.Tar.Extract.Confined.{extract_tar_to_dir-Confined}

abbrev block_of : Result TarFault Bytes → Bytes
block_of (ok block) = block
block_of (err fault) = []

abbrev short_path : Text
short_path = codes "d/x"

abbrev short_chars : All IsNameChar short_path
short_chars = (
  (inl (omega arith), omega arith),
  ((inl (omega arith), omega arith), ((inl (omega arith), omega arith), tt)),
)

parse_header-write_header_example :
    (block : Bytes) × (write_header short_path (8 ^ 11 + 2) 420 1700000000 b'0' ≡ ok block)
    × (length block ≡ 512)
    × (parse_header block
        ≡ ok (record { path = short_path; size = (8 ^ 11 + 2) % 8 ^ 11; typeflag = b'0' }))
parse_header-write_header_example =
    parse_header-write_header short_path (8 ^ 11 + 2) 420 1700000000 b'0'
      (inl (unfold utf8_len utf8_width in omega arith)) short_chars (unfold starts_with in refl)
      (omega arith)

-- a directory, and in it a file of two bytes
abbrev archive : Bytes
archive =
    block_of (write_header (codes "d/") 0 493 0 b'5')
    ++ (block_of (write_header (codes "d/x") 2 420 0 b'0')
        ++ (codes "hi" ++ (replicate 510 0 ++ replicate 1024 0)))

abbrev Log : Type 0
Log = List FsAction

-- a file system that carries everything out, and keeps a record
abbrev carried_out : FsAction → Log → Result Text (Unit {0}) × Log
carried_out a log = (ok tt, log ++ a ∷ [])

abbrev whole_reads : ℕ → Option ℕ
whole_reads left = some left

extracted : extract_tar_to_dir carried_out whole_reads archive [] ≡ record {
  result = ok (record { bytes = 2; files = 1; directories = 1 });
  rest = [];
  files =
      create_dir_all (codes "d" ∷ [])
      ∷ create_dir_all (codes "d" ∷ [])
      ∷ create_file (codes "d" ∷ codes "x" ∷ [])
      ∷ write_all (codes "d" ∷ codes "x" ∷ []) (codes "hi")
      ∷ flush (codes "d" ∷ codes "x" ∷ [])
      ∷ [];
}
unfolding extract_tar_to_dir write_header
extracted = refl

-- a stream whose first read of content fails
failed_read : (extract_tar_to_dir carried_out (λ left. none) archive []).result ≡ err read_failed
unfolding extract_tar_to_dir write_header
failed_read = refl

extract_tar_to_dir-Confined_example :
    Confined carried_out whole_reads archive []
      (extract_tar_to_dir carried_out whole_reads archive [])
extract_tar_to_dir-Confined_example = extract_tar_to_dir-Confined carried_out whole_reads archive []

accepted : sanitize_tar_path (codes "././d//./ x/") ≡ ok (codes "d" ∷ codes " x" ∷ [])
unfolding sanitize_tar_path
accepted = refl

refused :
    (sanitize_tar_path (codes "a/../../x") ≡ err parent_path)
    × (sanitize_tar_path (codes "/etc") ≡ err absolute_path)
    × (sanitize_tar_path (codes "././") ≡ err empty_path)
    × (sanitize_tar_path (codes ".") ≡ err dot_path)
unfolding sanitize_tar_path
refused = (refl, refl, refl, refl)

sanitize_tar_path-IsBelow_example : IsBelow (codes "d" ∷ codes " x" ∷ [])
sanitize_tar_path-IsBelow_example =
    sanitize_tar_path-IsBelow (codes "././d//./ x/") (codes "d" ∷ codes " x" ∷ []) accepted
