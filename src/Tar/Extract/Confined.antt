-- ===== src/Tar/Extract/Confined.antt =====
-- src/transfer/tar.rs: extraction ends, and touches only what lies below the destination.
use se_sshion.Base.{
  Option, ℕ, zero, suc, ◌≤◌, ◌<◌, ◌≡◌, refl, inl, inr, not, ◌||◌, ◌==◌, List, [], ◌∷◌,
  if◌then◌else◌, Result, ok, err, arith, Bool-cases,
}
use se_sshion.Base.Lists.{length, All}
use se_sshion.Base.Text.{Text}
use se_sshion.Base.Text.Utf8.{Bytes}
use se_sshion.Tar.{tar_block, TarFault, TarEntryHeader, parse_header, all_zero}
use se_sshion.Tar.Paths.{
  EntryFault, empty_path, parent_path, absolute_path, dot_path, sanitize_tar_path, IsSegment,
}
use se_sshion.Tar.Paths.Segments.{IsBelow, sanitize_tar_path-IsBelow}
use se_sshion.Tar.Extract.{
  FsAction, create_dir_all, create_file, flush, header_eof, trailer_eof, sized_directory,
  unsupported_type, bad_header, bad_path, ExtractCounts, Task, done, fail, ◌>>=◌, ◌>>◌, read_exact,
  run, copy_stream_len, skip_padding, extract_directory, extract_file, extract_entry,
  extract_header, extract_loop, no_counts, extract_tar_to_dir, extract_path, without_last,
}
use se_sshion.Tar.Extract.Steps.{
  Confined, ConfinedTask, done-Confined, fail-Confined, and_then-Confined, bind-Confined,
  if-Confined, read_exact-Confined, read_exact-shorter, run-Confined, copy_stream_len-Confined,
  skip_padding-Confined, discard-Confined,
}

module _ {ℓ} {S : Type ℓ} (act : FsAction → S → Result Text (Unit {0}) × S)
    (more : ℕ → Option ℕ) where
  extract_directory-Confined :
      (dest : List Text) (size : ℕ) (counts : ExtractCounts)
      → IsBelow dest
      → ConfinedTask act more (extract_directory act more dest size counts)
  unfolding extract_directory
  extract_directory-Confined dest size counts below =
      if-Confined act more (not (size == 0)) _ _
        (λ e.
          discard-Confined act more size (fail sized_directory)
            (fail-Confined act more sized_directory (λ k. cc)))
        (λ e.
          bind-Confined act more (run act more (create_dir_all dest)) _
            (run-Confined act more (create_dir_all dest) below.all_segments)
            (λ u.
              bind-Confined act more (skip_padding size) _ (skip_padding-Confined act more size)
                (λ v. done-Confined act more _)))

  without_last-All : (dest : List Text) → All IsSegment dest → All IsSegment (without_last dest)
  without_last-All [] h = tt
  without_last-All (segment ∷ []) h = tt
  without_last-All (segment ∷ other ∷ segments) h = (h.0, without_last-All (other ∷ segments) h.1)

  extract_file-Confined :
      (dest : List Text) (size : ℕ) (counts : ExtractCounts)
      → IsBelow dest
      → ConfinedTask act more (extract_file act more dest size counts)
  unfolding extract_file
  extract_file-Confined dest size counts below =
      bind-Confined act more (run act more (create_dir_all (without_last dest))) _
        (run-Confined act more (create_dir_all (without_last dest))
          (without_last-All dest below.all_segments))
        (λ u.
          bind-Confined act more (run act more (create_file dest)) _
            (run-Confined act more (create_file dest) below)
            (λ v.
              bind-Confined act more (copy_stream_len act more size dest size counts.bytes) _
                (copy_stream_len-Confined act more size dest size counts.bytes below (omega arith))
                (λ bytes.
                  bind-Confined act more (run act more (flush dest)) _
                    (run-Confined act more (flush dest) below)
                    (λ w.
                      bind-Confined act more (skip_padding size) _
                        (skip_padding-Confined act more size) (λ x. done-Confined act more _)))))

  extract_entry-Confined :
      (typeflag : ℕ) (dest : List Text) (size : ℕ) (counts : ExtractCounts)
      → IsBelow dest
      → ConfinedTask act more (extract_entry act more typeflag dest size counts)
  unfolding extract_entry
  extract_entry-Confined typeflag dest size counts below =
      if-Confined act more (typeflag == b'5') _ _
        (λ e. extract_directory-Confined dest size counts below)
        (λ e.
          if-Confined act more (typeflag == b'0' || typeflag == 0) _ _
            (λ f. extract_file-Confined dest size counts below)
            (λ f.
              if-Confined act more (typeflag == b'x' || typeflag == b'g') _ _
                (λ g. discard-Confined act more size (done counts) (done-Confined act more counts))
                (λ g.
                  discard-Confined act more size (fail unsupported_type)
                    (fail-Confined act more unsupported_type (λ k. cc)))))

  extract_path-Confined :
      (path : Result EntryFault (List Text)) (typeflag size : ℕ) (counts : ExtractCounts)
      → ((dest : List Text) → path ≡ ok dest → IsBelow dest)
      → ConfinedTask act more (extract_path act more path typeflag size counts)
  extract_path-Confined (ok dest) typeflag size counts below =
      extract_entry-Confined typeflag dest size counts (below dest refl)
  extract_path-Confined (err empty_path) typeflag size counts below =
      discard-Confined act more size (done counts) (done-Confined act more counts)
  extract_path-Confined (err parent_path) typeflag size counts below =
      fail-Confined act more (bad_path parent_path) (λ k. cc)
  extract_path-Confined (err absolute_path) typeflag size counts below =
      fail-Confined act more (bad_path absolute_path) (λ k. cc)
  extract_path-Confined (err dot_path) typeflag size counts below =
      fail-Confined act more (bad_path dot_path) (λ k. cc)

  extract_header-Confined :
      (header : Result TarFault TarEntryHeader) (counts : ExtractCounts)
      → ConfinedTask act more (extract_header act more header counts)
  unfolding extract_header
  extract_header-Confined (ok entry) counts =
      extract_path-Confined (sanitize_tar_path entry.path) entry.typeflag entry.size counts
        (sanitize_tar_path-IsBelow entry.path)
  extract_header-Confined (err e) counts = fail-Confined act more (bad_header e) (λ k. cc)

  -- a round behind its header, where the rounds that follow are confined
  round-Confined :
      (header : Bytes) (counts : ExtractCounts) (loop : ExtractCounts → Task S ExtractCounts)
      (rest : Bytes) (s : S)
      → ((later : Bytes) (after : S) (counted : ExtractCounts)
          → length later ≤ length rest
          → Confined act more later after (loop counted later after))
      → Confined act more rest s (
          (if all_zero header
              then read_exact tar_block trailer_eof >> done counts
              else extract_header act more (parse_header header) counts >>= loop)
            rest s)
  round-Confined header counts loop rest s h = elim (Bool-cases (all_zero header)) [
    | inl e ↦ rw e (
        bind-Confined act more (read_exact tar_block trailer_eof) _
          (read_exact-Confined act more tar_block trailer_eof (λ k. cc))
          (λ chunk. done-Confined act more counts) rest s)
    | inr e ↦
        let o = extract_header act more (parse_header header) counts rest s in
        let first = extract_header-Confined (parse_header header) counts rest s in
        rw e (
          and_then-Confined act more rest s o loop first
            (λ counted k. h o.rest o.files counted first.shorter))
  ]

  extract_loop-Confined :
      (rounds : ℕ) (counts : ExtractCounts) (rest : Bytes) (s : S)
      → length rest < rounds
      → Confined act more rest s (extract_loop act more rounds counts rest s)
  unfolding extract_loop
  extract_loop-Confined zero counts rest s h = absurd (omega arith)
  extract_loop-Confined (suc rounds) counts rest s h =
      and_then-Confined act more rest s (read_exact tar_block header_eof rest s) _
        (read_exact-Confined act more tar_block header_eof (λ k. cc) rest s)
        (λ header e.
          let o = read_exact tar_block header_eof rest s in
          let smaller : length o.rest < length rest =
            read_exact-shorter act more tar_block header_eof rest s header (omega arith) e in
          round-Confined header counts (extract_loop act more rounds) o.rest o.files
            (λ later after counted k.
              extract_loop-Confined rounds counted later after (omega (arith, h, smaller, k))))

  -- Whatever the stream holds, in whatever pieces it is read, whichever reads fail and whichever
  -- actions the file system refuses, extraction ends with its result or an error of the code, and every path that it had the
  -- file system act on is that of the destination or of a place below it.
  pub extract_tar_to_dir-Confined :
      (rest : Bytes) (s : S) → Confined act more rest s (extract_tar_to_dir act more rest s)
  unfolding extract_tar_to_dir
  extract_tar_to_dir-Confined rest s =
      extract_loop-Confined (suc (length rest)) no_counts rest s (omega arith)
