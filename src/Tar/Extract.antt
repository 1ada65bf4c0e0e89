-- ===== src/Tar/Extract.antt =====
-- src/transfer/tar.rs: `extract_tar_to_dir`, on a stream of bytes and a file system.
pub mod Steps
pub mod Confined
use se_sshion.Base.{
  ℕ, zero, suc, Option, none, some, ◌+◌, ◌-◌, ◌%◌, Bool, true, false, not, ◌&&◌, ◌||◌, ◌==◌, ltb,
  List, [], ◌∷◌, ◌++◌, if◌then◌else◌, Result, ok, err,
}
use se_sshion.Base.Lists.{length, take, drop, is_nil}
use se_sshion.Base.Text.{Text}
use se_sshion.Base.Text.Utf8.{Bytes}
use se_sshion.Tar.{tar_block, TarFault, TarEntryHeader, parse_header, all_zero}
use se_sshion.Tar.Paths.{
  EntryFault, empty_path, parent_path, absolute_path, dot_path, sanitize_tar_path,
}
use Prim.Native.Nat.{min}

-- what the file system is asked to do below the destination; a path is its segments
pub data FsAction : Type 0 where
  create_dir_all create_file flush : List Text → FsAction
  write_all : List Text → Bytes → FsAction

pub data ExtractFault : Type 0 where
  header_eof trailer_eof stream_eof read_failed padding_eof sized_directory unsupported_type :
      ExtractFault
  bad_header : TarFault → ExtractFault
  bad_path : EntryFault → ExtractFault
  fs_error : Text → ExtractFault
  -- the model's own: a loop was given too few rounds
  out_of_rounds : ExtractFault

pub record ExtractCounts : Type 0 where
  pub bytes : ℕ
  pub files : ℕ
  pub directories : ℕ

abbrev pub read_buffer : ℕ
read_buffer = 32768

abbrev pub padding : ℕ → ℕ
padding size = (tar_block - size % tar_block) % tar_block

abbrev pub without_last : List Text → List Text
without_last [] = []
without_last (segment ∷ []) = []
without_last (segment ∷ segments) = segment ∷ without_last segments

abbrev pub no_counts : ExtractCounts
no_counts = record { bytes = 0; files = 0; directories = 0 }

-- The result, the bytes left in the stream and the file system.
pub record Outcome {ℓ κ} (S : Type ℓ) (A : Type κ) : Type (ℓ ⊔ κ) where
  pub result : Result ExtractFault A
  pub rest : Bytes
  pub files : S

abbrev pub Task {ℓ κ} : Type ℓ → Type κ → Type (ℓ ⊔ κ)
Task S A = Bytes → S → Outcome S A

-- the file system's error, or its next state
abbrev fs_result : Result Text (Unit {0}) → Result ExtractFault (Unit {0})
fs_result (ok u) = ok u
fs_result (err e) = err (fs_error e)

module _ {ℓ} {S : Type ℓ} where
  abbrev pub done {κ} : {A : Type κ} → A → Task S A
  done a rest s = record { result = ok a; rest = rest; files = s }

  abbrev pub fail {κ} : {A : Type κ} → ExtractFault → Task S A
  fail e rest s = record { result = err e; rest = rest; files = s }

  abbrev pub and_then {κ μ} :
      {A : Type κ} {B : Type μ} → Result ExtractFault A → (A → Task S B) → Task S B
  and_then (ok a) f = f a
  and_then (err e) f = fail e

  infixl 5 ◌>>=◌ ◌>>◌
  abbrev pub ◌>>=◌ {κ μ} : {A : Type κ} {B : Type μ} → Task S A → (A → Task S B) → Task S B
  (m >>= f) rest s = and_then ((m rest s).result) f ((m rest s).rest) ((m rest s).files)

  abbrev pub ◌>>◌ {κ μ} : {A : Type κ} {B : Type μ} → Task S A → Task S B → Task S B
  m >> k = m >>= λ _. k

  -- The callers give every failure the same error, that of a stream which ends too early.
  unfoldable pub read_exact : ℕ → ExtractFault → Task S Bytes
  read_exact n fault rest s =
      if ltb (length rest) n then fail fault [] s else done (take n rest) (drop n rest) s

  unfoldable pub skip_padding : ℕ → Task S (Unit {0})
  unfolding read_exact
  skip_padding size =
      if padding size == 0 then done tt else read_exact (padding size) padding_eof >> done tt

-- a read that fails, or that has so many bytes, less one, ready
abbrev pub read_ready {ℓ} : {S : Type ℓ} → Option ℕ → ℕ → Task S Bytes
read_ready none want rest s = fail read_failed rest s
read_ready (some ready) want rest s =
    let n = min want (min (length rest) (suc ready)) in done (take n rest) (drop n rest) s

-- The file system carries out an action or refuses it, with what is then done of it; `more` is the
-- count of bytes, less one, that a read has ready where so many are left, or the read's own failure.
module _ {ℓ} {S : Type ℓ} (act : FsAction → S → Result Text (Unit {0}) × S)
    (more : ℕ → Option ℕ) where
  unfoldable pub run : FsAction → Task S (Unit {0})
  run a rest s = record { result = fs_result (act a s).0; rest = rest; files = (act a s).1 }

  -- at the end of the stream, no bytes
  unfoldable pub read : ℕ → Task S Bytes
  read want rest s = read_ready (more (length rest)) want rest s

  unfoldable pub copy_stream_len : ℕ → List Text → ℕ → ℕ → Task S ℕ
  unfolding read run
  copy_stream_len zero dest remaining count =
      if remaining == 0 then done count else fail out_of_rounds
  copy_stream_len (suc rounds) dest remaining count =
      let step : Bytes → Task S ℕ = λ chunk.
        run (write_all dest chunk)
        >> copy_stream_len rounds dest (remaining - length chunk) (count + length chunk) in
      if remaining == 0 then done count else do
        chunk ← read (min remaining read_buffer)
        (if is_nil chunk then fail stream_eof else step chunk)

  unfoldable pub discard_stream_len : ℕ → ℕ → Task S (Unit {0})
  unfolding read
  discard_stream_len zero remaining = if remaining == 0 then done tt else fail out_of_rounds
  discard_stream_len (suc rounds) remaining =
      let step : Bytes → Task S (Unit {0}) =
        λ chunk. discard_stream_len rounds (remaining - length chunk) in
      if remaining == 0 then done tt else do
        chunk ← read (min remaining read_buffer)
        (if is_nil chunk then fail stream_eof else step chunk)

  -- the content of an entry that is left out
  abbrev pub discard_entry : ℕ → Task S (Unit {0})
  discard_entry size = discard_stream_len size size >> skip_padding size

  unfoldable pub extract_directory : List Text → ℕ → ExtractCounts → Task S ExtractCounts
  unfolding discard_stream_len skip_padding run
  extract_directory dest size counts =
      if not (size == 0) then discard_entry size >> fail sized_directory else do
        _ ← run (create_dir_all dest)
        _ ← skip_padding size
        done (record counts { directories = counts.directories + 1 })

  unfoldable pub extract_file : List Text → ℕ → ExtractCounts → Task S ExtractCounts
  unfolding copy_stream_len skip_padding run
  extract_file dest size counts = do
    _ ← run (create_dir_all (without_last dest))
    _ ← run (create_file dest)
    bytes ← copy_stream_len size dest size counts.bytes
    _ ← run (flush dest)
    _ ← skip_padding size
    done (record counts { bytes = bytes; files = counts.files + 1 })

  -- `match entry.typeflag`
  unfoldable pub extract_entry : ℕ → List Text → ℕ → ExtractCounts → Task S ExtractCounts
  unfolding extract_directory extract_file discard_stream_len skip_padding
  extract_entry typeflag dest size counts =
      if typeflag == b'5'
      then extract_directory dest size counts
      else if typeflag == b'0' || typeflag == 0
      then extract_file dest size counts
      else if typeflag == b'x' || typeflag == b'g'
      then discard_entry size >> done counts
      else discard_entry size >> fail unsupported_type

  abbrev pub extract_path :
      Result EntryFault (List Text) → ℕ → ℕ → ExtractCounts → Task S ExtractCounts
  extract_path (ok dest) typeflag size counts = extract_entry typeflag dest size counts
  extract_path (err empty_path) typeflag size counts = discard_entry size >> done counts
  extract_path (err parent_path) typeflag size counts = fail (bad_path parent_path)
  extract_path (err absolute_path) typeflag size counts = fail (bad_path absolute_path)
  extract_path (err dot_path) typeflag size counts = fail (bad_path dot_path)

  -- one entry, from its header on
  unfoldable pub extract_header :
      Result TarFault TarEntryHeader → ExtractCounts → Task S ExtractCounts
  unfolding extract_entry sanitize_tar_path
  extract_header (ok entry) counts =
      extract_path (sanitize_tar_path entry.path) entry.typeflag entry.size counts
  extract_header (err e) counts = fail (bad_header e)

  unfoldable pub extract_loop : ℕ → ExtractCounts → Task S ExtractCounts
  unfolding extract_header parse_header all_zero read_exact
  extract_loop zero counts = fail out_of_rounds
  extract_loop (suc rounds) counts = do
    header ← read_exact tar_block header_eof
    (if all_zero header
        then read_exact tar_block trailer_eof >> done counts
        else extract_header (parse_header header) counts >>= extract_loop rounds)

  -- each round reads a header
  unfoldable pub extract_tar_to_dir : Task S ExtractCounts
  unfolding extract_loop
  extract_tar_to_dir rest s = extract_loop (suc (length rest)) no_counts rest s
