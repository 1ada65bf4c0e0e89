-- ===== src/Tar/Extract/Steps.antt =====
-- src/transfer/tar.rs: the steps of an extraction end, and keep to what lies below the destination.
use se_sshion.Base.{
  Option, none, some, ℕ, zero, suc, ◌+◌, ◌-◌, ◌≤◌, ◌<◌, ◌≡◌, ◌∙◌, refl, ◌≢◌, inl, inr, Bool, true,
  false, ◌==◌, ltb, List, [], ◌∷◌, if◌then◌else◌, Result, ok, err, arith, Bool-cases,
}
use se_sshion.Base.Results.{Result-cases}
use se_sshion.Base.Lists.{length, is_nil, All, length-drop}
use se_sshion.Base.Text.{Text}
use se_sshion.Base.Text.Utf8.{Bytes}
use se_sshion.Tar.Paths.{IsSegment}
use se_sshion.Tar.Paths.Segments.{IsBelow}
use se_sshion.Tar.Extract.{
  read_ready, read_failed, FsAction, create_dir_all, create_file, flush, write_all, ExtractFault,
  stream_eof, padding_eof, out_of_rounds, read_buffer, Outcome, Task, done, fail, and_then, ◌>>=◌,
  ◌>>◌, read_exact, fs_result, run, read, copy_stream_len, discard_stream_len, padding,
  skip_padding,
}
use Prim.Native.Nat.{min}

-- The action is at the destination or below it: no name that leads there is empty, `.` or `..`,
-- or holds a slash.
abbrev pub IsConfined : FsAction → Type 0
IsConfined (create_dir_all dest) = All IsSegment dest
IsConfined (create_file dest) = IsBelow dest
IsConfined (flush dest) = IsBelow dest
IsConfined (write_all dest bytes) = IsBelow dest

-- The file system comes from one state to another by actions that are confined.
pub data Touches {ℓ} {S : Type ℓ} (act : FsAction → S → Result Text (Unit {0}) × S)
    : S → S → Type ℓ where
  same : {s : S} → Touches act s s
  acts :
      {s end : S} (a : FsAction) → IsConfined a → Touches act ((act a s).1) end → Touches act s end

module _ {ℓ} {S : Type ℓ} (act : FsAction → S → Result Text (Unit {0}) × S)
    (more : ℕ → Option ℕ) where
  Touches-trans : {s t u : S} → Touches act s t → Touches act t u → Touches act s u
  Touches-trans same k = k
  Touches-trans (acts a c h) k = acts a c (Touches-trans h k)

  -- What the task did is confined, it gave no byte back, and it did not run out of rounds.
  pub record Confined {κ} {A : Type κ} (rest : Bytes) (s : S) (o : Outcome S A) : Type (ℓ ⊔ κ) where
    pub touches : Touches act s o.files
    pub shorter : length o.rest ≤ length rest
    pub ended : o.result ≢ err out_of_rounds

  abbrev pub ConfinedTask {κ} : {A : Type κ} → Task S A → Type (ℓ ⊔ κ)
  ConfinedTask task = (rest : Bytes) (s : S) → Confined rest s (task rest s)

  fs_result-ended : (r : Result Text (Unit {0})) → fs_result r ≢ err out_of_rounds
  fs_result-ended (ok u) e = cc
  fs_result-ended (err x) e = cc

  is_nil-length : (chunk : Bytes) → is_nil chunk ≡ false → 0 < length chunk
  is_nil-length [] h = absurd cc
  is_nil-length (b ∷ chunk) h = omega arith

  pub done-Confined {κ} : {A : Type κ} (a : A) → ConfinedTask (done a)
  done-Confined a rest s = record { touches = same; shorter = omega arith; ended = λ e. cc }

  pub fail-Confined {κ} :
      {A : Type κ} (e : ExtractFault) → e ≢ out_of_rounds → ConfinedTask {A = A} (fail e)
  fail-Confined e h rest s = record {
    touches = same;
    shorter = omega arith;
    ended = λ k. h (ground arith);
  }

  pub and_then-Confined {κ μ} :
      {A : Type κ} {B : Type μ} (rest : Bytes) (s : S) (o : Outcome S A) (f : A → Task S B)
      → Confined rest s o
      → ((a : A) → o.result ≡ ok a → Confined o.rest o.files (f a o.rest o.files))
      → Confined rest s (and_then o.result f o.rest o.files)
  and_then-Confined rest s o f h k = elim (Result-cases o.result) [
    | inl (a, e) ↦
        let next = k a e in
        rw e (record {
          touches = Touches-trans h.touches next.touches;
          shorter = omega (arith, h.shorter, next.shorter);
          ended = next.ended;
        })
    | inr (x, e) ↦ rw e (record {
      touches = h.touches;
      shorter = h.shorter;
      ended = λ k. h.ended (e ∙ ground arith);
    })
  ]

  pub bind-Confined {κ μ} :
      {A : Type κ} {B : Type μ} (m : Task S A) (f : A → Task S B)
      → ConfinedTask m
      → ((a : A) → ConfinedTask (f a))
      → ConfinedTask (m >>= f)
  bind-Confined m f h k rest s =
      and_then-Confined rest s (m rest s) f (h rest s)
        (λ a e. k a ((m rest s).rest) ((m rest s).files))

  pub if-Confined {κ} :
      {A : Type κ} (b : Bool) (x y : Task S A)
      → (b ≡ true → ConfinedTask x)
      → (b ≡ false → ConfinedTask y)
      → ConfinedTask (if b then x else y)
  if-Confined true x y h k = h refl
  if-Confined false x y h k = k refl

  pub read_exact-Confined :
      (n : ℕ) (fault : ExtractFault) → fault ≢ out_of_rounds → ConfinedTask (read_exact n fault)
  unfolding read_exact
  read_exact-Confined n fault h rest s = elim (Bool-cases (ltb (length rest) n)) [
    | inl e ↦ rw e (record { touches = same; shorter = omega arith; ended = λ k. h (ground arith) })
    | inr e ↦
        rw e
          (record { touches = same; shorter = omega (arith, length-drop n rest); ended = λ k. cc })
  ]

  pub read_exact-shorter :
      (n : ℕ) (fault : ExtractFault) (rest : Bytes) (s : S) (chunk : Bytes)
      → 0 < n
      → (read_exact n fault rest s).result ≡ ok chunk
      → length ((read_exact n fault rest s).rest) < length rest
  unfolding read_exact
  read_exact-shorter n fault rest s chunk h k = elim (Bool-cases (ltb (length rest) n)) [
    | inl e ↦ cc (rw e at k)
    | inr e ↦ rw e (ground (arith, h, length-drop n rest))
  ]

  pub run-Confined : (a : FsAction) → IsConfined a → ConfinedTask (run act more a)
  unfolding run
  run-Confined a h rest s = record {
    touches = acts a h same;
    shorter = omega arith;
    ended = fs_result-ended ((act a s).0);
  }

  read_ready-Confined : (ready : Option ℕ) (want : ℕ) → ConfinedTask (read_ready ready want)
  read_ready-Confined none want rest s = fail-Confined read_failed (λ k. cc) rest s
  read_ready-Confined (some ready) want rest s =
      let n : ℕ = min want (min (length rest) (suc ready)) in
      record { touches = same; shorter = omega (arith, length-drop n rest); ended = λ k. cc }

  pub read-Confined : (want : ℕ) → ConfinedTask (read act more want)
  unfolding read
  read-Confined want rest s = read_ready-Confined (more (length rest)) want rest s

  pub copy_stream_len-Confined :
      (rounds : ℕ) (dest : List Text) (remaining count : ℕ)
      → IsBelow dest
      → remaining ≤ rounds
      → ConfinedTask (copy_stream_len act more rounds dest remaining count)
  unfolding copy_stream_len
  copy_stream_len-Confined zero dest remaining count below h =
      if-Confined (remaining == 0) _ _ (λ e. done-Confined count) (λ e. absurd (ground arith))
  copy_stream_len-Confined (suc rounds) dest remaining count below h =
      if-Confined (remaining == 0) _ _ (λ e. done-Confined count)
        (λ e.
          bind-Confined (read act more (min remaining read_buffer)) _
            (read-Confined (min remaining read_buffer))
            (λ chunk.
              if-Confined (is_nil chunk) _ _ (λ nil. fail-Confined stream_eof (λ k. cc))
                (λ some_bytes.
                  bind-Confined (run act more (write_all dest chunk)) _
                    (run-Confined (write_all dest chunk) below)
                    (λ u.
                      copy_stream_len-Confined rounds dest (remaining - length chunk)
                        (count + length chunk) below
                        (omega (arith, h, is_nil-length chunk some_bytes))))))

  pub discard_stream_len-Confined :
      (rounds remaining : ℕ)
      → remaining ≤ rounds
      → ConfinedTask (discard_stream_len act more rounds remaining)
  unfolding discard_stream_len
  discard_stream_len-Confined zero remaining h =
      if-Confined (remaining == 0) _ _ (λ e. done-Confined tt) (λ e. absurd (ground arith))
  discard_stream_len-Confined (suc rounds) remaining h =
      if-Confined (remaining == 0) _ _ (λ e. done-Confined tt)
        (λ e.
          bind-Confined (read act more (min remaining read_buffer)) _
            (read-Confined (min remaining read_buffer))
            (λ chunk.
              if-Confined (is_nil chunk) _ _ (λ nil. fail-Confined stream_eof (λ k. cc))
                (λ some_bytes.
                  discard_stream_len-Confined rounds (remaining - length chunk)
                    (omega (arith, h, is_nil-length chunk some_bytes)))))

  pub skip_padding-Confined : (size : ℕ) → ConfinedTask (skip_padding size)
  unfolding skip_padding
  skip_padding-Confined size =
      if-Confined (padding size == 0) _ _ (λ e. done-Confined tt)
        (λ e.
          bind-Confined (read_exact (padding size) padding_eof) _
            (read_exact-Confined (padding size) padding_eof (λ k. cc)) (λ bytes. done-Confined tt))

  -- the content of an entry is left out, and then `task` runs
  pub discard-Confined {κ} :
      {A : Type κ} (size : ℕ) (task : Task S A)
      → ConfinedTask task
      → ConfinedTask ((discard_stream_len act more size size >> skip_padding size) >> task)
  discard-Confined size task h =
      bind-Confined (discard_stream_len act more size size >> skip_padding size) _
        (bind-Confined (discard_stream_len act more size size) _
          (discard_stream_len-Confined size size (omega arith)) (λ u. skip_padding-Confined size))
        (λ u. h)
