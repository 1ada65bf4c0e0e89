-- ===== src/Patch/Parse/FilePaths.antt =====
-- The paths that `validate_path` lets through.
use se_sshion.Base.{ℕ, Bool, true, false, some, [], ◌∷◌, ◌≡◌, ◌≢◌, refl, arith, ok, sym}
use se_sshion.Base.Lists.{All, any, get_last?}
use se_sshion.Base.Text.{Text, starts_with, ends_with, trim, is_control, text_eq, text_eq_iff}
use se_sshion.Validate.{validate_basic_path_str, validate_basic_path_str-control}
use se_sshion.Patch.Parse.{validate_path}

-- An absolute path of a file: it starts with a slash and ends in another character, has no
-- whitespace around it and no control character in it.
pub record IsFilePath (path : Text) : Type 0 where
  pub absolute : (rest : Text) × (path ≡ b'/' ∷ rest)
  pub file : (last : ℕ) × (get_last? path ≡ some last) × (last ≢ b'/')
  pub trimmed : trim path ≡ path
  pub printable : All (λ c. is_control c ≡ false) path

any-All : (p : ℕ → Bool) (s : Text) → any p s ≡ false → All (λ c. p c ≡ false) s
any-All p [] h = tt
any-All p (c ∷ s) h = ground (arith, any-All p s)

starts_with_slash :
    (s : Text) → starts_with (b'/' ∷ []) s ≡ true → (rest : Text) × (s ≡ b'/' ∷ rest)
unfolding starts_with
starts_with_slash [] h = absurd (cc h)
starts_with_slash (c ∷ s) h = (s, ground arith)

other_last :
    (sep : ℕ) (c : ℕ) (s : Text)
    → ends_with sep (c ∷ s) ≡ false
    → (last : ℕ) × (get_last? (c ∷ s) ≡ some last) × (last ≢ sep)
unfolding ends_with
other_last sep c [] h = (c, refl, ground arith)
other_last sep c (d ∷ s) h = other_last sep d s h

validate_path-checks :
    (path : Text)
    → validate_path path ≡ ok tt
    → (starts_with (b'/' ∷ []) path ≡ true)
      × (ends_with b'/' path ≡ false)
      × (validate_basic_path_str path ≡ ok tt)
unfolding validate_path
validate_path-checks path h = ground arith

validate_basic_path_str-trim :
    (path : Text) → validate_basic_path_str path ≡ ok tt → text_eq path (trim path) ≡ true
unfolding validate_basic_path_str
validate_basic_path_str-trim path h = ground arith

pub validate_path-IsFilePath : (path : Text) → validate_path path ≡ ok tt → IsFilePath path
validate_path-IsFilePath path h =
    let (slash, end, basic) = validate_path-checks path h in
    let (rest, starts) = starts_with_slash path slash in
    record {
      absolute = (rest, starts);
      file = rw starts (other_last b'/' b'/' rest (rw starts at end));
      trimmed = sym ((text_eq_iff path (trim path)).0 (validate_basic_path_str-trim path basic));
      printable = any-All is_control path (validate_basic_path_str-control path basic);
    }
