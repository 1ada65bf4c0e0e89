-- ===== src/Tar/RoundTrip.antt =====
-- src/transfer/tar.rs: `write_header` and `TarEntryHeader::parse` together.
use se_sshion.Base.{
  ℕ, ◌%◌, ◌^◌, ◌≤◌, ◌<◌, ◌≡◌, refl, ap, sym, ◌∙◌, ◌≢◌, ◌⊎◌, inl, inr, Option, none, some, true,
  false, ◌==◌, [], ◌∷◌, ◌++◌, leb, ok, arith, subst,
}
use se_sshion.Base.Lists.{length, All}
use se_sshion.Base.Text.{Text, codes, starts_with, utf8_len}
use se_sshion.Base.Text.Utf8.{Bytes}
use se_sshion.Base.Text.Encoded.{IsNameChar}
use se_sshion.Tar.{
  rsplit_slash, split_ustar_path, put, write_octal_checksum, header_fields, sum, write_header,
  full_path, parse_header,
}
use native.Mathlib.Decide.{dec_lt}
use mathlib.Core.Logic.{dite}
use se_sshion.Tar.Checksum.{MaybeName}
use se_sshion.Tar.Header.{PrefixFits, prefix_text, parse_header-block, length-block}

-- The path fits the fields of a header, whole or as what stands in front of its last slash and
-- behind it.
pub record Halves (path : Text) : Type 0 where
  pub prefix : Text
  pub name : Text
  pub joined : path ≡ prefix ++ (b'/' ∷ name)
  pub last : All (λ c. c ≢ b'/') name
  pub prefix_fits : utf8_len prefix ≤ 155
  pub name_fits : utf8_len name ≤ 100

abbrev pub FitsHeader : Text → Type 0
FitsHeader path = (utf8_len path ≤ 100) ⊎ Halves path

rsplit_slash-none : (name : Text) → All (λ c. c ≢ b'/') name → rsplit_slash name ≡ none
unfolding rsplit_slash
rsplit_slash-none [] h = refl
rsplit_slash-none (c ∷ name) h =
    let e : (c == b'/') ≡ false = ground (arith, h.0) in rw (rsplit_slash-none name h.1, e) refl

rsplit_slash-last :
    (prefix name : Text)
    → All (λ c. c ≢ b'/') name
    → rsplit_slash (prefix ++ (b'/' ∷ name)) ≡ some (prefix, name)
unfolding rsplit_slash
rsplit_slash-last [] name h = rw (rsplit_slash-none name h) refl
rsplit_slash-last (c ∷ prefix) name h = rw (rsplit_slash-last prefix name h) refl

-- the parts that `split_ustar_path` gives
record Parts (path : Text) : Type 0 where
  name : Text
  prefix : Option Text
  split : split_ustar_path path ≡ ok (name, prefix)
  whole : starts_with (codes "/") path ≡ false → full_path true (prefix_text prefix) name ≡ path
  name_chars : All IsNameChar path → All IsNameChar name
  prefix_chars : All IsNameChar path → MaybeName prefix
  name_fits : utf8_len name ≤ 100
  prefix_fits : PrefixFits prefix

All-left : (P : ℕ → Type 0) (xs ys : Text) → All P (xs ++ ys) → All P xs
All-left P [] ys h = tt
All-left P (x ∷ xs) ys h = (h.0, All-left P xs ys h.1)

All-right : (P : ℕ → Type 0) (xs ys : Text) → All P (xs ++ ys) → All P ys
All-right P [] ys h = h
All-right P (x ∷ xs) ys h = All-right P xs ys h.1

whole-joined :
    (prefix name : Text)
    → starts_with (codes "/") (prefix ++ (b'/' ∷ name)) ≡ false
    → full_path true prefix name ≡ prefix ++ (b'/' ∷ name)
unfolding starts_with
whole-joined [] name h = absurd (ground (arith, h))
whole-joined (c ∷ prefix) name h = refl

short-split : (path : Text) → utf8_len path ≤ 100 → split_ustar_path path ≡ ok (path, none)
unfolding split_ustar_path
short-split path h = let e : leb (utf8_len path) 100 ≡ true = ground arith in rw e refl

long-split :
    (path : Text)
    → 100 < utf8_len path
    → (k : Halves path) → split_ustar_path path ≡ ok (k.name, some k.prefix)
unfolding split_ustar_path
long-split path h k =
    let long : leb (utf8_len path) 100 ≡ false = ground arith in
    let halves : rsplit_slash path ≡ some (k.prefix, k.name) =
      ap rsplit_slash k.joined ∙ rsplit_slash-last k.prefix k.name k.last in
    let fits : leb (utf8_len k.name) 100 ≡ true = ground (arith, k.name_fits) in
    let fits' : leb (utf8_len k.prefix) 155 ≡ true = ground (arith, k.prefix_fits) in
    rw (long, halves, fits, fits') refl

short-Parts : (path : Text) → utf8_len path ≤ 100 → Parts path
short-Parts path h = record {
  name = path;
  prefix = none;
  split = short-split path h;
  whole = λ k. refl;
  name_chars = λ k. k;
  prefix_chars = λ k. tt;
  name_fits = h;
  prefix_fits = tt;
}

Halves-Parts : (path : Text) → 100 < utf8_len path → Halves path → Parts path
Halves-Parts path h k = record {
  name = k.name;
  prefix = some k.prefix;
  split = long-split path h k;
  whole = λ relative.
      subst (λ t. full_path true k.prefix k.name ≡ t) (sym k.joined)
        (whole-joined k.prefix k.name
          (subst (λ t. starts_with (codes "/") t ≡ false) k.joined relative));
  name_chars =
      λ m. (All-right IsNameChar k.prefix (b'/' ∷ k.name) (subst (All IsNameChar) k.joined m)).1;
  prefix_chars =
      λ m. All-left IsNameChar k.prefix (b'/' ∷ k.name) (subst (All IsNameChar) k.joined m);
  name_fits = k.name_fits;
  prefix_fits = k.prefix_fits;
}

FitsHeader-Parts : (path : Text) → FitsHeader path → Parts path
FitsHeader-Parts path (inl h) = short-Parts path h
FitsHeader-Parts path (inr k) =
    dite (dec_lt 100 (utf8_len path)) (λ h. Halves-Parts path h k)
      (λ h. short-Parts path (omega arith))

-- A relative path without NUL that fits a header, whole or split at its last slash, is written in
-- one block, and from it are read the path and the type as they were, and the size's last eleven
-- octal digits.
pub parse_header-write_header :
    (path : Text) (size mode mtime typeflag : ℕ)
    → FitsHeader path
    → All IsNameChar path
    → starts_with (codes "/") path ≡ false
    → typeflag < 256
    → (block : Bytes) × (write_header path size mode mtime typeflag ≡ ok block)
      × (length block ≡ 512)
      × (parse_header block
          ≡ ok (record { path = path; size = size % 8 ^ 11; typeflag = typeflag }))
parse_header-write_header path size mode mtime typeflag fits chars relative flag =
    let p : Parts path = FitsHeader-Parts path fits in
    let header : Bytes = header_fields p.name p.prefix size mode mtime typeflag in
    (
      put 148 156 (write_octal_checksum (sum header)) header,
      (unfold write_header in rw p.split refl),
      length-block p.name p.prefix size mode mtime typeflag,
      parse_header-block p.name p.prefix size mode mtime typeflag (p.name_chars chars)
            (p.prefix_chars chars) flag p.name_fits p.prefix_fits
          ∙ ap (λ t. ok (record { path = t; size = size % 8 ^ 11; typeflag = typeflag }))
              (p.whole relative),
    )
