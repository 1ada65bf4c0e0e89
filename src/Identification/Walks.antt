-- ===== src/Identification/Walks.antt =====
-- The walk over the pending bytes may stop anywhere and go on later.
use se_sshion.Base.{
  ℕ, ◌+◌, ◌≤◌, ◌<◌, Bool, true, false, not, ◌&&◌, [], ◌∷◌, ◌++◌, ◌≡◌, refl, sym, ap, ◌∙◌, subst,
  arith, ◌==◌, leb, ltb, Bool-cases, inl, inr,
}
use se_sshion.Base.Lists.{length, is_nil, length-append}
use se_sshion.Identification.{
  Bytes, line_too_long, max_line_bytes, LineEnd, identified, preamble, refused, end_line, Scan,
  found, more, failed, scan,
}

-- A scan that goes on with more bytes.
abbrev pub after : Scan → Bytes → Scan
after (found p) bs = found p
after (failed e) bs = failed e
after (more n line) bs = scan n line bs

-- the decision at a newline
abbrev at_end : LineEnd → Bytes → Scan
at_end (identified p) bs = found p
at_end (preamble n) bs = scan n [] bs
at_end (refused e) bs = failed e

abbrev ends_line : ℕ → Bytes → Bool
ends_line b line = b == b'\n' && not (is_nil line)

decide :
    (l : LineEnd) (bs : Bytes)
    → ◌≡◌ {A = Scan}
        (elim l [ identified p ↦ found p | preamble n ↦ scan n [] bs | refused e ↦ failed e ])
        (at_end l bs)
decide (identified p) bs = refl
decide (preamble n) bs = refl
decide (refused e) bs = refl

scan_newline :
    (n : ℕ) (line : Bytes) (b : ℕ) (bs : Bytes)
    → ends_line b line ≡ true
    → scan n line (b ∷ bs) ≡ at_end (end_line n line) bs
unfolding scan
scan_newline n line b bs h = rw (h, scan) (decide (end_line n line) bs)

scan_other :
    (n : ℕ) (line : Bytes) (b : ℕ) (bs : Bytes)
    → ends_line b line ≡ false
    → scan n line (b ∷ bs) ≡ scan n (line ++ b ∷ []) bs
unfolding scan
scan_other n line b bs h = rw (h, scan)

end_line_long :
    (n : ℕ) (line : Bytes) → max_line_bytes ≤ length line → end_line n line ≡ refused line_too_long
unfolding end_line
end_line_long n line h =
    let over : ltb max_line_bytes (length line + 1) ≡ true = ground arith in rw over

scan_long :
    (bs : Bytes) (n : ℕ) (line : Bytes)
    → max_line_bytes ≤ length line
    → scan n line bs ≡ failed line_too_long
scan_long [] n line h = unfold scan in ground arith
scan_long (b ∷ bs) n line h = elim (Bool-cases (ends_line b line)) [
  | inl e ↦ scan_newline n line b bs e ∙ ap (λ l. at_end l bs) (end_line_long n line h)
  | inr e ↦
      scan_other n line b bs e
      ∙ scan_long bs n (line ++ b ∷ []) (omega (arith, h, length-append line (b ∷ [])))
]

at_end-append :
    (l : LineEnd) (a b : Bytes)
    → ((n : ℕ) → scan n [] (a ++ b) ≡ after (scan n [] a) b)
    → at_end l (a ++ b) ≡ after (at_end l a) b
at_end-append (identified p) a b h = refl
at_end-append (preamble n) a b h = h n
at_end-append (refused e) a b h = refl

scan_short :
    (n : ℕ) (line : Bytes) → leb max_line_bytes (length line) ≡ false → scan n line [] ≡ more n line
unfolding scan
scan_short n line h = rw h

scan_stop : (n : ℕ) (line : Bytes) (b : Bytes) → scan n line b ≡ after (scan n line []) b
scan_stop n line b = elim (Bool-cases (leb max_line_bytes (length line))) [
  | inl e ↦
      let long : max_line_bytes ≤ length line = ground arith in
      scan_long b n line long ∙ ap (λ s. after s b) (sym (scan_long [] n line long))
  | inr e ↦ sym (ap (λ s. after s b) (scan_short n line e))
]

pub scan-append :
    (a : Bytes) (n : ℕ) (line : Bytes) (b : Bytes) → scan n line (a ++ b) ≡ after (scan n line a) b
scan-append [] n line b = scan_stop n line b
scan-append (x ∷ a) n line b = elim (Bool-cases (ends_line x line)) [
  | inl e ↦
      rw (scan_newline n line x (a ++ b) e, scan_newline n line x a e)
        (at_end-append (end_line n line) a b (λ m. scan-append a m [] b))
  | inr e ↦
      rw (scan_other n line x (a ++ b) e, scan_other n line x a e)
        (scan-append a n (line ++ x ∷ []) b)
]

-- A line that is still open: a scan over it only gathers it.
abbrev pub IsOpen : Bytes → Type 0
IsOpen line = (length line < max_line_bytes) × ((n : ℕ) → scan n [] line ≡ more n line)

pub nil-IsOpen : IsOpen []
nil-IsOpen = (omega arith, λ n. unfold scan in refl)

concat-IsOpen :
    (line : Bytes) (b : ℕ)
    → IsOpen line
    → ends_line b line ≡ false
    → leb max_line_bytes (length (line ++ b ∷ [])) ≡ false
    → IsOpen (line ++ b ∷ [])
concat-IsOpen line b o inside short = (
  ground arith,
  λ n.
      scan-append line n [] (b ∷ [])
      ∙ ap (λ s. after s (b ∷ [])) (o.1 n)
      ∙ scan_other n line b [] inside
      ∙ scan_short n (line ++ b ∷ []) short,
)

at_end-IsOpen :
    (l : LineEnd) (bs : Bytes) {m : ℕ} {rest : Bytes}
    → ((n : ℕ) → scan n [] bs ≡ more m rest → IsOpen rest)
    → at_end l bs ≡ more m rest
    → IsOpen rest
at_end-IsOpen (identified p) bs ih h = absurd (cc h)
at_end-IsOpen (preamble n) bs ih h = ih n h
at_end-IsOpen (refused e) bs ih h = absurd (cc h)

pub scan-IsOpen :
    (bs : Bytes) (n : ℕ) (line : Bytes) {m : ℕ} {rest : Bytes}
    → IsOpen line
    → scan n line bs ≡ more m rest
    → IsOpen rest
scan-IsOpen [] n line {m} {rest} o h = elim (Bool-cases (leb max_line_bytes (length line))) [
  | inl e ↦ absurd (cc (scan_long [] n line (ground arith), h))
  | inr e ↦ let same : line ≡ rest = cc (scan_short n line e, h) in subst IsOpen same o
]
scan-IsOpen (b ∷ bs) n line {m} {rest} o h = elim (Bool-cases (ends_line b line)) [
  | inl e ↦
      at_end-IsOpen (end_line n line) bs (λ k. scan-IsOpen bs k [] nil-IsOpen)
        (sym (scan_newline n line b bs e) ∙ h)
  | inr e ↦
      let went_on = sym (scan_other n line b bs e) ∙ h in
      elim (Bool-cases (leb max_line_bytes (length (line ++ b ∷ [])))) [
        | inl long ↦ absurd (cc (scan_long bs n (line ++ b ∷ []) (ground arith), went_on))
        | inr short ↦ scan-IsOpen bs n (line ++ b ∷ []) (concat-IsOpen line b o e short) went_on
      ]
]
