-- ===== src/Identification/Fragments.antt =====
-- The exchange does not depend on how the reads cut the peer's bytes.
use se_sshion.Base.{
  ℕ, zero, suc, ◌-◌, ◌<◌, false, Option, some, [], ◌∷◌, ◌++◌, ◌≡◌, refl, sym, ap, ◌∙◌, subst, arith,
  append_assoc, append-nil, Result, ok, err, OnOk,
}
use se_sshion.Base.Lists.{length, take, drop, is_nil, take-append-drop, length-append}
use Prim.Native.Nat.{min}
use se_sshion.Identification.{
  Bytes, RemotePlatform, IdentificationError, unexpected_eof, read_bytes, Scan, found, more, failed,
  scan, Identified, identify_loop, identify,
}
use se_sshion.Identification.Walks.{after, scan-append, IsOpen, nil-IsOpen, scan-IsOpen}

-- what a scan of all that the peer sends decides
abbrev pub verdict : Scan → Result IdentificationError RemotePlatform
verdict (found p) = ok p
verdict (more n line) = err unexpected_eof
verdict (failed e) = err e

abbrev pub platform_of :
    Result IdentificationError Identified → Result IdentificationError RemotePlatform
platform_of (ok i) = ok i.platform
platform_of (err e) = err e

-- The loop ends, with this verdict, and has lost none of the bytes.
pub record Decides (outcome : Option (Result IdentificationError Identified))
    (expected : Result IdentificationError RemotePlatform) (sent : Bytes) : Type 0 where
  pub result : Result IdentificationError Identified
  pub returns : outcome ≡ some result
  pub platform_is : platform_of result ≡ expected
  pub replays : OnOk (λ (i : Identified). i.replay ++ i.unread ≡ sent) result

take_some : (count b : ℕ) (bs : Bytes) → 0 < count → is_nil (take count (b ∷ bs)) ≡ false
take_some zero b bs h = absurd (omega arith)
take_some (suc count) b bs h = refl

take_none : (count : ℕ) → take {A = ℕ} count [] ≡ []
take_none zero = refl
take_none (suc count) = refl

loop_eof :
    (rounds : ℕ) (size : ℕ → ℕ) (replay : Bytes) (n : ℕ) (pending : Bytes)
    → identify_loop (suc rounds) size replay n pending [] ≡ some (err unexpected_eof)
unfolding identify_loop
loop_eof rounds size replay n pending =
    let nothing = ap is_nil (take_none (min (read_bytes - length pending) (suc (size rounds)))) in
    rw (nothing, identify_loop)

-- what one round makes of its scan
abbrev went : ℕ → (ℕ → ℕ) → Bytes → Bytes → Scan → Option (Result IdentificationError Identified)
went rounds size replayed unread (found p) =
    some (ok (record { platform = p; replay = replayed; unread = unread }))
went rounds size replayed unread (failed e) = some (err e)
went rounds size replayed unread (more n line) = identify_loop rounds size replayed n line unread

is_nil-pos : (bs : Bytes) → is_nil bs ≡ false → 0 < length bs
is_nil-pos [] h = absurd (cc h)
is_nil-pos (b ∷ bs) h = omega arith

loop_round :
    (rounds : ℕ) (size : ℕ → ℕ) (replay : Bytes) (n : ℕ) (pending input : Bytes)
    → is_nil (take (min (read_bytes - length pending) (suc (size rounds))) input) ≡ false
    → (chunk : Bytes) × (unread : Bytes) × (input ≡ chunk ++ unread)
      × (length unread < length input)
      × (identify_loop (suc rounds) size replay n pending input
          ≡ went rounds size (replay ++ chunk) unread (scan n [] (pending ++ chunk)))
unfolding identify_loop
loop_round rounds size replay n pending input some_read =
    let count : ℕ = min (read_bytes - length pending) (suc (size rounds)) in
    let split_at = take-append-drop count input in
    (
      take count input,
      drop count input,
      sym split_at,
      omega (
        arith,
        is_nil-pos (take count input) some_read,
        ap length split_at,
        length-append (take count input) (drop count input),
      ),
      rw (some_read, identify_loop)
          (decide (replay ++ take count input) (drop count input)
            (scan n [] (pending ++ take count input))),
    )
  where
    decide :
        (replayed unread : Bytes) (s : Scan)
        → ◌≡◌ {A = Option (Result IdentificationError Identified)}
            (elim s [
              | found p ↦ some (ok (record { platform = p; replay = replayed; unread = unread }))
              | failed e ↦ some (err e)
              | more m line ↦ identify_loop rounds size replayed m line unread
            ])
            (went rounds size replayed unread s)
    decide replayed unread (found p) = refl
    decide replayed unread (failed e) = refl
    decide replayed unread (more m line) = refl

went-Decides :
    (rounds : ℕ) (size : ℕ → ℕ) (replay unread : Bytes) (s : Scan)
    → ((n : ℕ) (line : Bytes) → s ≡ more n line → IsOpen line)
    → ((n : ℕ) (line : Bytes)
        → IsOpen line
        → Decides
            (identify_loop rounds size replay n line unread)
            (verdict (scan n [] (line ++ unread)))
            (replay ++ unread))
    → Decides (went rounds size replay unread s) (verdict (after s unread)) (replay ++ unread)
went-Decides rounds size replay unread (found p) open_line ih = record {
  result = ok (record { platform = p; replay = replay; unread = unread });
  returns = refl;
  platform_is = refl;
  replays = refl;
}
went-Decides rounds size replay unread (failed e) open_line ih = record {
  result = err e;
  returns = refl;
  platform_is = refl;
  replays = tt;
}
went-Decides rounds size replay unread (more n line) open_line ih =
    let o = open_line n line refl in
    subst
      (λ s. Decides (identify_loop rounds size replay n line unread) (verdict s) (replay ++ unread))
      (scan-append line n [] unread ∙ ap (λ s. after s unread) (o.1 n)) (ih n line o)

-- from any state between two reads
loop-Decides :
    (rounds : ℕ) (size : ℕ → ℕ) (replay : Bytes) (n : ℕ) (pending input : Bytes)
    → length input < rounds
    → IsOpen pending
    → Decides
        (identify_loop rounds size replay n pending input)
        (verdict (scan n [] (pending ++ input)))
        (replay ++ input)
loop-Decides zero size replay n pending input enough o = absurd (omega arith)
loop-Decides (suc rounds) size replay n pending [] enough o = record {
  result = err unexpected_eof;
  returns = loop_eof rounds size replay n pending;
  platform_is = rw (append-nil pending, o.1 n);
  replays = tt;
}
loop-Decides (suc rounds) size replay n pending (b ∷ bs) enough o =
    let count : ℕ = min (read_bytes - length pending) (suc (size rounds)) in
    let room : 0 < count = omega (arith, o.0) in
    let (chunk, unread, splits, shorter, round) =
      loop_round rounds size replay n pending (b ∷ bs) (take_some count b bs room) in
    let decided =
      went-Decides rounds size (replay ++ chunk) unread (scan n [] (pending ++ chunk))
        (λ k line. scan-IsOpen (pending ++ chunk) n [] nil-IsOpen)
        (λ k line. loop-Decides rounds size (replay ++ chunk) k line unread (omega arith)) in
    record {
      result = decided.result;
      returns = round ∙ decided.returns;
      platform_is =
          decided.platform_is
          ∙ ap verdict (
              sym (scan-append (pending ++ chunk) n [] unread)
              ∙ ap (scan n [])
                  (append_assoc pending chunk unread ∙ ap (λ t. pending ++ t) (sym splits)));
      replays =
          subst (λ t. OnOk (λ (i : Identified). i.replay ++ i.unread ≡ t) decided.result)
            (append_assoc replay chunk unread ∙ ap (λ t. replay ++ t) (sym splits)) decided.replays;
    }

-- However the reads cut the bytes that the peer sends, the exchange ends: with the platform, or
-- the error, that one scan of all these bytes gives, where a scan that ends inside a line is the
-- end of the stream; and on success the replay and the bytes not yet read are all that was sent.
pub identify-Decides :
    (size : ℕ → ℕ) (input : Bytes) → Decides (identify size input) (verdict (scan 0 [] input)) input
unfolding identify
identify-Decides size input =
    loop-Decides (suc (length input)) size [] 0 [] input (omega arith) nil-IsOpen
