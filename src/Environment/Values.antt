-- ===== src/Environment/Values.antt =====
-- src/ssh/environment.rs: what the readers of single values accept.
use se_sshion.Base.{
  ℕ, ◌≤◌, ◌<◌, ◌≡◌, inl, inr, Bool, true, false, Option, none, some, List, [], ◌∷◌, ltb, leb,
  if◌then◌else◌, arith, Bool-cases, ◌*◌, ◌+◌, ◌-◌,
}
use se_sshion.Base.Lists.{length, any, is_nil, All}
use se_sshion.Base.Text.{Text, trim, is_control, utf8_len}
use se_sshion.Base.Text.Trim.{trim_idem}
use se_sshion.Base.Text.Utf8.{Bytes, as_bytes}
use se_sshion.Base.Text.Reading.{from_utf8, parse_digits, lines, split_ascii_whitespace}
use se_sshion.Base.Words.{u64_max, u32_max}
use se_sshion.Environment.{
  filter_option, and_then, is_clean, trimmed, scalar, cpu_model, all_digits, decimal, in_u32,
  find_label, all_ids, second_of_four, effective_id, or_option, scalar_limit,
}

-- The value, if there is one, satisfies `P`.
abbrev pub IfSome {ℓ κ} : {A : Type ℓ} → (A → Type κ) → Option A → Type κ
IfSome P none = Unit
IfSome P (some a) = P a

-- a text that is not empty, has no control character and no white space at its ends
abbrev pub IsText : Text → Type 0
IsText t = (is_nil t ≡ false) × (any is_control t ≡ false) × (trim t ≡ t)

pub filter-IfSome {ℓ κ μ} :
    {A : Type ℓ} (P : A → Type κ) (Q : A → Type μ) (p : A → Bool) (o : Option A)
    → IfSome P o
    → ((a : A) → P a → p a ≡ true → Q a)
    → IfSome Q (filter_option p o)
filter-IfSome P Q p none h k = tt
filter-IfSome P Q p (some a) h k = elim (Bool-cases (p a)) [
  | inl e ↦ rw e (k a h e)
  | inr e ↦ rw e tt
]

pub if-IfSome {ℓ κ} :
    {A : Type ℓ} (P : A → Type κ) (b : Bool) (x y : Option A)
    → IfSome P x
    → IfSome P y
    → IfSome P (if b then x else y)
if-IfSome P true x y h k = h
if-IfSome P false x y h k = k

pub and_then-IfSome {ℓ κ μ} :
    {A : Type ℓ} {B : Type κ} (P : B → Type μ) (o : Option A) (f : A → Option B)
    → ((a : A) → IfSome P (f a))
    → IfSome P (and_then o f)
and_then-IfSome P none f h = tt
and_then-IfSome P (some a) f h = h a

pub or_option-IfSome {ℓ κ} :
    {A : Type ℓ} (P : A → Type κ) (x y : Option A)
    → IfSome P x
    → IfSome P y
    → IfSome P (or_option x y)
or_option-IfSome P none y h k = k
or_option-IfSome P (some a) y h k = h

abbrev IsTrimmed : Text → Type 0
IsTrimmed t = trim t ≡ t

trimmed-IsTrimmed : (payload : Bytes) → IfSome IsTrimmed (trimmed payload)
trimmed-IsTrimmed payload =
    and_then-IfSome IsTrimmed (from_utf8 payload) (λ text. some (trim text))
      (λ text. trim_idem text)

clean-IsText : (t : Text) → IsTrimmed t → is_clean t ≡ true → IsText t
clean-IsText t h k = (ground (arith, k), ground (arith, k), h)

pub scalar-IsText : (payload : Bytes) (limit : ℕ) → IfSome IsText (scalar payload limit)
unfolding scalar
scalar-IsText payload limit =
    if-IfSome IsText (ltb limit (length payload)) none (filter_option is_clean (trimmed payload)) tt
      (filter-IfSome IsTrimmed IsText is_clean (trimmed payload) (trimmed-IsTrimmed payload)
        clean-IsText)

abbrev pub IsModel : Text → Type 0
IsModel t = IsText t × (utf8_len t ≤ 256)

pub cpu_model-IsModel : (payload : Bytes) → IfSome IsModel (cpu_model payload)
unfolding cpu_model
cpu_model-IsModel payload =
    filter-IfSome IsTrimmed IsModel _ (trimmed payload) (trimmed-IsTrimmed payload)
      (λ t h k. (clean-IsText t h (ground (arith, k)), ground (arith, k)))

parse_digits-bound :
    (most value : ℕ) (t : Text) → value ≤ most → IfSome (λ n. n ≤ most) (parse_digits most value t)
unfolding parse_digits
parse_digits-bound most value [] h = h
parse_digits-bound most value (c ∷ t) h =
    let next : ℕ = value * 10 + (c - b'0') in
    elim (Bool-cases (ltb most next)) [
      | inl e ↦ rw e tt
      | inr e ↦ rw e (parse_digits-bound most next t (ground arith))
    ]

pub decimal-bound : (payload : Bytes) → IfSome (λ n. n ≤ u64_max) (decimal payload)
unfolding decimal
decimal-bound payload =
    let read : Text → Option ℕ = λ text. parse_digits u64_max 0 text in
    let digits : Option Text = filter_option all_digits (trimmed payload) in
    if-IfSome (λ n. n ≤ u64_max) (ltb scalar_limit (length payload)) none (and_then digits read) tt
      (and_then-IfSome (λ n. n ≤ u64_max) digits read
        (λ text. parse_digits-bound u64_max 0 text (omega arith)))

-- a count of processors
abbrev pub IsCount : ℕ → Type 0
IsCount n = (0 < n) × (n ≤ u64_max)

pub decimal-IsCount : (payload : Bytes) → IfSome IsCount (filter_option (ltb 0) (decimal payload))
decimal-IsCount payload =
    filter-IfSome (λ n. n ≤ u64_max) IsCount (ltb 0) (decimal payload) (decimal-bound payload)
      (λ n h k. (ground arith, h))

abbrev pub IsId : ℕ → Type 0
IsId id = id ≤ u32_max

in_u32-IsId : (n : ℕ) → IfSome IsId (in_u32 n)
in_u32-IsId n = elim (Bool-cases (leb n u32_max)) [ inl e ↦ rw e (ground arith) | inr e ↦ rw e tt ]

pub decimal-IsId : (payload : Bytes) → IfSome IsId (and_then (decimal payload) in_u32)
decimal-IsId payload = and_then-IfSome IsId (decimal payload) in_u32 in_u32-IsId

first-IsId :
    (first : Option ℕ) (rest : Option (List ℕ))
    → IfSome IsId first
    → IfSome (All IsId) rest
    → IfSome (All IsId) (and_then first (λ id. and_then rest (λ ids. some (id ∷ ids))))
first-IsId none rest h k = tt
first-IsId (some id) none h k = tt
first-IsId (some id) (some ids) h k = (h, k)

all_ids-IsId : (values : List Text) → IfSome (All IsId) (all_ids values)
unfolding all_ids
all_ids-IsId [] = tt
all_ids-IsId (value ∷ values) =
    first-IsId (and_then (decimal (as_bytes value)) in_u32) (all_ids values)
      (decimal-IsId (as_bytes value)) (all_ids-IsId values)

second_of_four-IsId : (ids : List ℕ) → All IsId ids → IfSome IsId (second_of_four ids)
second_of_four-IsId (a ∷ b ∷ c ∷ d ∷ []) h = h.1.0
second_of_four-IsId [] h = tt
second_of_four-IsId (a ∷ []) h = tt
second_of_four-IsId (a ∷ b ∷ []) h = tt
second_of_four-IsId (a ∷ b ∷ c ∷ []) h = tt
second_of_four-IsId (a ∷ b ∷ c ∷ d ∷ e ∷ ids) h = tt

and_then-second :
    (o : Option (List ℕ)) → IfSome (All IsId) o → IfSome IsId (and_then o second_of_four)
and_then-second none h = tt
and_then-second (some ids) h = second_of_four-IsId ids h

pub effective_id-IsId : (payload : Bytes) (label : Text) → IfSome IsId (effective_id payload label)
unfolding effective_id
effective_id-IsId payload label =
    let chosen : Text → Option ℕ =
      λ line. and_then (all_ids (split_ascii_whitespace line)) second_of_four in
    and_then-IfSome IsId (from_utf8 payload)
      (λ text. and_then (find_label label (lines text)) chosen)
      (λ text. and_then-IfSome IsId (find_label label (lines text)) chosen (λ line.
        and_then-second (all_ids (split_ascii_whitespace line))
          (all_ids-IsId (split_ascii_whitespace line))))
