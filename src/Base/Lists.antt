-- ===== src/Base/Lists.antt =====
-- Lists measured and indexed by native numbers, under the library's names.
use Prim.Native.Nat.{ℕ, zero, suc, ◌+◌, ◌-◌, ◌≤◌}
use mathlib.Core.Path.{◌≡◌, refl, ap, sym}
use mathlib.Core.Logic.{◌⊎◌, inl, inr}
use mathlib.Core.Bool.{Bool, true, false, ◌||◌}
use mathlib.Core.List.{List, [], ◌∷◌, ◌++◌}
use mathlib.Core.Option.{Option, none, some}
use native.Mathlib.Omega.{arith}
use native.Mathlib.Nat.{zero-add, suc-add}

module _ {ℓ} {A : Type ℓ} where
  abbrev pub length : List A → ℕ
  length [] = 0
  length (x ∷ xs) = suc (length xs)

  abbrev pub take : ℕ → List A → List A
  take zero xs = []
  take (suc n) [] = []
  take (suc n) (x ∷ xs) = x ∷ take n xs

  abbrev pub drop : ℕ → List A → List A
  drop zero xs = xs
  drop (suc n) [] = []
  drop (suc n) (x ∷ xs) = drop n xs

  abbrev pub get_last? : List A → Option A
  get_last? [] = none
  get_last? (x ∷ []) = some x
  get_last? (x ∷ xs) = get_last? xs

  abbrev pub is_nil : List A → Bool
  is_nil [] = true
  is_nil (x ∷ xs) = false

  abbrev pub any : (A → Bool) → List A → Bool
  any p [] = false
  any p (x ∷ xs) = p x || any p xs

  -- Every element satisfies `P`; it computes to a tuple, which the tactics read.
  abbrev pub All {κ} : (A → Type κ) → List A → Type κ
  All P [] = Unit
  All P (x ∷ xs) = P x × All P xs

-- Some element satisfies `P`.
pub data Somewhere {ℓ κ} {A : Type ℓ} (P : A → Type κ) : List A → Type (ℓ ⊔ κ) where
  here : {x : A} {xs : List A} → P x → Somewhere P (x ∷ xs)
  later : {x : A} {xs : List A} → Somewhere P xs → Somewhere P (x ∷ xs)

-- `a` stands in the list.
abbrev pub Elem {ℓ} : {A : Type ℓ} → A → List A → Type ℓ
Elem a = Somewhere (λ x. a ≡ x)

pub cons-injective {ℓ} :
    {A : Type ℓ} {x y : A} {xs ys : List A} → x ∷ xs ≡ y ∷ ys → (x ≡ y) × (xs ≡ ys)
cons-injective h = ground arith

pub Somewhere-cons {ℓ κ} :
    {A : Type ℓ} {P : A → Type κ} {x : A} {xs : List A}
    → Somewhere P (x ∷ xs)
    → P x ⊎ Somewhere P xs
Somewhere-cons (here h) = inl h
Somewhere-cons (later h) = inr h

pub Elem-one {ℓ} : {A : Type ℓ} {a b : A} → Elem a (b ∷ []) → a ≡ b
Elem-one (here h) = h
Elem-one (later h) = elim h [ ]

module _ {ℓ} {A : Type ℓ} where
  pub length-append : (xs ys : List A) → length (xs ++ ys) ≡ length xs + length ys
  length-append [] ys = omega arith
  length-append (x ∷ xs) ys = omega (arith, length-append xs ys)

  pub take-append-drop : (n : ℕ) (xs : List A) → take n xs ++ drop n xs ≡ xs
  take-append-drop zero xs = refl
  take-append-drop (suc n) [] = refl
  take-append-drop (suc n) (x ∷ xs) = rw (take-append-drop n xs)

  pub length-take : (n : ℕ) (xs : List A) → n ≤ length xs → length (take n xs) ≡ n
  length-take zero xs h = refl
  length-take (suc n) [] h = absurd (omega arith)
  length-take (suc n) (x ∷ xs) h = ap suc (length-take n xs (omega arith))

  pub length-drop : (n : ℕ) (xs : List A) → length (drop n xs) ≡ length xs - n
  length-drop zero xs = omega arith
  length-drop (suc n) [] = omega arith
  length-drop (suc n) (x ∷ xs) = omega (arith, length-drop n xs)

  pub take-length : (xs ys : List A) → take (length xs) (xs ++ ys) ≡ xs
  take-length [] ys = refl
  take-length (x ∷ xs) ys = ap (◌∷◌ x) (take-length xs ys)

  pub drop-length : (xs ys : List A) → drop (length xs) (xs ++ ys) ≡ ys
  drop-length [] ys = refl
  drop-length (x ∷ xs) ys = drop-length xs ys

  take_nil : (n : ℕ) → take {A = A} n [] ≡ []
  take_nil zero = refl
  take_nil (suc n) = refl

  drop_nil : (n : ℕ) → drop {A = A} n [] ≡ []
  drop_nil zero = refl
  drop_nil (suc n) = refl

  pub take_add : (m n : ℕ) (xs : List A) → take (m + n) xs ≡ take m xs ++ take n (drop m xs)
  take_add zero n xs = rw (zero-add n)
  take_add (suc m) n [] = rw (suc-add m n) (sym (take_nil n))
  take_add (suc m) n (x ∷ xs) = rw (suc-add m n) (ap (◌∷◌ x) (take_add m n xs))

  pub drop-take_add : (m n : ℕ) (xs : List A) → drop m (take (m + n) xs) ≡ take n (drop m xs)
  drop-take_add zero n xs = rw (zero-add n) refl
  drop-take_add (suc m) n [] = rw (suc-add m n) (sym (take_nil n))
  drop-take_add (suc m) n (x ∷ xs) = rw (suc-add m n) (drop-take_add m n xs)

  pub drop-take :
      (from to : ℕ) (xs : List A) → from ≤ to → drop from (take to xs) ++ drop to xs ≡ drop from xs
  drop-take zero to xs h = take-append-drop to xs
  drop-take (suc from) zero xs h = ground arith
  drop-take (suc from) (suc to) [] h = refl
  drop-take (suc from) (suc to) (x ∷ xs) h = drop-take from to xs (omega arith)

  pub drop-beyond : (n : ℕ) (xs : List A) → length xs ≤ n → drop n xs ≡ []
  drop-beyond zero [] h = refl
  drop-beyond (suc n) [] h = refl
  drop-beyond zero (x ∷ xs) h = ground arith
  drop-beyond (suc n) (x ∷ xs) h = drop-beyond n xs (omega arith)

  pub drop_add : (m n : ℕ) (xs : List A) → drop (m + n) xs ≡ drop n (drop m xs)
  drop_add zero n xs = rw (zero-add n)
  drop_add (suc m) n [] = rw (suc-add m n) (sym (drop_nil n))
  drop_add (suc m) n (x ∷ xs) = rw (suc-add m n) (drop_add m n xs)

  pub get_last?_concat : (xs : List A) (x : A) → get_last? (xs ++ x ∷ []) ≡ some x
  get_last?_concat [] x = refl
  get_last?_concat (y ∷ []) x = refl
  get_last?_concat (y ∷ z ∷ ys) x = get_last?_concat (z ∷ ys) x

  pub length-eq-zero : (xs : List A) → length xs ≡ 0 → xs ≡ []
  length-eq-zero [] h = refl
  length-eq-zero (x ∷ xs) h = absurd (omega arith)

  pub All-append {κ} : (P : A → Type κ) (xs ys : List A) → All P xs → All P ys → All P (xs ++ ys)
  All-append P [] ys h k = k
  All-append P (x ∷ xs) ys h k = (h.0, All-append P xs ys h.1 k)

  pub All-map {κ κ'} :
      {P : A → Type κ} {Q : A → Type κ'} (f : (x : A) → P x → Q x) (xs : List A)
      → All P xs
      → All Q xs
  All-map f [] h = tt
  All-map f (x ∷ xs) h = (f x h.0, All-map f xs h.1)
