-- ===== src/Base/Results.antt =====
-- `Result<A, E>`: errors as values, with `?` as `do`.
use native.Mathlib.Omega.{arith}
use se_sshion.Base.Tests.{if◌then◌else◌}
use mathlib.Core.Path.{◌≡◌, refl}
use mathlib.Core.Logic.{◌⊎◌, inl, inr}
use mathlib.Core.Bool.{Bool, true, false}
use mathlib.Core.Option.{Option, none, some}

pub data Result {ℓ κ} (E : Type κ) (A : Type ℓ) : Type (ℓ ⊔ κ) where
  ok : A → Result E A
  err : E → Result E A

infixl 5 ◌>>=◌ ◌>>◌
abbrev pub ◌>>=◌ {ℓ κ μ} :
    {E : Type κ} {A : Type ℓ} {B : Type μ} → Result E A → (A → Result E B) → Result E B
ok a >>= f = f a
err e >>= f = err e

abbrev pub ◌>>◌ {ℓ κ μ} :
    {E : Type κ} {A : Type ℓ} {B : Type μ} → Result E A → Result E B → Result E B
m >> k = m >>= λ _. k

-- `if test { return Err(e) }`
abbrev pub reject_if {κ} : {E : Type κ} → Bool → E → Result E (Unit {0})
reject_if true e = err e
reject_if false e = ok tt

-- `if let Some(a) = o { f(a) } else { d }`
abbrev pub if_some {ℓ κ} : {A : Type ℓ} {B : Type κ} → Option A → (A → B) → B → B
if_some (some a) f d = f a
if_some none f d = d

-- `map_err`
abbrev pub map_err {ℓ κ μ} :
    {E : Type κ} {F : Type μ} {A : Type ℓ} → (E → F) → Result E A → Result F A
map_err f (ok a) = ok a
map_err f (err e) = err (f e)

-- `ok_or`
abbrev pub ok_or {ℓ κ} : {E : Type κ} {A : Type ℓ} → Option A → E → Result E A
ok_or none e = err e
ok_or (some a) e = ok a

pub >>=-eq-ok {ℓ κ μ} :
    {E : Type κ} {A : Type ℓ} {B : Type μ} (first : Result E A) (rest : A → Result E B) {final : B}
    → (first >>= rest) ≡ ok final
    → (value : A) × (first ≡ ok value) × (rest value ≡ ok final)
>>=-eq-ok (ok value) rest done = (value, refl, done)
>>=-eq-ok (err failure) rest done = cc

pub Result-cases {ℓ κ} :
    {E : Type κ} {A : Type ℓ} (r : Result E A) → ((a : A) × (r ≡ ok a)) ⊎ ((e : E) × (r ≡ err e))
Result-cases (ok a) = inl (a, refl)
Result-cases (err e) = inr (e, refl)

-- What a chain of checks that succeeds says of its first check.
pub reject_if-eq-ok {ℓ κ} :
    {E : Type κ} {A : Type ℓ} (b : Bool) (e : E) (k : Result E A) {a : A}
    → (reject_if b e >> k) ≡ ok a
    → (b ≡ false) × (k ≡ ok a)
reject_if-eq-ok true e k h = absurd (cc h)
reject_if-eq-ok false e k h = (refl, h)

pub map_err-eq-ok {ℓ κ μ} :
    {E : Type κ} {F : Type μ} {A : Type ℓ} (f : E → F) (r : Result E A) {a : A}
    → map_err f r ≡ ok a
    → r ≡ ok a
map_err-eq-ok f (ok x) h = ground arith
map_err-eq-ok f (err e) h = absurd (cc h)

-- The value of a success satisfies `P`.
abbrev pub OnOk {ℓ κ μ} : {E : Type κ} {A : Type ℓ} → (A → Type μ) → Result E A → Type μ
OnOk P (ok a) = P a
OnOk P (err e) = Unit

pub OnOk-bind {ℓ κ μ ν ξ} :
    {E : Type κ} {A : Type ℓ} {B : Type μ} (P : A → Type ν) (Q : B → Type ξ) (m : Result E A)
    (f : A → Result E B)
    → OnOk P m
    → ((a : A) → P a → OnOk Q (f a))
    → OnOk Q (m >>= f)
OnOk-bind P Q (ok a) f h k = k a h
OnOk-bind P Q (err e) f h k = tt

-- the rest may use that the first part succeeds
pub OnOk-bind_eq {ℓ κ μ ξ} :
    {E : Type κ} {A : Type ℓ} {B : Type μ} (Q : B → Type ξ) (m : Result E A) (f : A → Result E B)
    → ((a : A) → m ≡ ok a → OnOk Q (f a))
    → OnOk Q (m >>= f)
OnOk-bind_eq Q (ok a) f k = k a refl
OnOk-bind_eq Q (err e) f k = tt

pub OnOk-reject_if {ℓ κ ξ} :
    {E : Type κ} {B : Type ℓ} (Q : B → Type ξ) (b : Bool) (e : E) (k : Result E B)
    → (b ≡ false → OnOk Q k)
    → OnOk Q (reject_if b e >> k)
OnOk-reject_if Q true e k h = tt
OnOk-reject_if Q false e k h = h refl

pub OnOk-map {ℓ κ μ ξ} :
    {E : Type κ} {A : Type ℓ} (P : A → Type μ) (Q : A → Type ξ) (r : Result E A)
    → ((a : A) → P a → Q a)
    → OnOk P r
    → OnOk Q r
OnOk-map P Q (ok a) f h = f a h
OnOk-map P Q (err e) f h = tt

pub OnOk-use {ℓ κ μ} :
    {E : Type κ} {A : Type ℓ} (P : A → Type μ) (r : Result E A) {a : A} → OnOk P r → r ≡ ok a → P a
OnOk-use P r h e = rw e at h

pub OnOk-if {ℓ κ ξ} :
    {E : Type κ} {B : Type ℓ} (Q : B → Type ξ) (b : Bool) (m n : Result E B)
    → (b ≡ true → OnOk Q m)
    → (b ≡ false → OnOk Q n)
    → OnOk Q (if b then m else n)
OnOk-if Q true m n h k = h refl
OnOk-if Q false m n h k = k refl

pub OnOk-if_some {ℓ κ μ ξ} :
    {E : Type κ} {A : Type ℓ} {B : Type μ} (Q : B → Type ξ) (o : Option A) (f : A → Result E B)
    (d : Result E B)
    → ((a : A) → o ≡ some a → OnOk Q (f a))
    → (o ≡ none → OnOk Q d)
    → OnOk Q (if_some o f d)
OnOk-if_some Q (some a) f d h k = h a refl
OnOk-if_some Q none f d h k = k refl

pub ok-injective {ℓ κ} :
    {E : Type κ} {A : Type ℓ} {a b : A} (o : Result E A) → o ≡ ok a → o ≡ ok b → a ≡ b
ok-injective o h k = ground arith
