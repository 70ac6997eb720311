-- ===== src/Prelude/Faults.antt =====
-- The ways in which a C++ call of the program can fail to return: the two exceptions of the
-- standard library that its callees throw, undefined behaviour, and a wait that nothing ends.
use Prim.Native.Nat.{ℕ}
use mathlib.Core.List.{List}
use mathlib.Core.Bool.{Bool, true, false}
use mathlib.Core.Option.{Option, none, some}
use mathlib.Core.Path.{◌≡◌, refl}
use mathlib.Core.Logic.{◌≢◌, ◌⊎◌, inl, inr}
use cheferd.Prelude.Lists.{get_elem?}

pub data Fault : Type 0 where
  invalid_argument out_of_range undefined blocked : Fault

pub data Result {ℓ} (A : Type ℓ) : Type ℓ where
  ok : A → Result A
  fail : Fault → Result A

infixl 5 ◌>>=◌
abbrev pub ◌>>=◌ {ℓ κ} : {A : Type ℓ} {B : Type κ} → Result A → (A → Result B) → Result B
ok a >>= f = f a
fail e >>= f = fail e

abbrev pub or_fail {ℓ} : {A : Type ℓ} → Fault → Option A → Result A
or_fail e none = fail e
or_fail e (some a) = ok a

-- `v[i]` on a vector: undefined behaviour past its end.
abbrev pub subscript {ℓ} : {A : Type ℓ} → List A → ℕ → Result A
subscript xs i = or_fail undefined (get_elem? xs i)

pub ok-injective {ℓ} : {A : Type ℓ} {a b : A} → ok a ≡ ok b → a ≡ b
ok-injective {a} {b} e = cc

pub fail-ne-ok {ℓ} : {A : Type ℓ} {a : A} {e : Fault} → fail e ≢ ok a
fail-ne-ok {a} {e} p = cc

-- A call that returns, and what follows it and returns y.
abbrev pub Steps {ℓ κ} : {A : Type ℓ} {B : Type κ} → Result A → (A → Result B) → B → Type (ℓ ⊔ κ)
Steps {A} call next y = (x : A) × (call ≡ ok x) × (next x ≡ ok y)

pub bind-Steps {ℓ κ} :
    {A : Type ℓ} {B : Type κ} (call : Result A) (next : A → Result B) {y : B}
    → call >>= next ≡ ok y
    → Steps call next y
bind-Steps (ok x) next e = (x, refl, e)
bind-Steps (fail x) next e = absurd (fail-ne-ok e)

pub Result-cases {ℓ} :
    {A : Type ℓ} (r : Result A) → ((a : A) × (r ≡ ok a)) ⊎ ((e : Fault) × (r ≡ fail e))
Result-cases (ok a) = inl (a, refl)
Result-cases (fail e) = inr (e, refl)

abbrev pub returns {ℓ} : {A : Type ℓ} → Result A → Bool
returns (ok a) = true
returns (fail e) = false

-- The call does not return.
abbrev pub Throws {ℓ} : {A : Type ℓ} → Result A → Type ℓ
Throws {A} r = (a : A) → r ≢ ok a

pub Throws-returns {ℓ} : {A : Type ℓ} (r : Result A) → Throws r → returns r ≡ false
Throws-returns (ok a) h = absurd (h a refl)
Throws-returns (fail e) h = refl

pub bind-Throws {ℓ κ} :
    {A : Type ℓ} {B : Type κ} (m : Result A) (f : A → Result B)
    → ((a : A) → Throws (f a))
    → Throws (m >>= f)
bind-Throws (ok a) f h b e = h a b e
bind-Throws (fail x) f h b e = cc

pub bind_left-Throws {ℓ κ} :
    {A : Type ℓ} {B : Type κ} (m : Result A) (f : A → Result B) → Throws m → Throws (m >>= f)
bind_left-Throws (ok a) f h b e = absurd (h a refl)
bind_left-Throws (fail x) f h b e = cc

-- The computation returns, with a result that P holds of.
abbrev pub Gives {ℓ} : {A : Type ℓ} → (A → Type 0) → Result A → Type 0
Gives P (ok a) = P a
Gives P (fail e) = ⊥

pub bind-Gives {ℓ κ} :
    {A : Type ℓ} {B : Type κ} (P : A → Type 0) (Q : B → Type 0) (m : Result A) (f : A → Result B)
    → Gives P m
    → ((a : A) → P a → Gives Q (f a))
    → Gives Q (m >>= f)
bind-Gives P Q (ok a) f h k = k a h
bind-Gives P Q (fail e) f h k = absurd h

pub Gives-mono {ℓ} :
    {A : Type ℓ} (P Q : A → Type 0) (m : Result A) → Gives P m → ((a : A) → P a → Q a) → Gives Q m
Gives-mono P Q (ok a) h k = k a h
Gives-mono P Q (fail e) h k = absurd h

pub Gives-both {ℓ} :
    {A : Type ℓ} (P Q : A → Type 0) (m : Result A)
    → Gives P m
    → Gives Q m
    → Gives (λ a. P a × Q a) m
Gives-both P Q (ok a) h k = (h, k)
Gives-both P Q (fail e) h k = absurd h
