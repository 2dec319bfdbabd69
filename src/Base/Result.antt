-- ===== src/Base/Result.antt =====
-- A computation that returns a value or throws an error with a code.
use Prim.Native.String.{String}
use mathlib.Core.Path.{◌≡◌, refl, ap, subst}
use mathlib.Core.Logic.{◌⊎◌, inl, inr}
use mathlib.Core.Bool.{Bool, true, false}
use mathlib.Core.Option.{Option, none, some}
use smpp_telemetry_platform.Base.Tests.{if◌then◌else◌}

pub data Result {ℓ} (A : Type ℓ) : Type ℓ where
  ok : A → Result A
  err : String → Result A

infixl 5 ◌>>=◌
-- the rest of a computation, unless it has thrown
unfoldable pub ◌>>=◌ {ℓ κ} : {A : Type ℓ} {B : Type κ} → Result A → (A → Result B) → Result B
err code >>= next = err code
ok value >>= next = next value

-- a check that returns nothing
abbrev pub Done : Type 0
Done = Result (Unit {0})

-- `if (!test) fail(code)`
unfoldable pub require : Bool → String → Done
require false code = err code
require true code = ok tt

infixl 5 ◌>>◌
abbrev pub ◌>>◌ {ℓ} : {B : Type ℓ} → Done → Result B → Result B
check >> rest = check >>= λ _. rest

-- the value, or the error where there is none
unfoldable pub some_or {ℓ} : {A : Type ℓ} → String → Option A → Result A
some_or e none = err e
some_or e (some a) = ok a

pub some_or-eq-ok {ℓ} :
    {A : Type ℓ} (e : String) (o : Option A) {a : A} → some_or e o ≡ ok a → o ≡ some a
unfolding some_or
some_or-eq-ok e none h = cc
some_or-eq-ok {A = A} e (some a) h = ap some (ok-injective h)
  where
    ok-injective : {a b : A} → ok a ≡ ok b → a ≡ b
    ok-injective h = cc

pub Result-cases {ℓ} :
    {A : Type ℓ} (r : Result A) → ((a : A) × (r ≡ ok a)) ⊎ ((e : String) × (r ≡ err e))
Result-cases (ok a) = inl (a, refl)
Result-cases (err e) = inr (e, refl)

-- Whatever the computation returns satisfies `P`.
pub record Ensures {ℓ κ} {A : Type ℓ} (P : A → Type κ) (r : Result A) : Type (ℓ ⊔ κ) where
  pub returns : (a : A) → r ≡ ok a → P a

module _ {ℓ κ} {B : Type ℓ} {P : B → Type κ} where
  pub after {ℓa} :
      {A : Type ℓa} {m : Result A} {f : A → Result B}
      → ((a : A) → m ≡ ok a → Ensures P (f a))
      → Ensures P (m >>= f)
  unfolding ◌>>=◌
  after {m = ok a} k = k a refl
  after {m = err e} k = record { returns = λ b h. cc }

  pub holding {ℓa κa} :
      {A : Type ℓa} {Q : A → Type κa} {m : Result A} {f : A → Result B}
      → Ensures Q m
      → ((a : A) → Q a → Ensures P (f a))
      → Ensures P (m >>= f)
  holding q k = after λ a e. k a (q.returns a e)

  pub checked :
      {b : Bool} (e : String) {r : Result B}
      → (b ≡ true → Ensures P r)
      → Ensures P (require b e >> r)
  unfolding ◌>>=◌ require
  checked {b = true} e k = k refl
  checked {b = false} e k = record { returns = λ a h. cc }

  pub Ensures-ok : {a : B} → P a → Ensures P (ok a)
  Ensures-ok {a} p = record { returns = λ b h. subst P (ok-injective h) p }
    where
      ok-injective : {a b : B} → ok a ≡ ok b → a ≡ b
      ok-injective h = cc

  pub Ensures-err : {e : String} → Ensures P (err e)
  Ensures-err = record { returns = λ a h. cc }

  -- both branches of a test
  pub in_both :
      (test : Bool) {m r : Result B} → Ensures P m → Ensures P r → Ensures P (if test then m else r)
  in_both true p q = p
  in_both false p q = q

  -- a test, known in both branches
  pub on_test :
      (test : Bool) {m r : Result B}
      → (test ≡ true → Ensures P m)
      → (test ≡ false → Ensures P r)
      → Ensures P (if test then m else r)
  on_test true p q = p refl
  on_test false p q = q refl

-- a last check
pub required {κ} :
    {P : Unit {0} → Type κ} {b : Bool} (e : String) → (b ≡ true → P tt) → Ensures P (require b e)
unfolding require
required {b = true} e k = Ensures-ok (k refl)
required {b = false} e k = Ensures-err
