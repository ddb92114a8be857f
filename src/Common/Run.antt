-- ===== src/Common/Run.antt =====
-- The outcome of a call of the program.
use Prim.Native.Nat.{ℕ}
use mathlib.Core.Path.{◌≡◌, refl}
use mathlib.Core.Bool.{Bool, true, false}

-- How a call ends without a result: a `std::runtime_error` of a read at an index, an `assert` that
-- does not hold, what a conversion or a container of the library throws, or an access outside a container, on which C++ places no demand.
pub data Error : Type 0 where
  read_failed : ℕ → Error
  assertion : Error
  out_of_bounds : Error
  length_error : Error
  runtime_error : Error
  invalid_argument : Error
  out_of_range : Error

-- `timeout` is no outcome of the program: the fuel of a `while` loop ran out, or a call waits for ever.
pub data Run {ℓ} (A : Type ℓ) : Type ℓ where
  ok : A → Run A
  err : Error → Run A
  timeout : Run A

infixl 5 ◌>>=◌ ◌>>◌
abbrev pub ◌>>=◌ {ℓ κ} : {A : Type ℓ} {B : Type κ} → Run A → (A → Run B) → Run B
ok a >>= f = f a
err e >>= f = err e
timeout >>= f = timeout

abbrev pub ◌>>◌ {ℓ} : {B : Type ℓ} → Run (Unit {0}) → Run B → Run B
m >> k = m >>= λ _. k

abbrev pub require : Bool → Error → Run (Unit {0})
require true e = ok tt
require false e = err e

-- Code that keeps a state: what follows runs if the code before it returned.
abbrev pub and_then {ℓ} :
    {S : Type ℓ} → S × Run (Unit {0}) → (S → S × Run (Unit {0})) → S × Run (Unit {0})
and_then (s, ok _) f = f s
and_then (s, err x) f = (s, err x)
and_then (s, timeout) f = (s, timeout)

-- The call returns, and its result has the property.
abbrev pub Returns {ℓ} : {A : Type ℓ} → Run A → (A → Type 0) → Type 0
Returns (ok a) P = P a
Returns (err e) P = ⊥
Returns timeout P = ⊥

pub Returns-map {ℓ} :
    {A : Type ℓ} (m : Run A) (P Q : A → Type 0) → ((a : A) → P a → Q a) → Returns m P → Returns m Q
Returns-map (ok a) P Q f p = f a p
Returns-map (err e) P Q f p = p
Returns-map timeout P Q f p = p

-- A call that returns equals its result.
pub Returns→ok {ℓ} :
    {A : Type ℓ} (m : Run A) (P : A → Type 0) → Returns m P → (a : A) × (m ≡ ok a) × P a
Returns→ok (ok a) P p = (a, refl, p)
Returns→ok (err e) P p = absurd p
Returns→ok timeout P p = absurd p

pub ok-injective {ℓ} : {A : Type ℓ} {a b : A} → ok a ≡ ok b → a ≡ b
ok-injective e = cc

-- A call in front of another returned, if the other did.
pub >>=-ok {ℓ κ} :
    {A : Type ℓ} {B : Type κ} (m : Run A) (f : A → Run B) (b : B)
    → (m >>= f) ≡ ok b
    → (a : A) × (m ≡ ok a) × (f a ≡ ok b)
>>=-ok (ok a) f b e = (a, refl, e)
>>=-ok (err x) f b e = absurd cc
>>=-ok timeout f b e = absurd cc

pub err-not-ok {ℓ} : {A : Type ℓ} {x : Error} {a : A} → err x ≡ ok a → ⊥
err-not-ok e = cc
