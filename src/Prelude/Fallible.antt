-- ===== src/Prelude/Fallible.antt =====
-- Code that may stop: a failed `assert`, an abort or an exception is `none`.
use mathlib.Core.Bool.{Bool, true, false}
use mathlib.Core.Path.{◌≡◌}
use mathlib.Core.Option.{Option, none, some}
use native.Mathlib.Omega.{arith}

infixl 5 ◌>>=◌
abbrev pub ◌>>=◌ : {A B : Type 0} → Option A → (A → Option B) → Option B
none >>= f = none
some a >>= f = f a

abbrev pub assert : Bool → Option (Unit {0})
assert true = some tt
assert false = none

pub assert-true : (b : Bool) → b ≡ true → assert b ≡ some tt
assert-true b h = ground arith

abbrev pub is_some {ℓ} : {A : Type ℓ} → Option A → Bool
is_some none = false
is_some (some x) = true

pub some_equal {ℓ} : {A : Type ℓ} {x y : A} → some x ≡ some y → x ≡ y
some_equal e = cc

-- What a function returns is one.
pub same_result {ℓ} : {A : Type ℓ} {a b : A} {o : Option A} → o ≡ some a → o ≡ some b → a ≡ b
same_result p q = cc
