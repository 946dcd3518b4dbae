-- ===== src/Prelude/Outcome.antt =====
-- A call that may raise: what it returns, or the exception.
use mathlib.Core.Path.{◌≡◌, refl}

pub data Outcome (E A : Type 0) : Type 0 where
  return : A → Outcome E A
  raise : E → Outcome E A

module _ {E A B : Type 0} where
  abbrev pub and_then : (A → Outcome E B) → Outcome E A → Outcome E B
  and_then next (return value) = next value
  and_then next (raise problem) = raise problem

  infixl 5 ◌>>=◌
  abbrev pub ◌>>=◌ : Outcome E A → (A → Outcome E B) → Outcome E B
  m >>= next = and_then next m

  -- A block that returned has a first step that returned.
  pub and_then-return :
      (next : A → Outcome E B) (m : Outcome E A) {result : B}
      → and_then next m ≡ return result
      → (value : A) × (m ≡ return value) × (next value ≡ return result)
  and_then-return next (return value) e = (value, refl, e)
  and_then-return next (raise problem) e = cc
