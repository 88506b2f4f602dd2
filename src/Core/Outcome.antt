-- ===== src/Core/Outcome.antt =====
-- What a call that can panic comes to; where the panic stands is said with each operation. Fuel bounds the
-- depth of a recursion and the rounds of a loop.
use qvod_player.Core.Error.{QvodError}

pub data Outcome {ℓ} (A : Type ℓ) : Type ℓ where
  ok : A → Outcome A
  err : QvodError → Outcome A
  panics : Outcome A
  out_of_fuel : Outcome A

-- `?`, which also passes on the two other ends.
infixl 5 ◌>>=◌
abbrev pub ◌>>=◌ {ℓ κ} : {A : Type ℓ} {B : Type κ} → Outcome A → (A → Outcome B) → Outcome B
ok a >>= f = f a
err e >>= f = err e
panics >>= f = panics
out_of_fuel >>= f = out_of_fuel
