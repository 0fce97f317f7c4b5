-- ===== src/Prelude/Go.antt =====
-- A Go call returns a value or panics; slices are indexed with a bounds check.
use mathlib.Core.Option.{none, some}
use mathlib.Core.List.{List}
use bduts.Prelude.Lists.{get_elem?}
use bduts.Prelude.Int.{ℤ, pos, negsuc}

pub data Go {ℓ} (A : Type ℓ) : Type ℓ where
  ret : A → Go A
  panic : Go A

infixl 5 ◌>>=◌
abbrev pub ◌>>=◌ {ℓ κ} : {A : Type ℓ} {B : Type κ} → Go A → (A → Go B) → Go B
ret a >>= f = f a
panic >>= f = panic

-- `xs[i]`: an index out of range panics.
abbrev pub index {ℓ} : {A : Type ℓ} → List A → ℤ → Go A
index xs (negsuc i) = panic
index xs (pos i) = elim (get_elem? xs i) [ none ↦ panic | some x ↦ ret x ]
