-- ===== src/Prelude/Errors.antt =====
-- Fallible code returns a `Result`; a check that returns only an error is an `Option` of it.
use mathlib.Core.Bool.{Bool, true, false}
use mathlib.Core.Option.{Option, none, some}

pub data Result {ℓ κ} (E : Type ℓ) (A : Type κ) : Type (ℓ ⊔ κ) where
  ok : A → Result E A
  err : E → Result E A

-- `if err := check(); err != nil { return err }` followed by the rest.
infixl 5 ◌>>◌
abbrev pub ◌>>◌ {ℓ} : {E : Type ℓ} → Option E → Option E → Option E
none >> k = k
some e >> k = some e

-- `if bad { return e }`.
abbrev pub reject {ℓ} : {E : Type ℓ} → Bool → E → Option E
reject true e = some e
reject false e = none
