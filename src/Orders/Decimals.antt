-- ===== src/Orders/Decimals.antt =====
-- github.com/shopspring/decimal: what the checks use of it, as a parameter.
use ibkr_go.Prelude.{ℤ, Bool}

-- The operations. No theorem needs a law of them.
pub record Decimals : Type 1 where
  pub Decimal : Type 0
  pub from_int : ℤ → Decimal
  pub is_negative : Decimal → Bool
  pub is_positive : Decimal → Bool
  pub is_zero : Decimal → Bool
  pub greater_than : Decimal → Decimal → Bool
  pub equal : Decimal → Decimal → Bool
