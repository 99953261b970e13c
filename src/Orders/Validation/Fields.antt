-- ===== src/Orders/Validation/Fields.antt =====
-- What the checks of order_validation.go share.
use ibkr_go.Prelude.{
  ℕ, ℤ, pos, negsuc, ltz, String, Bool, true, false, ◌||◌, Option, none, some, leb, ◌==◌,
  if◌then◌else◌, reject,
}
use ibkr_go.Orders.Types.{OrderError, invalid, plain}

abbrev pub field_error : String → String → OrderError
field_error field message = invalid (plain field) message

abbrev pub is_set {ℓ} : {A : Type ℓ} → Option A → Bool
is_set none = false
is_set (some a) = true

abbrev pub max_order_id : ℕ
max_order_id = 2147483647

unfoldable pub validate_order_id : String → ℤ → Bool → Option OrderError
validate_order_id field order_id allow_zero =
    let minimum : ℤ = if allow_zero then pos 0 else pos 1 in
    let message : String =
      if allow_zero
      then "must be between 0 and 2147483647"
      else "must be between 1 and 2147483647" in
    reject (ltz order_id minimum || ltz (pos max_order_id) order_id) (field_error field message)

unfoldable pub valid_order_trigger_method : ℤ → Bool
valid_order_trigger_method (pos n) = leb n 4 || ((n == 7) || (n == 8))
valid_order_trigger_method (negsuc n) = false
