-- ===== src/Orders/Contract.antt =====
-- validateContract of engine_convert.go.
use ibkr_go.Prelude.{
  ℕ, ◌+◌, ℤ, pos, ltz, is_negative, int_eq, String, Bool, false, not, ◌&&◌, ◌||◌, Option, none,
  some, List, [], ◌∷◌, ◌==◌, length, ◌>>◌, reject, trim_space, is_empty, is_blank, is_one_of,
  str_eq,
}
use ibkr_go.Orders.Types.{
  ComboLeg, DeltaNeutralContract, Contract, OrderError, invalid, plain, element,
}

abbrev pub sec_type_combo : String
sec_type_combo = "BAG"

-- ActionBuy, ActionSell, ActionSellShort, ActionSellLong
abbrev pub order_actions : List String
order_actions = "BUY" ∷ "SELL" ∷ "SSHORT" ∷ "SLONG" ∷ []

-- x <= 0
abbrev pub is_not_positive : ℤ → Bool
is_not_positive x = ltz x (pos 1)

leg_error : ℕ → String → String → OrderError
leg_error i suffix message = invalid (element "Contract.ComboLegs" i suffix) message

unfoldable pub is_bad_code : (ℤ → Bool) → Option ℤ → Bool
is_bad_code bad none = false
is_bad_code bad (some x) = bad x

-- The body of the loop over the legs.
unfoldable pub validate_leg : ℕ → ComboLeg → Option OrderError
unfolding leg_error is_bad_code
validate_leg i leg =
    reject (is_not_positive leg.con_id) (leg_error i ".ConID" "must be > 0")
    >> reject (is_not_positive leg.ratio) (leg_error i ".Ratio" "must be > 0")
    >> reject (not (is_one_of leg.action order_actions))
        (leg_error i ".Action" "must be BUY, SELL, SSHORT, or SLONG")
    >> reject (is_blank leg.exchange) (leg_error i ".Exchange" "is required")
    >> reject (is_negative leg.open_close || ltz (pos 3) leg.open_close)
        (leg_error i ".OpenClose" "must be Same, Open, Close, or Unknown (0..3)")
    >> reject (is_negative leg.short_sale_slot || ltz (pos 2) leg.short_sale_slot)
        (leg_error i ".ShortSaleSlot" "must be 0, 1, or 2")
    >> reject (int_eq leg.short_sale_slot (pos 2) && is_blank leg.designated_location)
        (leg_error i ".DesignatedLocation" "is required for short-sale slot 2")
    >> reject (is_bad_code is_negative leg.exempt_code)
        (leg_error i ".ExemptCode" "must be >= 0; use nil for IBKR's unset sentinel")

unfoldable pub validate_legs : ℕ → List ComboLeg → Option OrderError
validate_legs i [] = none
validate_legs i (leg ∷ legs) = validate_leg i leg >> validate_legs (i + 1) legs

unfoldable pub validate_delta_neutral :
    {D : Type 0} → Bool → Option (DeltaNeutralContract D) → Option OrderError
validate_delta_neutral is_combo none = none
validate_delta_neutral is_combo (some n) =
    reject (not is_combo) (invalid (plain "Contract.DeltaNeutral") "requires a BAG contract")
    >> reject (is_not_positive n.con_id)
        (invalid (plain "Contract.DeltaNeutral.ConID") "must be > 0")

unfoldable pub validate_contract : {D : Type 0} → Contract D → Option OrderError
unfolding validate_legs validate_delta_neutral
validate_contract c =
    let id = c.security_id in
    let is_combo = str_eq c.sec_type sec_type_combo in
    let type_set = not (is_empty id.type_of) in
    let value_set = not (is_empty id.value) in
    reject (is_negative c.con_id) (invalid (plain "Contract.ConID") "must be >= 0")
    >> reject (not (str_eq id.type_of (trim_space id.type_of)))
        (invalid (plain "Contract.SecurityID.Type") "must not contain surrounding whitespace")
    >> reject (not (str_eq id.value (trim_space id.value)))
        (invalid (plain "Contract.SecurityID.Value") "must not contain surrounding whitespace")
    >> reject (not type_set && value_set) (
        invalid (plain "Contract.SecurityID.Type")
          "is required when Contract.SecurityID.Value is set")
    >> reject (type_set && not value_set) (
        invalid (plain "Contract.SecurityID.Value")
          "is required when Contract.SecurityID.Type is set")
    >> reject (not (length c.combo_legs == 0) && not is_combo)
        (invalid (plain "Contract.ComboLegs") "requires a BAG contract")
    >> reject (is_combo && (length c.combo_legs == 1)) (
        invalid (plain "Contract.ComboLegs")
          "must be empty for BAG lookup or contain at least two legs")
    >> validate_legs 0 c.combo_legs
    >> validate_delta_neutral is_combo c.delta_neutral
