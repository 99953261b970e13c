-- ===== src/Orders/Validation/Parts.antt =====
-- order_validation.go: contract, quantity, prices, time in force, OCA group and combo.
use ibkr_go.Prelude.{
  ℤ, pos, is_negative, int_eq, String, Bool, false, not, ◌&&◌, ◌||◌, Option, none, some, [], ◌∷◌,
  ltb, ◌==◌, if◌then◌else◌, length, ◌>>◌, reject, is_empty, is_blank, is_one_of, str_eq,
}
use ibkr_go.Orders.Decimals.{Decimals}
use ibkr_go.Orders.Tags.{validate_tag_values}
use ibkr_go.Orders.Contract.{validate_contract, sec_type_combo, is_bad_code}
use ibkr_go.Orders.Validation.Fields.{field_error, is_set}
use ibkr_go.Orders.Types.{Contract, Order, OrderOca, OrderError}

abbrev pub tif_gtd : String
tif_gtd = "GTD"

abbrev pub order_type_limit : String
order_type_limit = "LMT"

unfoldable pub validate_order_contract : {D : Type 0} → Contract D → Option OrderError
validate_order_contract c =
    let no_id = int_eq c.con_id (pos 0) in
    validate_contract c
    >> reject (no_id && is_empty c.sec_type)
        (field_error "Contract.SecType" "is required when ConID is not set")
    >> reject (no_id && (is_blank c.symbol && is_blank c.local_symbol))
        (field_error "Contract.Symbol" "Symbol or LocalSymbol is required when ConID is not set")
    >> reject (str_eq c.sec_type sec_type_combo && ltb (length c.combo_legs) 2)
        (field_error "Contract.ComboLegs" "a BAG order requires at least two legs")

unfoldable pub validate_order_oca : OrderOca → Option OrderError
validate_order_oca oca =
    let defined =
      int_eq oca.type_of (pos 1) || (int_eq oca.type_of (pos 2) || int_eq oca.type_of (pos 3)) in
    if is_empty oca.group && int_eq oca.type_of (pos 0)
    then none
    else (reject (is_blank oca.group)
          (field_error "Order.OCA.Group" "is required when OCA.Type is set")
        >> reject (not defined)
            (field_error "Order.OCA.Type" "must be a defined OCAType when OCA.Group is set"))

unfoldable pub validate_order_tif : {D : Type 0} → Order D → Option OrderError
validate_order_tif o =
    let is_gtd = str_eq o.tif tif_gtd in
    reject (is_gtd && is_blank o.good_till_date)
      (field_error "Order.GoodTillDate" "is required when TIF is GTD")
    >> reject (not is_gtd && not (is_empty o.good_till_date))
        (field_error "Order.GoodTillDate" "requires TIF GTD")

unfoldable pub validate_order_combo : {D : Type 0} → Contract D → Order D → Option OrderError
validate_order_combo c o =
    let combo = o.combo in
    let priced = not (length combo.leg_prices == 0) in
    reject (not (length combo.smart_routing == 0) && not (str_eq c.sec_type sec_type_combo))
      (field_error "Order.Combo.SmartRouting" "requires a BAG contract")
    >> reject (priced && not (length combo.leg_prices == length c.combo_legs))
        (field_error "Order.Combo.LegPrices" "must contain one price per leg")
    >> reject (priced && not (str_eq o.order_type order_type_limit))
        (field_error "Order.Combo.LegPrices" "requires Order.OrderType LMT")
    >> reject (priced && is_set o.lmt_price)
        (field_error "Order.LmtPrice" "cannot be combined with per-leg combo prices")
    >> validate_tag_values "Order.Combo.SmartRouting" combo.smart_routing

module _ (d : Decimals) where
  open d use {Decimal, from_int, is_negative as below_zero, is_positive, is_zero, greater_than}

  -- A pointer that is set to a value with the fault.
  abbrev pub is_bad : (Decimal → Bool) → Option Decimal → Bool
  is_bad bad none = false
  is_bad bad (some x) = bad x

  unfoldable pub exceeds : Option ℤ → Decimal → Bool
  exceeds none q = false
  exceeds (some n) q = greater_than (from_int n) q

  unfoldable pub validate_order_quantity : Order Decimal → Option OrderError
  unfolding is_bad_code
  validate_order_quantity o =
      reject (below_zero o.quantity) (field_error "Order.Quantity" "must be >= 0")
      >> reject (is_bad (λ x. not (is_positive x)) o.cash_qty)
          (field_error "Order.CashQty" "must be positive")
      >> reject (not (is_zero o.quantity) && is_set o.cash_qty)
          (field_error "Order.CashQty" "cannot be combined with Quantity")
      >> reject (is_zero o.quantity && (not (is_set o.cash_qty) && is_empty o.hedge.type_of)) (
          field_error "Order.Quantity"
            "Quantity or CashQty must be positive; only hedge children may omit both")
      >> reject (is_bad_code is_negative o.min_qty) (field_error "Order.MinQty" "must be >= 0")
      >> reject (not (is_zero o.quantity) && exceeds o.min_qty o.quantity)
          (field_error "Order.MinQty" "must not exceed Quantity")

  -- The `switch` on the order type.
  unfoldable pub validate_type_prices : Contract Decimal → Order Decimal → Option OrderError
  validate_type_prices c o =
      let no_limit = not (is_set o.lmt_price) in
      let no_aux = not (is_set o.aux_price) in
      let limit_missing = field_error "Order.LmtPrice" "is required for this order type" in
      if str_eq o.order_type order_type_limit
      then reject
          (no_limit && (not (str_eq c.sec_type sec_type_combo) || (length o.combo.leg_prices == 0)))
          limit_missing
      else (if str_eq o.order_type "LOC"
          then reject no_limit limit_missing
          else (if str_eq o.order_type "STP"
              then reject no_aux (field_error "Order.AuxPrice" "is required for a stop order")
              else (if is_one_of o.order_type ("STP LMT" ∷ "LIT" ∷ [])
                  then (reject no_limit limit_missing
                      >> reject no_aux
                          (field_error "Order.AuxPrice" "is required for this order type"))
                  else (if str_eq o.order_type "MIT"
                      then reject no_aux
                          (field_error "Order.AuxPrice" "is required for a market-if-touched order")
                      else (if is_one_of o.order_type ("TRAIL" ∷ "TRAIL LIMIT" ∷ [])
                          then reject (no_aux && not (is_set o.trailing_percent)) (
                              field_error "Order.AuxPrice"
                                "AuxPrice or TrailingPercent is required for a trailing order")
                          else none)))))

  unfoldable pub validate_order_prices : Contract Decimal → Order Decimal → Option OrderError
  validate_order_prices c o =
      reject (is_bad below_zero o.trailing_percent)
        (field_error "Order.TrailingPercent" "must be >= 0")
      >> reject (is_bad below_zero o.lmt_price_offset)
          (field_error "Order.LmtPriceOffset" "must be >= 0")
      >> validate_type_prices c o
