-- ===== src/Orders/Validation/Extras.antt =====
-- order_validation.go: scale, auction, short sale, hedge, algorithm, conditions, adjustment, benchmark.
use ibkr_go.Prelude.{
  ℕ, ◌+◌, ℤ, pos, negsuc, ltz, is_negative, int_eq, String, Bool, false, not, ◌&&◌, ◌||◌, Option,
  none, some, List, [], ◌∷◌, ◌==◌, if◌then◌else◌, length, any, ◌>>◌, reject, is_empty, is_blank,
  is_one_of, str_eq,
}
use ibkr_go.Orders.Decimals.{Decimals}
use ibkr_go.Orders.Tags.{validate_tag_values}
use ibkr_go.Orders.Contract.{is_not_positive, is_bad_code}
use ibkr_go.Orders.Validation.Fields.{field_error, is_set, valid_order_trigger_method}
use ibkr_go.Orders.Types.{
  Order, OrderCondition, OrderConditions, OrderScale, OrderAuction, OrderAdjustment, OrderAlgorithm,
  OrderPeggedBenchmark, OrderError, invalid, element,
}
use ibkr_go.Orders.Validation.Parts.{is_bad}

unfoldable pub validate_order_short_sale : {D : Type 0} → Order D → Option OrderError
unfolding is_bad_code
validate_order_short_sale o =
    let s = o.short_sale in
    let given =
      not (int_eq s.slot (pos 0))
      || (not (is_empty s.designated_location) || is_set s.exempt_code) in
    let is_slot_2 = int_eq s.slot (pos 2) in
    if not given
    then none
    else (reject (not (is_one_of o.action ("SSHORT" ∷ "SLONG" ∷ [])))
          (field_error "Order.ShortSale" "requires Order.Action SSHORT or SLONG")
        >> reject (is_negative s.slot || ltz (pos 2) s.slot)
            (field_error "Order.ShortSale.Slot" "must be 0, 1, or 2")
        >> reject (is_slot_2 && is_blank s.designated_location)
            (field_error "Order.ShortSale.DesignatedLocation" "is required when Slot is 2")
        >> reject (not is_slot_2 && not (is_empty s.designated_location))
            (field_error "Order.ShortSale.DesignatedLocation" "requires Slot 2")
        >> reject (is_bad_code (λ x. ltz x (negsuc 0)) s.exempt_code)
            (field_error "Order.ShortSale.ExemptCode" "must be >= -1"))

-- HedgeDelta, HedgeBeta, HedgeFX, HedgePair
abbrev pub hedge_types : List String
hedge_types = "D" ∷ "B" ∷ "F" ∷ "P" ∷ []

unfoldable pub validate_order_hedge : {D : Type 0} → Order D → Option OrderError
unfolding is_bad_code
validate_order_hedge o =
    let h = o.hedge in
    if is_empty h.type_of
    then reject (not (is_empty h.param) || (is_set h.disable_automatic_price || is_set h.max_size))
        (field_error "Order.Hedge.Type" "is required when other hedge fields are set")
    else (reject (not (is_one_of h.type_of hedge_types))
          (field_error "Order.Hedge.Type" "must be D, B, F, or P")
        >> reject (is_not_positive o.parent_id)
            (field_error "Order.ParentID" "must identify the parent of a hedge order")
        >> reject (is_bad_code is_not_positive h.max_size)
            (field_error "Order.Hedge.MaxSize" "must be positive"))

unfoldable pub validate_order_algorithm : OrderAlgorithm → Option OrderError
validate_order_algorithm a =
    reject (is_empty a.strategy && not (length a.params == 0))
      (field_error "Order.Algorithm.Strategy" "is required when algorithm parameters are set")
    >> validate_tag_values "Order.Algorithm.Params" a.params

condition_error : ℕ → String → String → OrderError
condition_error i suffix message = invalid (element "Order.Conditions.Values" i suffix) message

abbrev pub int_one_of : ℤ → List ℤ → Bool
int_one_of x xs = any (λ y. int_eq x y) xs

-- The second `switch` on the type of a condition: price 1, time 3, margin 4, execution 5, volume 6,
-- percent change 7.
unfoldable pub validate_condition_payload : ℕ → OrderCondition → Option OrderError
unfolding condition_error
validate_condition_payload i c =
    if int_one_of c.type_of (pos 1 ∷ pos 6 ∷ pos 7 ∷ [])
    then (reject (is_not_positive c.con_id) (condition_error i ".ConID" "must be > 0")
        >> reject (is_blank c.exchange) (condition_error i ".Exchange" "is required")
        >> reject (is_blank c.value) (condition_error i ".Value" "is required")
        >> reject (int_eq c.type_of (pos 1) && not (valid_order_trigger_method c.trigger_method))
            (condition_error i ".TriggerMethod" "must be 0, 1, 2, 3, 4, 7, or 8"))
    else (if int_one_of c.type_of (pos 3 ∷ pos 4 ∷ [])
        then reject (is_blank c.value) (condition_error i ".Value" "is required")
        else (if int_eq c.type_of (pos 5)
            then reject (is_empty c.sec_type || (is_blank c.exchange || is_blank c.symbol))
                (condition_error i "" "execution conditions require SecType, Exchange, and Symbol")
            else none))

unfoldable pub validate_condition : ℕ → OrderCondition → Option OrderError
unfolding condition_error
validate_condition i c =
    reject (not (int_one_of c.type_of (pos 1 ∷ pos 3 ∷ pos 4 ∷ pos 5 ∷ pos 6 ∷ pos 7 ∷ [])))
      (condition_error i ".Type" "is not supported by the classic socket protocol")
    >> reject (not (is_one_of c.conjunction ("a" ∷ "o" ∷ [])))
        (condition_error i ".Conjunction" "must be ConditionAnd or ConditionOr")
    >> reject (not (int_eq c.type_of (pos 5)) && not (int_one_of c.operator (pos 1 ∷ pos 2 ∷ [])))
        (condition_error i ".Operator" "must be ConditionLess or ConditionMore")
    >> validate_condition_payload i c

unfoldable pub validate_conditions_from : ℕ → List OrderCondition → Option OrderError
validate_conditions_from i [] = none
validate_conditions_from i (c ∷ cs) = validate_condition i c >> validate_conditions_from (i + 1) cs

unfoldable pub validate_order_conditions : OrderConditions → Option OrderError
validate_order_conditions c =
    if length c.values == 0
    then reject (c.ignore_rth || c.cancel_order)
        (field_error "Order.Conditions.Values" "is required when condition flags are set")
    else validate_conditions_from 0 c.values

module _ (d : Decimals) where
  open d use {Decimal, from_int, is_negative as below_zero, is_positive, is_zero, greater_than}

  unfoldable pub validate_order_scale : OrderScale Decimal → Option OrderError
  unfolding is_bad_code
  validate_order_scale s =
      let extended =
        is_set s.price_adjust_value
        || (is_set s.price_adjust_interval
            || (is_set s.profit_offset
                || (is_set s.auto_reset
                    || (is_set s.initial_position
                        || (is_set s.initial_fill_qty || is_set s.random_percent))))) in
      reject (is_negative s.initial_level_size)
        (field_error "Order.Scale.InitialLevelSize" "must be >= 0")
      >> reject (is_negative s.subsequent_level_size)
          (field_error "Order.Scale.SubsequentLevelSize" "must be >= 0")
      >> reject (below_zero s.price_increment)
          (field_error "Order.Scale.PriceIncrement" "must be >= 0")
      >> reject (extended && not (is_positive s.price_increment)) (
          field_error "Order.Scale.PriceIncrement"
            "must be positive when scale adjustment fields are set")
      >> reject (is_bad_code is_negative s.price_adjust_interval)
          (field_error "Order.Scale.PriceAdjustInterval" "must be >= 0")
      >> reject (is_bad_code is_negative s.initial_position)
          (field_error "Order.Scale.InitialPosition" "must be >= 0")
      >> reject (is_bad_code is_negative s.initial_fill_qty)
          (field_error "Order.Scale.InitialFillQty" "must be >= 0")
      >> reject (is_bad d below_zero s.price_adjust_value)
          (field_error "Order.Scale.PriceAdjustValue" "must be >= 0")
      >> reject (is_bad d below_zero s.profit_offset)
          (field_error "Order.Scale.ProfitOffset" "must be >= 0")

  abbrev pub out_of_order : Option Decimal → Option Decimal → Bool
  out_of_order (some low) (some high) = greater_than low high
  out_of_order _ _ = false

  unfoldable pub validate_order_auction : OrderAuction Decimal → Option OrderError
  validate_order_auction a =
      reject (out_of_order a.stock_range_lower a.stock_range_upper)
        (field_error "Order.Auction.StockRangeLower" "must not exceed StockRangeUpper")

  unfoldable pub validate_order_adjustment : OrderAdjustment Decimal → Option OrderError
  validate_order_adjustment a =
      let adjusts =
        not (is_zero a.trigger_price)
        || (not (is_zero a.stop_price)
            || (not (is_zero a.stop_limit_price)
                || (not (is_zero a.trailing_amount) || not (int_eq a.trailing_unit (pos 0))))) in
      reject (below_zero a.trailing_amount)
        (field_error "Order.Adjustment.TrailingAmount" "must be >= 0")
      >> reject (not (int_one_of a.trailing_unit (pos 0 ∷ pos 1 ∷ [])))
          (field_error "Order.Adjustment.TrailingUnit" "must be 0 (amount) or 1 (percent)")
      >> reject (is_empty a.order_type && adjusts)
          (field_error "Order.Adjustment.OrderType" "is required when adjustment fields are set")
      >> reject (not (is_empty a.order_type) && is_zero a.trigger_price)
          (field_error "Order.Adjustment.TriggerPrice" "is required for an adjusted order")

  unfoldable pub validate_benchmark :
      Order Decimal → Option (OrderPeggedBenchmark Decimal) → Option OrderError
  validate_benchmark o none =
      some (field_error "Order.PeggedBenchmark" "is required for Order.OrderType PEG BENCH")
  validate_benchmark o (some p) =
      reject (is_not_positive p.reference_contract_id)
        (field_error "Order.PeggedBenchmark.ReferenceContractID" "must be positive")
      >> reject (below_zero p.change_amount)
          (field_error "Order.PeggedBenchmark.ChangeAmount" "must be >= 0")
      >> reject (is_bad d below_zero p.reference_change_amount)
          (field_error "Order.PeggedBenchmark.ReferenceChangeAmount" "must be >= 0")
      >> reject (is_blank p.reference_exchange_id)
          (field_error "Order.PeggedBenchmark.ReferenceExchangeID" "is required")
      >> reject (not (is_set o.auction.starting_price))
          (field_error "Order.Auction.StartingPrice" "is required for OrderType PEG BENCH")
      >> reject (not (is_set o.auction.stock_ref_price))
          (field_error "Order.Auction.StockRefPrice" "is required for OrderType PEG BENCH")
      >> reject (not (is_set o.auction.stock_range_lower))
          (field_error "Order.Auction.StockRangeLower" "is required for OrderType PEG BENCH")
      >> reject (not (is_set o.auction.stock_range_upper))
          (field_error "Order.Auction.StockRangeUpper" "is required for OrderType PEG BENCH")

  unfoldable pub validate_order_pegged_benchmark : Order Decimal → Option OrderError
  unfolding validate_benchmark
  validate_order_pegged_benchmark o =
      if str_eq o.order_type "PEG BENCH"
      then validate_benchmark o o.pegged_benchmark
      else reject (is_set o.pegged_benchmark)
          (field_error "Order.PeggedBenchmark" "requires Order.OrderType PEG BENCH")
