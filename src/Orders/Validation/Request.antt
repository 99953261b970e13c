-- ===== src/Orders/Validation/Request.antt =====
-- validateOrderRequest of order_validation.go.
use ibkr_go.Prelude.{is_negative, true, not, Option, ◌>>◌, reject, is_blank, is_one_of}
use ibkr_go.Orders.Decimals.{Decimals}
use ibkr_go.Orders.Contract.{order_actions}
use ibkr_go.Orders.Validation.Fields.{field_error, validate_order_id, valid_order_trigger_method}
use ibkr_go.Orders.Types.{PlaceOrderRequest, OrderError}
use ibkr_go.Orders.Validation.Parts.{
  validate_order_contract, validate_order_quantity, validate_order_prices, validate_order_tif,
  validate_order_oca, validate_order_combo,
}
use ibkr_go.Orders.Validation.Extras.{
  validate_order_scale, validate_order_auction, validate_order_short_sale, validate_order_hedge,
  validate_order_algorithm, validate_order_conditions, validate_order_adjustment,
  validate_order_pegged_benchmark,
}

module _ (d : Decimals) where
  open d use {Decimal}

  unfoldable pub validate_order_request : PlaceOrderRequest Decimal → Option OrderError
  validate_order_request req =
      let o = req.order in
      validate_order_contract req.contract
      >> reject (not (is_one_of o.action order_actions))
          (field_error "Order.Action" "must be BUY, SELL, SSHORT, or SLONG")
      >> reject (is_blank o.order_type) (field_error "Order.OrderType" "is required")
      >> validate_order_quantity d o
      >> validate_order_prices d req.contract o
      >> validate_order_tif o
      >> validate_order_id "Order.ParentID" o.parent_id true
      >> reject (is_negative o.display_size) (field_error "Order.DisplaySize" "must be >= 0")
      >> reject (not (valid_order_trigger_method o.trigger_method))
          (field_error "Order.TriggerMethod" "must be 0, 1, 2, 3, 4, 7, or 8")
      >> validate_order_oca o.oca
      >> validate_order_combo req.contract o
      >> validate_order_scale d o.scale
      >> validate_order_auction d o.auction
      >> validate_order_short_sale o
      >> validate_order_hedge o
      >> validate_order_algorithm o.algorithm
      >> validate_order_conditions o.conditions
      >> validate_order_adjustment d o.adjustment
      >> validate_order_pegged_benchmark d o
