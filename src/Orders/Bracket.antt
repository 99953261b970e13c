-- ===== src/Orders/Bracket.antt =====
-- prepareBracketRequest of order_validation.go.
pub mod Laws
use ibkr_go.Prelude.{
  ℕ, zero, suc, ◌+◌, ◌-◌, ◌*◌, ◌/◌, ◌%◌, ◌^◌, ◌≤◌, ◌<◌, max, ℤ, pos, negsuc, ltz, is_negative,
  int_eq, String, string_append, ◌≡◌, refl, sym, ap, ◌∙◌, subst, ◌≢◌, ◌↔◌, ◌⊎◌, inl, inr, Bool,
  true, false, not, ◌&&◌, ◌||◌, Option, none, some, List, [], ◌∷◌, ◌++◌, map, append_assoc,
  append-nil, arith, ltb, leb, ◌==◌, if◌then◌else◌, ltb→lt, lt→ltb, le→ltb, ==_iff, Bool-cases,
  Option-cases, if_both, or_else_both, Memᴰ, any-mem, all-mem, length, take, drop, length-append,
  take-append-drop, length-take, length-drop, take-append_left, drop-append_left, all, any, All,
  Result, ok, err, ◌>>◌, reject, is_space, trim_space, is_empty, is_blank, is_one_of, str_eq,
  eq_iff,
}
use ibkr_go.Orders.Decimals.{Decimals}
use ibkr_go.Orders.Tags.{validate_tag_values}
use ibkr_go.Orders.Contract.{
  validate_contract, sec_type_combo, order_actions, is_not_positive, is_bad_code,
}
use ibkr_go.Orders.Validation.Fields.{
  field_error, is_set, max_order_id, validate_order_id, valid_order_trigger_method,
}
use ibkr_go.Orders.Types.{Order, PlaceOrderRequest, PlaceBracketRequest, OrderError}
use ibkr_go.Orders.Validation.Request.{validate_order_request}

-- The first loop: PlaceBracket itself sets the parent, the transmit flag and the quantity's kind.
unfoldable pub check_untouched : {D : Type 0} → String → Order D → Option OrderError
check_untouched name o =
    reject (not (int_eq o.parent_id (pos 0)))
      (field_error (string_append name ".ParentID") "must be zero; PlaceBracket assigns it")
    >> reject (is_set o.transmit) (
        field_error (string_append name ".Transmit")
          "must be nil; PlaceBracket controls transmit sequencing")
    >> reject (is_set o.cash_qty) (
        field_error (string_append name ".CashQty")
          "cash-quantity orders are not supported in a bracket")

-- The action that closes a position, if the action that opens it is defined.
unfoldable pub closing_action : String → Option String
closing_action action =
    if str_eq action "BUY"
    then some "SELL"
    else (if is_one_of action ("SELL" ∷ "SSHORT" ∷ "SLONG" ∷ []) then some "BUY" else none)

module _ (d : Decimals) where
  open d use {Decimal, equal}

  -- The body of the second loop.
  unfoldable pub check_child : String → String → Order Decimal → Order Decimal → Option OrderError
  check_child closing name parent child =
      reject (not (str_eq child.action closing))
        (field_error (string_append name ".Action") "must close the parent position")
      >> reject (not (equal child.quantity parent.quantity))
          (field_error (string_append name ".Quantity") "must equal Parent.Quantity")
      >> reject (not (str_eq child.account parent.account))
          (field_error (string_append name ".Account") "must equal Parent.Account")

  unfoldable pub check_children : Option String → PlaceBracketRequest Decimal → Option OrderError
  check_children none req = some (field_error "Parent.Action" "must be a defined order action")
  check_children (some closing) req =
      check_child closing "TakeProfit" req.parent req.take_profit
      >> check_child closing "StopLoss" req.parent req.stop_loss

  -- The assignments: the parent ID 1 stands for the one the engine allocates.
  unfoldable pub sequence_bracket : PlaceBracketRequest Decimal → PlaceBracketRequest Decimal
  sequence_bracket req = record req {
    parent = record (req.parent) { transmit = some false };
    take_profit = record (req.take_profit) { parent_id = pos 1; transmit = some false };
    stop_loss = record (req.stop_loss) { parent_id = pos 1; transmit = some true };
  }

  unfoldable pub check_bracket_orders : PlaceBracketRequest Decimal → Option OrderError
  check_bracket_orders req =
      validate_order_request d (record { contract = req.contract; order = req.parent })
      >> validate_order_request d (record { contract = req.contract; order = req.take_profit })
      >> validate_order_request d (record { contract = req.contract; order = req.stop_loss })

  -- What is checked before the assignments.
  unfoldable pub check_bracket : PlaceBracketRequest Decimal → Option OrderError
  unfolding check_children
  check_bracket req =
      check_untouched "Parent" req.parent
      >> check_untouched "TakeProfit" req.take_profit
      >> check_untouched "StopLoss" req.stop_loss
      >> check_children (closing_action req.parent.action) req

  -- An error in place of the request, or the request itself.
  abbrev pub answer {ℓ} : {A : Type ℓ} → Option OrderError → A → Result OrderError A
  answer none a = ok a
  answer (some e) a = err e

  unfoldable pub prepare_bracket_request :
      PlaceBracketRequest Decimal → Result OrderError (PlaceBracketRequest Decimal)
  unfolding check_bracket sequence_bracket
  prepare_bracket_request req =
      let sequenced = sequence_bracket req in
      answer (check_bracket req >> check_bracket_orders sequenced) sequenced
