-- ===== src/Orders/Bracket/Laws.antt =====
-- What a prepared bracket is.
use ibkr_go.Prelude.{
  pos, int_eq-eq, String, ◌≡◌, refl, sym, ap, subst, true, false, Option, none, some, arith, ok,
  ◌>>◌, eq_iff,
}
use ibkr_go.Orders.Decimals.{Decimals}
use ibkr_go.Orders.Types.{Order, PlaceBracketRequest, OrderError}
use ibkr_go.Orders.Bracket.{
  check_untouched, closing_action, check_child, check_children, sequence_bracket, check_bracket,
  check_bracket_orders, answer, prepare_bracket_request,
}

module _ (d : Decimals) where
  open d use {Decimal, equal}

  -- The children close what the parent opens.
  pub record Children (closing : Option String) (req : PlaceBracketRequest Decimal) : Type 0 where
    pub take_profit_closes : closing ≡ some req.take_profit.action
    pub stop_loss_closes : closing ≡ some req.stop_loss.action
    pub take_profit_size : equal req.take_profit.quantity req.parent.quantity ≡ true
    pub stop_loss_size : equal req.stop_loss.quantity req.parent.quantity ≡ true
    pub take_profit_account : req.take_profit.account ≡ req.parent.account
    pub stop_loss_account : req.stop_loss.account ≡ req.parent.account

  -- Only the last of the three orders transmits.
  pub record Sequenced (req : PlaceBracketRequest Decimal) : Type 0 where
    pub parent_held : req.parent.transmit ≡ some false
    pub take_profit_held : req.take_profit.transmit ≡ some false
    pub stop_loss_sent : req.stop_loss.transmit ≡ some true
    pub parent_is_root : req.parent.parent_id ≡ pos 0
    pub take_profit_is_child : req.take_profit.parent_id ≡ pos 1
    pub stop_loss_is_child : req.stop_loss.parent_id ≡ pos 1
    pub closing : Children (closing_action req.parent.action) req
    pub accepted : check_bracket_orders d req ≡ none

  answer-ok :
      (e : Option OrderError) {A : Type 0} {a b : A} → answer d e a ≡ ok b → (e ≡ none) × (a ≡ b)
  answer-ok none h = (refl, ground arith)
  answer-ok (some e) h = ground arith

  check_child-none :
      (closing name : String) (parent child : Order Decimal)
      → check_child d closing name parent child ≡ none
      → (child.action ≡ closing)
        × (equal child.quantity parent.quantity ≡ true)
        × (child.account ≡ parent.account)
  unfolding check_child
  check_child-none closing name parent child h = (
    (eq_iff child.action closing).0 (ground arith),
    ground arith,
    (eq_iff child.account parent.account).0 (ground arith),
  )

  check_untouched-none :
      (name : String) (o : Order Decimal) → check_untouched name o ≡ none → o.parent_id ≡ pos 0
  unfolding check_untouched
  check_untouched-none name o h = int_eq-eq o.parent_id 0 (ground arith)

  check_children-none :
      (closing : Option String) (req : PlaceBracketRequest Decimal)
      → check_children d closing req ≡ none
      → Children closing req
  unfolding check_children
  check_children-none none req h = ground arith
  check_children-none (some closing) req h =
      let tp = check_child-none closing "TakeProfit" req.parent req.take_profit (ground arith) in
      let sl = check_child-none closing "StopLoss" req.parent req.stop_loss (ground arith) in
      record {
        take_profit_closes = ap some (sym tp.0);
        stop_loss_closes = ap some (sym sl.0);
        take_profit_size = tp.1;
        stop_loss_size = sl.1;
        take_profit_account = tp.2;
        stop_loss_account = sl.2;
      }

  -- A bracket that is accepted is prepared so that only its last order transmits, the parent is
  -- the root, both children have the placeholder for its ID, close its position with its size and
  -- account, and each of the three orders passes the validation of a single order.
  pub prepare_bracket_request-Sequenced :
      (req prepared : PlaceBracketRequest Decimal)
      → prepare_bracket_request d req ≡ ok prepared
      → Sequenced prepared
  unfolding prepare_bracket_request check_bracket sequence_bracket
  prepare_bracket_request-Sequenced req prepared h =
      let split =
        answer-ok (check_bracket d req >> check_bracket_orders d (sequence_bracket d req)) h in
      let checked : (check_bracket d req ≡ none)
          × (check_bracket_orders d (sequence_bracket d req) ≡ none) =
        (ground (arith, split.0), ground (arith, split.0)) in
      let c =
        check_children-none (closing_action req.parent.action) req (ground (arith, checked.0)) in
      subst Sequenced split.1 (record {
        parent_held = refl;
        take_profit_held = refl;
        stop_loss_sent = refl;
        parent_is_root = check_untouched-none "Parent" req.parent (ground (arith, checked.0));
        take_profit_is_child = refl;
        stop_loss_is_child = refl;
        closing = record {
          take_profit_closes = c.take_profit_closes;
          stop_loss_closes = c.stop_loss_closes;
          take_profit_size = c.take_profit_size;
          stop_loss_size = c.stop_loss_size;
          take_profit_account = c.take_profit_account;
          stop_loss_account = c.stop_loss_account;
        };
        accepted = checked.1;
      })
