-- ===== src/Tests/BracketTests.antt =====
-- The placement of a bracket.
use ibkr_go.Prelude.{if◌then◌else◌, ◌==◌, Option, ℕ, ℤ, pos, ◌≡◌, refl, none, some, [], ◌∷◌}
use ibkr_go.Orders.Types.{PlaceBracketRequest}
use ibkr_go.Orders.Bracket.{sequence_bracket}
use ibkr_go.Engine.Ids.{Ids}
use ibkr_go.Engine.Ids.History.{start_ids}
use ibkr_go.Errors.Tree.{Err, plain_error}
use ibkr_go.Engine.Brackets.{place_orders, send_orders, finish_bracket, assign_parent}
use ibkr_go.Tests.OrderTests.{int_decimals, stock, limit_order, stop_order, target_order}

abbrev bracket : PlaceBracketRequest ℤ
bracket = record {
  contract = stock;
  parent = limit_order;
  take_profit = target_order;
  stop_loss = stop_order;
}

-- The queue is full at the third order.
abbrev full_at_42 : ℕ → Option Err
full_at_42 id = if id == 42 then some (plain_error "send queue full") else none

abbrev admitted : ℕ → Option Err
admitted id = none

-- The Gateway reports 40.
abbrev from_40 : Ids
from_40 = record start_ids { next_valid_id = 40 }

two_cancelled :
    (place_orders full_at_42 admitted
      (sequence_bracket int_decimals bracket)
      40
      41
      42
      from_40).cancelled
    ≡ 40 ∷ 41 ∷ []
unfolding place_orders send_orders finish_bracket assign_parent sequence_bracket
two_cancelled = refl

children_name_40 :
    (place_orders admitted admitted
      (sequence_bracket int_decimals bracket)
      40
      41
      42
      from_40).request.stop_loss.parent_id
    ≡ pos 40
unfolding place_orders send_orders finish_bracket assign_parent sequence_bracket
children_name_40 = refl
