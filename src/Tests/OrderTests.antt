-- ===== src/Tests/OrderTests.antt =====
-- Orders that are accepted, over whole numbers as decimals.
use ibkr_go.Prelude.{
  ℕ, ◌^◌, ◌≤◌, ◌<◌, ℤ, pos, ltz, is_negative, int_eq, String, ◌≡◌, refl, ◌↔◌, ◌⊎◌, Bool, true,
  false, ◌||◌, none, some, List, [], ◌∷◌, length, All, trim_space, is_empty,
}
use ibkr_go.Orders.Types.{TagValue, ComboLeg, Contract, Order, PlaceOrderRequest}
use ibkr_go.Orders.Decimals.{Decimals}
use ibkr_go.Orders.Contract.{validate_contract, validate_leg}
use ibkr_go.Orders.Tags.{validate_tag_values, tags_from}
use ibkr_go.Orders.Tags.Laws.{validate_tag_values_iff, Distinct, trimmed_tags}
use ibkr_go.Orders.Versions.{validate_order_server_version}
use ibkr_go.Orders.Versions.Laws.{validate_order_server_version_iff}
use ibkr_go.Orders.Validation.Fields.{is_set, validate_order_id, valid_order_trigger_method}
use ibkr_go.Orders.Validation.Parts.{
  validate_order_contract, validate_order_quantity, validate_order_prices, validate_type_prices,
  validate_order_tif, validate_order_oca, validate_order_combo, exceeds,
}
use ibkr_go.Orders.Validation.Extras.{
  validate_order_scale, validate_order_auction, validate_order_short_sale, validate_order_hedge,
  validate_order_algorithm, validate_order_conditions, validate_order_adjustment,
  validate_order_pegged_benchmark,
}
use ibkr_go.Orders.Validation.Request.{validate_order_request}
use ibkr_go.Orders.Validation.Accepted.{
  validate_order_request-one_size, validate_order_request-limit_price,
  validate_order_request-parent_id, validate_order_request-good_till_date,
  validate_order_request-benchmark,
}

abbrev is_above_zero : ℤ → Bool
is_above_zero x = ltz (pos 0) x

abbrev pub int_decimals : Decimals
int_decimals = record {
  Decimal = ℤ;
  from_int = λ x. x;
  is_negative = is_negative;
  is_positive = is_above_zero;
  is_zero = λ x. int_eq x (pos 0);
  greater_than = λ x y. ltz y x;
  equal = int_eq;
}

abbrev pub stock : Contract ℤ
stock = record {
  con_id = pos 265598;
  symbol = "AAPL";
  sec_type = "STK";
  expiry = "";
  strike = none;
  right = "";
  multiplier = "";
  exchange = "SMART";
  currency = "USD";
  local_symbol = "";
  trading_class = "";
  primary_exchange = "";
  include_expired = false;
  security_id = record { type_of = ""; value = "" };
  issuer_id = "";
  combo_legs = [];
  delta_neutral = none;
}

abbrev pub limit_order : Order ℤ
limit_order = record {
  action = "BUY";
  order_type = "LMT";
  quantity = pos 10;
  lmt_price = some (pos 150);
  aux_price = none;
  tif = "DAY";
  account = "DU1";
  transmit = none;
  parent_id = pos 0;
  oca = record { group = ""; type_of = pos 0 };
  outside_rth = false;
  include_overnight = none;
  trigger_method = pos 0;
  display_size = pos 0;
  order_ref = "";
  good_after_time = "";
  good_till_date = "";
  all_or_none = none;
  min_qty = some (pos 5);
  percent_offset = none;
  trail_stop_price = none;
  trailing_percent = none;
  lmt_price_offset = none;
  scale = record {
    initial_level_size = pos 0;
    subsequent_level_size = pos 0;
    price_increment = pos 0;
    price_adjust_value = none;
    price_adjust_interval = none;
    profit_offset = none;
    auto_reset = none;
    initial_position = none;
    initial_fill_qty = none;
    random_percent = none;
    table = "";
    active_start_time = "";
    active_stop_time = "";
  };
  auction = record {
    starting_price = none;
    stock_ref_price = none;
    delta = none;
    stock_range_lower = none;
    stock_range_upper = none;
  };
  short_sale = record { slot = pos 0; designated_location = ""; exempt_code = none };
  hedge = record { type_of = ""; param = ""; disable_automatic_price = none; max_size = none };
  combo = record { leg_prices = []; smart_routing = [] };
  algorithm = record {
    strategy = "Adaptive";
    params = record { tag = "adaptivePriority"; value = "Normal" } ∷ [];
  };
  conditions = record { values = []; ignore_rth = false; cancel_order = false };
  adjustment = record {
    order_type = "";
    trigger_price = pos 0;
    stop_price = pos 0;
    stop_limit_price = pos 0;
    trailing_amount = pos 0;
    trailing_unit = pos 0;
  };
  pegged_benchmark = none;
  cash_qty = none;
  use_price_mgmt_algo = none;
  advanced_error_override = "";
  manual_order_time = "";
  deactivate = false;
  post_only = true;
  allow_pre_open = false;
  ignore_open_auction = false;
  route_marketable_to_bbo = none;
  seek_price_improvement = none;
  what_if_type = none;
}

abbrev pub stop_order : Order ℤ
stop_order = record limit_order {
  action = "SELL";
  order_type = "STP";
  lmt_price = none;
  aux_price = some (pos 140);
}

abbrev pub target_order : Order ℤ
target_order = record limit_order { action = "SELL"; lmt_price = some (pos 160) }

abbrev gtd_order : Order ℤ
gtd_order = record limit_order { tif = "GTD"; good_till_date = "20260101 00:00:00" }

abbrev hedge_order : Order ℤ
hedge_order = record limit_order {
  order_type = "MKT";
  quantity = pos 0;
  lmt_price = none;
  min_qty = none;
  parent_id = pos 7;
  hedge = record { type_of = "B"; param = "0.8"; disable_automatic_price = none; max_size = none };
}

abbrev benchmark_order : Order ℤ
benchmark_order = record limit_order {
  order_type = "PEG BENCH";
  lmt_price = none;
  auction = record {
    starting_price = some (pos 100);
    stock_ref_price = some (pos 100);
    delta = none;
    stock_range_lower = some (pos 90);
    stock_range_upper = some (pos 110);
  };
  pegged_benchmark = some (record {
    reference_contract_id = pos 8314;
    change_amount_decrease = false;
    change_amount = pos 1;
    reference_change_amount = none;
    reference_exchange_id = "NYSE";
  });
}

abbrev leg_of : ℤ → String → ComboLeg
leg_of id action = record {
  con_id = id;
  ratio = pos 1;
  action = action;
  exchange = "SMART";
  open_close = pos 0;
  short_sale_slot = pos 0;
  designated_location = "";
  exempt_code = none;
}

abbrev spread : Contract ℤ
spread = record stock {
  con_id = pos 0;
  symbol = "AAPL";
  sec_type = "BAG";
  combo_legs = leg_of (pos 1) "BUY" ∷ leg_of (pos 2) "SELL" ∷ [];
}

abbrev spread_order : Order ℤ
spread_order = record limit_order {
  lmt_price = none;
  combo = record { leg_prices = some (pos 3) ∷ some (pos 2) ∷ []; smart_routing = [] };
}

-- A combination with no price at all.
abbrev unpriced_order : Order ℤ
unpriced_order = record spread_order {
  combo = record { leg_prices = none ∷ none ∷ []; smart_routing = [] };
}

abbrev request : Contract ℤ → Order ℤ → PlaceOrderRequest ℤ
request c o = record { contract = c; order = o }

limit_accepted : validate_order_request int_decimals (request stock limit_order) ≡ none
unfolding validate_order_request validate_order_contract validate_contract validate_order_quantity
    validate_order_prices validate_type_prices validate_order_tif validate_order_id
    valid_order_trigger_method validate_order_oca validate_order_combo validate_order_scale
    validate_order_auction validate_order_short_sale validate_order_hedge validate_order_algorithm
    validate_order_conditions validate_order_adjustment validate_order_pegged_benchmark
    validate_tag_values tags_from exceeds trim_space validate_leg
limit_accepted = refl

gtd_accepted : validate_order_request int_decimals (request stock gtd_order) ≡ none
unfolding validate_order_request validate_order_contract validate_contract validate_order_quantity
    validate_order_prices validate_type_prices validate_order_tif validate_order_id
    valid_order_trigger_method validate_order_oca validate_order_combo validate_order_scale
    validate_order_auction validate_order_short_sale validate_order_hedge validate_order_algorithm
    validate_order_conditions validate_order_adjustment validate_order_pegged_benchmark
    validate_tag_values tags_from exceeds trim_space validate_leg
gtd_accepted = refl

hedge_accepted : validate_order_request int_decimals (request stock hedge_order) ≡ none
unfolding validate_order_request validate_order_contract validate_contract validate_order_quantity
    validate_order_prices validate_type_prices validate_order_tif validate_order_id
    valid_order_trigger_method validate_order_oca validate_order_combo validate_order_scale
    validate_order_auction validate_order_short_sale validate_order_hedge validate_order_algorithm
    validate_order_conditions validate_order_adjustment validate_order_pegged_benchmark
    validate_tag_values tags_from exceeds trim_space validate_leg
hedge_accepted = refl

benchmark_accepted : validate_order_request int_decimals (request stock benchmark_order) ≡ none
unfolding validate_order_request validate_order_contract validate_contract validate_order_quantity
    validate_order_prices validate_type_prices validate_order_tif validate_order_id
    valid_order_trigger_method validate_order_oca validate_order_combo validate_order_scale
    validate_order_auction validate_order_short_sale validate_order_hedge validate_order_algorithm
    validate_order_conditions validate_order_adjustment validate_order_pegged_benchmark
    validate_tag_values tags_from exceeds trim_space validate_leg
benchmark_accepted = refl

spread_accepted : validate_order_request int_decimals (request spread spread_order) ≡ none
unfolding validate_order_request validate_order_contract validate_contract validate_order_quantity
    validate_order_prices validate_type_prices validate_order_tif validate_order_id
    valid_order_trigger_method validate_order_oca validate_order_combo validate_order_scale
    validate_order_auction validate_order_short_sale validate_order_hedge validate_order_algorithm
    validate_order_conditions validate_order_adjustment validate_order_pegged_benchmark
    validate_tag_values tags_from exceeds trim_space validate_leg
spread_accepted = refl

unpriced_accepted : validate_order_request int_decimals (request spread unpriced_order) ≡ none
unfolding validate_order_request validate_order_contract validate_contract validate_order_quantity
    validate_order_prices validate_type_prices validate_order_tif validate_order_id
    valid_order_trigger_method validate_order_oca validate_order_combo validate_order_scale
    validate_order_auction validate_order_short_sale validate_order_hedge validate_order_algorithm
    validate_order_conditions validate_order_adjustment validate_order_pegged_benchmark
    validate_tag_values tags_from exceeds trim_space validate_leg
unpriced_accepted = refl

validate_order_request-one_size_example :
    (is_negative hedge_order.quantity ≡ false)
    × (int_eq hedge_order.quantity (pos 0) ≡ false → is_set hedge_order.cash_qty ≡ false)
    × ((x : ℤ)
        → hedge_order.cash_qty ≡ some x
        → (is_above_zero x ≡ true) × (int_eq hedge_order.quantity (pos 0) ≡ true))
    × (int_eq hedge_order.quantity (pos 0) ≡ true
        → is_set hedge_order.cash_qty ≡ false
        → is_empty hedge_order.hedge.type_of ≡ false)
validate_order_request-one_size_example =
    validate_order_request-one_size int_decimals (request stock hedge_order) hedge_accepted

validate_order_request-limit_price_example :
    (is_set unpriced_order.lmt_price ≡ true)
    ⊎ ((spread.sec_type ≡ "BAG")
        × (2 ≤ length spread.combo_legs)
        × (length unpriced_order.combo.leg_prices ≡ length spread.combo_legs))
validate_order_request-limit_price_example =
    validate_order_request-limit_price int_decimals (request spread unpriced_order)
      unpriced_accepted refl

validate_order_request-parent_id_example :
    (n : ℕ) × (hedge_order.parent_id ≡ pos n)
    × (n < 2 ^ 31)
    × (is_empty hedge_order.hedge.type_of ≡ false → 1 ≤ n)
validate_order_request-parent_id_example =
    validate_order_request-parent_id int_decimals (request stock hedge_order) hedge_accepted

validate_order_request-good_till_date_example :
    (gtd_order.tif ≡ "GTD") ↔ (is_empty gtd_order.good_till_date ≡ false)
validate_order_request-good_till_date_example =
    validate_order_request-good_till_date int_decimals (request stock gtd_order) gtd_accepted

validate_order_request-benchmark_example :
    (benchmark_order.order_type ≡ "PEG BENCH") ↔ (is_set benchmark_order.pegged_benchmark ≡ true)
validate_order_request-benchmark_example =
    validate_order_request-benchmark int_decimals (request stock benchmark_order) benchmark_accepted

validate_order_server_version_iff_example :
    (validate_order_server_version limit_order 215 ≡ none) ↔ (
      ((limit_order.deactivate
            || (limit_order.post_only
                || (limit_order.allow_pre_open || limit_order.ignore_open_auction)))
          ≡ true
        → 216 ≤ 215)
      × ((is_set limit_order.route_marketable_to_bbo
              || (is_set limit_order.seek_price_improvement || is_set limit_order.what_if_type))
            ≡ true
          → 217 ≤ 215)
      × (is_set limit_order.hedge.max_size ≡ true → 223 ≤ 215))
validate_order_server_version_iff_example = validate_order_server_version_iff limit_order 215

abbrev two_tags : List TagValue
two_tags = record { tag = "a"; value = "1" } ∷ record { tag = " a "; value = "2" } ∷ []

validate_tag_values_iff_example :
    (validate_tag_values "Order.Algorithm.Params" two_tags ≡ none)
    ↔ (All (λ t. is_empty t ≡ false) (trimmed_tags two_tags) × Distinct (trimmed_tags two_tags))
validate_tag_values_iff_example = validate_tag_values_iff "Order.Algorithm.Params" two_tags
