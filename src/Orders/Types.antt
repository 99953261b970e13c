-- ===== src/Orders/Types.antt =====
-- types_contract.go, types_order.go and errors.go: contracts, orders and validation errors, over the
-- type of decimals. A Go string type is a text, an int is an integer, a pointer is an option.
use ibkr_go.Prelude.{ℕ, ℤ, String, Bool, List, Option}

pub record TagValue : Type 0 where
  pub tag : String
  pub value : String

pub record SecurityId : Type 0 where
  pub type_of : String
  pub value : String

pub record ComboLeg : Type 0 where
  pub con_id : ℤ
  pub ratio : ℤ
  pub action : String
  pub exchange : String
  pub open_close : ℤ
  pub short_sale_slot : ℤ
  pub designated_location : String
  pub exempt_code : Option ℤ

pub record DeltaNeutralContract (D : Type 0) : Type 0 where
  pub con_id : ℤ
  pub delta : D
  pub price : D

pub record Contract (D : Type 0) : Type 0 where
  pub con_id : ℤ
  pub symbol : String
  pub sec_type : String
  pub expiry : String
  pub strike : Option D
  pub right : String
  pub multiplier : String
  pub exchange : String
  pub currency : String
  pub local_symbol : String
  pub trading_class : String
  pub primary_exchange : String
  pub include_expired : Bool
  pub security_id : SecurityId
  pub issuer_id : String
  pub combo_legs : List ComboLeg
  pub delta_neutral : Option (DeltaNeutralContract D)

pub record OrderCondition : Type 0 where
  pub type_of : ℤ
  pub conjunction : String
  pub con_id : ℤ
  pub exchange : String
  pub operator : ℤ
  pub value : String
  pub trigger_method : ℤ
  pub sec_type : String
  pub symbol : String

pub record OrderOca : Type 0 where
  pub group : String
  pub type_of : ℤ

pub record OrderCombo (D : Type 0) : Type 0 where
  pub leg_prices : List (Option D)
  pub smart_routing : List TagValue

pub record OrderScale (D : Type 0) : Type 0 where
  pub initial_level_size : ℤ
  pub subsequent_level_size : ℤ
  pub price_increment : D
  pub price_adjust_value : Option D
  pub price_adjust_interval : Option ℤ
  pub profit_offset : Option D
  pub auto_reset : Option Bool
  pub initial_position : Option ℤ
  pub initial_fill_qty : Option ℤ
  pub random_percent : Option Bool
  pub table : String
  pub active_start_time : String
  pub active_stop_time : String

pub record OrderShortSale : Type 0 where
  pub slot : ℤ
  pub designated_location : String
  pub exempt_code : Option ℤ

pub record OrderHedge : Type 0 where
  pub type_of : String
  pub param : String
  pub disable_automatic_price : Option Bool
  pub max_size : Option ℤ

pub record OrderAlgorithm : Type 0 where
  pub strategy : String
  pub params : List TagValue

pub record OrderConditions : Type 0 where
  pub values : List OrderCondition
  pub ignore_rth : Bool
  pub cancel_order : Bool

pub record OrderAdjustment (D : Type 0) : Type 0 where
  pub order_type : String
  pub trigger_price : D
  pub stop_price : D
  pub stop_limit_price : D
  pub trailing_amount : D
  pub trailing_unit : ℤ

pub record OrderPeggedBenchmark (D : Type 0) : Type 0 where
  pub reference_contract_id : ℤ
  pub change_amount_decrease : Bool
  pub change_amount : D
  pub reference_change_amount : Option D
  pub reference_exchange_id : String

pub record OrderAuction (D : Type 0) : Type 0 where
  pub starting_price : Option D
  pub stock_ref_price : Option D
  pub delta : Option D
  pub stock_range_lower : Option D
  pub stock_range_upper : Option D

pub record Order (D : Type 0) : Type 0 where
  pub action : String
  pub order_type : String
  pub quantity : D
  pub lmt_price : Option D
  pub aux_price : Option D
  pub tif : String
  pub account : String
  pub transmit : Option Bool
  pub parent_id : ℤ
  pub oca : OrderOca
  pub outside_rth : Bool
  pub include_overnight : Option Bool
  pub trigger_method : ℤ
  pub display_size : ℤ
  pub order_ref : String
  pub good_after_time : String
  pub good_till_date : String
  pub all_or_none : Option Bool
  pub min_qty : Option ℤ
  pub percent_offset : Option D
  pub trail_stop_price : Option D
  pub trailing_percent : Option D
  pub lmt_price_offset : Option D
  pub scale : OrderScale D
  pub auction : OrderAuction D
  pub short_sale : OrderShortSale
  pub hedge : OrderHedge
  pub combo : OrderCombo D
  pub algorithm : OrderAlgorithm
  pub conditions : OrderConditions
  pub adjustment : OrderAdjustment D
  pub pegged_benchmark : Option (OrderPeggedBenchmark D)
  pub cash_qty : Option D
  pub use_price_mgmt_algo : Option Bool
  pub advanced_error_override : String
  pub manual_order_time : String
  pub deactivate : Bool
  pub post_only : Bool
  pub allow_pre_open : Bool
  pub ignore_open_auction : Bool
  pub route_marketable_to_bbo : Option Bool
  pub seek_price_improvement : Option Bool
  pub what_if_type : Option ℤ

pub record PlaceOrderRequest (D : Type 0) : Type 0 where
  pub contract : Contract D
  pub order : Order D

pub record PlaceBracketRequest (D : Type 0) : Type 0 where
  pub contract : Contract D
  pub parent : Order D
  pub take_profit : Order D
  pub stop_loss : Order D

-- The field that an error names: a plain one, or one of the element at an index of a list.
pub data Field : Type 0 where
  plain : String → Field
  element : String → ℕ → String → Field

-- ValidationError without the printed value, and the version error.
pub data OrderError : Type 0 where
  invalid : Field → String → OrderError
  unsupported_server_version : String → ℕ → OrderError
