-- ===== src/Orders/Versions.antt =====
-- validateOrderServerVersion of order_validation.go: fields that need a newer server.
pub mod Laws
use ibkr_go.Prelude.{
  ℕ, zero, suc, ◌+◌, ◌-◌, ◌*◌, ◌/◌, ◌%◌, ◌^◌, ◌≤◌, ◌<◌, max, ℤ, pos, negsuc, ltz, is_negative,
  int_eq, String, ◌≡◌, refl, sym, ap, ◌∙◌, subst, ◌≢◌, ◌↔◌, ◌⊎◌, inl, inr, Bool, true, false, not,
  ◌&&◌, ◌||◌, Option, none, some, List, [], ◌∷◌, ◌++◌, map, append_assoc, append-nil, arith, ltb,
  leb, ◌==◌, if◌then◌else◌, ltb→lt, lt→ltb, le→ltb, ==_iff, Bool-cases, Option-cases, if_both,
  or_else_both, Memᴰ, any-mem, all-mem, length, take, drop, length-append, take-append-drop,
  length-take, length-drop, take-append_left, drop-append_left, all, any, All, Result, ok, err,
  ◌>>◌, reject, is_space, trim_space, is_empty, is_blank, is_one_of, str_eq, eq_iff,
}
use ibkr_go.Orders.Decimals.{Decimals}
use ibkr_go.Orders.Tags.{validate_tag_values}
use ibkr_go.Orders.Contract.{
  validate_contract, sec_type_combo, order_actions, is_not_positive, is_bad_code,
}
use ibkr_go.Orders.Validation.Fields.{
  field_error, is_set, max_order_id, validate_order_id, valid_order_trigger_method,
}
use ibkr_go.Protocol.Gates.{min_server_version}
use ibkr_go.Protocol.Gates
use ibkr_go.Orders.Types.{Order, OrderError, unsupported_server_version}

pub record Requirement : Type 0 where
  pub given : Bool
  pub field : String
  pub version : ℕ

unfoldable pub requirements : {D : Type 0} → Order D → List Requirement
requirements o =
    record {
      given = o.deactivate;
      field = "Order.Deactivate";
      version = min_server_version Gates.Gate.additional_order_params1;
    }
    ∷ record {
      given = o.post_only;
      field = "Order.PostOnly";
      version = min_server_version Gates.Gate.additional_order_params1;
    }
    ∷ record {
      given = o.allow_pre_open;
      field = "Order.AllowPreOpen";
      version = min_server_version Gates.Gate.additional_order_params1;
    }
    ∷ record {
      given = o.ignore_open_auction;
      field = "Order.IgnoreOpenAuction";
      version = min_server_version Gates.Gate.additional_order_params1;
    }
    ∷ record {
      given = is_set o.route_marketable_to_bbo;
      field = "Order.RouteMarketableToBBO";
      version = min_server_version Gates.Gate.additional_order_params2;
    }
    ∷ record {
      given = is_set o.seek_price_improvement;
      field = "Order.SeekPriceImprovement";
      version = min_server_version Gates.Gate.additional_order_params2;
    }
    ∷ record {
      given = is_set o.what_if_type;
      field = "Order.WhatIfType";
      version = min_server_version Gates.Gate.additional_order_params2;
    }
    ∷ record {
      given = is_set o.hedge.max_size;
      field = "Order.Hedge.MaxSize";
      version = min_server_version Gates.Gate.hedge_max_size;
    }
    ∷ []

unfoldable pub check_requirements : List Requirement → ℕ → Option OrderError
check_requirements [] v = none
check_requirements (r ∷ rs) v =
    reject (r.given && ltb v r.version) (unsupported_server_version r.field r.version)
    >> check_requirements rs v

unfoldable pub validate_order_server_version : {D : Type 0} → Order D → ℕ → Option OrderError
validate_order_server_version o v = check_requirements (requirements o) v
