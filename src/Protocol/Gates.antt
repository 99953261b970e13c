-- ===== src/Protocol/Gates.antt =====
-- internal/protocol/version.go and protobuf.go: the server versions at which layouts change.
pub mod Laws
use ibkr_go.Prelude.{ℕ, List, [], ◌∷◌, Option, none, some, ◌==◌, if◌then◌else◌}
use ibkr_go.Protocol.Outbound
use ibkr_go.Protocol.Outbound.{Outbound, outbound_id}
use ibkr_go.Protocol.Registry.{supported_min_server_version}

-- The `MinServerVersion…` constants, without the prefix.
pub data Gate : Type 0 where
  protobuf_historical_data protobuf_news_data protobuf_scan_data protobuf_rest_messages1
        protobuf_rest_messages2 protobuf_rest_messages3 add_z_suffix_to_utc_date_time
        broker_side_one_shot_cancel additional_order_params1 additional_order_params2
        attached_orders config market_data_volumes_in_shares update_config fractional_last_size
        hedge_max_size use_precision_from_sec_def odd_lot_bid_ask_quotes :
      Gate

unfoldable pub min_server_version : Gate → ℕ
min_server_version protobuf_historical_data = 208
min_server_version protobuf_news_data = 209
min_server_version protobuf_scan_data = 210
min_server_version protobuf_rest_messages1 = 211
min_server_version protobuf_rest_messages2 = 212
min_server_version protobuf_rest_messages3 = 213
min_server_version add_z_suffix_to_utc_date_time = 214
min_server_version broker_side_one_shot_cancel = 215
min_server_version additional_order_params1 = 216
min_server_version additional_order_params2 = 217
min_server_version attached_orders = 218
min_server_version config = 219
min_server_version market_data_volumes_in_shares = 220
min_server_version update_config = 221
min_server_version fractional_last_size = 222
min_server_version hedge_max_size = 223
min_server_version use_precision_from_sec_def = 224
min_server_version odd_lot_bid_ask_quotes = 225

-- The map `outboundProtobufVersion`, as its entries.
unfoldable pub outbound_protobuf_versions : List (ℕ × ℕ)
outbound_protobuf_versions =
    (outbound_id Outbound.req_executions, supported_min_server_version)
    ∷ (outbound_id Outbound.place_order, supported_min_server_version)
    ∷ (outbound_id Outbound.cancel_order, supported_min_server_version)
    ∷ (outbound_id Outbound.req_global_cancel, supported_min_server_version)
    ∷ (outbound_id Outbound.req_open_orders, supported_min_server_version)
    ∷ (outbound_id Outbound.req_auto_open_orders, supported_min_server_version)
    ∷ (outbound_id Outbound.req_all_open_orders, supported_min_server_version)
    ∷ (outbound_id Outbound.req_completed_orders, supported_min_server_version)
    ∷ (outbound_id Outbound.req_contract_data, supported_min_server_version)
    ∷ (outbound_id Outbound.req_mkt_data, supported_min_server_version)
    ∷ (outbound_id Outbound.cancel_mkt_data, supported_min_server_version)
    ∷ (outbound_id Outbound.req_mkt_depth, supported_min_server_version)
    ∷ (outbound_id Outbound.cancel_mkt_depth, supported_min_server_version)
    ∷ (outbound_id Outbound.req_market_data_type, supported_min_server_version)
    ∷ (outbound_id Outbound.req_account_updates, supported_min_server_version)
    ∷ (outbound_id Outbound.req_managed_accounts, supported_min_server_version)
    ∷ (outbound_id Outbound.req_positions, supported_min_server_version)
    ∷ (outbound_id Outbound.cancel_positions, supported_min_server_version)
    ∷ (outbound_id Outbound.req_account_summary, supported_min_server_version)
    ∷ (outbound_id Outbound.cancel_account_summary, supported_min_server_version)
    ∷ (outbound_id Outbound.req_positions_multi, supported_min_server_version)
    ∷ (outbound_id Outbound.cancel_positions_multi, supported_min_server_version)
    ∷ (outbound_id Outbound.req_account_updates_multi, supported_min_server_version)
    ∷ (outbound_id Outbound.cancel_account_updates_multi, supported_min_server_version)
    ∷ (outbound_id Outbound.req_historical_data, min_server_version protobuf_historical_data)
    ∷ (outbound_id Outbound.cancel_historical_data, min_server_version protobuf_historical_data)
    ∷ (outbound_id Outbound.req_real_time_bars, min_server_version protobuf_historical_data)
    ∷ (outbound_id Outbound.cancel_real_time_bars, min_server_version protobuf_historical_data)
    ∷ (outbound_id Outbound.req_head_timestamp, min_server_version protobuf_historical_data)
    ∷ (outbound_id Outbound.cancel_head_timestamp, min_server_version protobuf_historical_data)
    ∷ (outbound_id Outbound.req_histogram_data, min_server_version protobuf_historical_data)
    ∷ (outbound_id Outbound.cancel_histogram_data, min_server_version protobuf_historical_data)
    ∷ (outbound_id Outbound.req_historical_ticks, min_server_version protobuf_historical_data)
    ∷ (outbound_id Outbound.req_tick_by_tick_data, min_server_version protobuf_historical_data)
    ∷ (outbound_id Outbound.cancel_tick_by_tick_data, min_server_version protobuf_historical_data)
    ∷ (outbound_id Outbound.req_news_bulletins, min_server_version protobuf_news_data)
    ∷ (outbound_id Outbound.cancel_news_bulletins, min_server_version protobuf_news_data)
    ∷ (outbound_id Outbound.req_news_article, min_server_version protobuf_news_data)
    ∷ (outbound_id Outbound.req_news_providers, min_server_version protobuf_news_data)
    ∷ (outbound_id Outbound.req_historical_news, min_server_version protobuf_news_data)
    ∷ (outbound_id Outbound.req_wsh_meta_data, min_server_version protobuf_news_data)
    ∷ (outbound_id Outbound.cancel_wsh_meta_data, min_server_version protobuf_news_data)
    ∷ (outbound_id Outbound.req_wsh_event_data, min_server_version protobuf_news_data)
    ∷ (outbound_id Outbound.cancel_wsh_event_data, min_server_version protobuf_news_data)
    ∷ (outbound_id Outbound.req_scanner_parameters, min_server_version protobuf_scan_data)
    ∷ (outbound_id Outbound.req_scanner_subscription, min_server_version protobuf_scan_data)
    ∷ (outbound_id Outbound.cancel_scanner_subscription, min_server_version protobuf_scan_data)
    ∷ (outbound_id Outbound.req_pnl, min_server_version protobuf_scan_data)
    ∷ (outbound_id Outbound.cancel_pnl, min_server_version protobuf_scan_data)
    ∷ (outbound_id Outbound.req_pnl_single, min_server_version protobuf_scan_data)
    ∷ (outbound_id Outbound.cancel_pnl_single, min_server_version protobuf_scan_data)
    ∷ (outbound_id Outbound.request_fa, min_server_version protobuf_rest_messages1)
    ∷ (outbound_id Outbound.exercise_options, min_server_version protobuf_rest_messages1)
    ∷ (outbound_id Outbound.req_calc_implied_volatility, min_server_version protobuf_rest_messages1)
    ∷ (
      outbound_id Outbound.cancel_calc_implied_volatility,
      min_server_version protobuf_rest_messages1,
    )
    ∷ (outbound_id Outbound.req_calc_option_price, min_server_version protobuf_rest_messages1)
    ∷ (outbound_id Outbound.cancel_calc_option_price, min_server_version protobuf_rest_messages1)
    ∷ (outbound_id Outbound.req_sec_def_opt_params, min_server_version protobuf_rest_messages2)
    ∷ (outbound_id Outbound.req_soft_dollar_tiers, min_server_version protobuf_rest_messages2)
    ∷ (outbound_id Outbound.req_family_codes, min_server_version protobuf_rest_messages2)
    ∷ (outbound_id Outbound.req_matching_symbols, min_server_version protobuf_rest_messages2)
    ∷ (outbound_id Outbound.req_smart_components, min_server_version protobuf_rest_messages2)
    ∷ (outbound_id Outbound.req_market_rule, min_server_version protobuf_rest_messages2)
    ∷ (outbound_id Outbound.req_user_info, min_server_version protobuf_rest_messages2)
    ∷ (outbound_id Outbound.req_ids, min_server_version protobuf_rest_messages3)
    ∷ (outbound_id Outbound.req_current_time, min_server_version protobuf_rest_messages3)
    ∷ (outbound_id Outbound.req_current_time_in_millis, min_server_version protobuf_rest_messages3)
    ∷ (outbound_id Outbound.start_api, min_server_version protobuf_rest_messages3)
    ∷ (outbound_id Outbound.query_display_groups, min_server_version protobuf_rest_messages3)
    ∷ (outbound_id Outbound.subscribe_to_group_events, min_server_version protobuf_rest_messages3)
    ∷ (outbound_id Outbound.update_display_group, min_server_version protobuf_rest_messages3)
    ∷ (
      outbound_id Outbound.unsubscribe_from_group_events,
      min_server_version protobuf_rest_messages3,
    )
    ∷ (outbound_id Outbound.req_mkt_depth_exchanges, min_server_version protobuf_rest_messages3)
    ∷ (outbound_id Outbound.cancel_contract_data, min_server_version broker_side_one_shot_cancel)
    ∷ (outbound_id Outbound.cancel_historical_ticks, min_server_version broker_side_one_shot_cancel)
    ∷ (outbound_id Outbound.req_config, min_server_version config)
    ∷ []

unfoldable pub find_version : ℕ → List (ℕ × ℕ) → Option ℕ
find_version i [] = none
find_version i ((j, v) ∷ es) = if j == i then some v else find_version i es

unfoldable pub outbound_protobuf_version : ℕ → Option ℕ
outbound_protobuf_version i = find_version i outbound_protobuf_versions
