-- ===== src/Protocol/Outbound.antt =====
-- internal/protocol/registry.go: the message IDs from client to server.
use ibkr_go.Prelude.{ℕ}

-- The `Out…` constants, without the prefix.
pub data Outbound : Type 0 where
  req_mkt_data cancel_mkt_data place_order cancel_order req_open_orders req_account_updates
        req_executions req_ids req_contract_data req_mkt_depth cancel_mkt_depth req_news_bulletins
        cancel_news_bulletins req_auto_open_orders req_all_open_orders req_managed_accounts
        request_fa req_historical_data exercise_options req_scanner_subscription
        cancel_scanner_subscription req_scanner_parameters cancel_historical_data req_current_time
        req_real_time_bars cancel_real_time_bars req_calc_implied_volatility req_calc_option_price
        cancel_calc_implied_volatility cancel_calc_option_price req_global_cancel
        req_market_data_type req_positions req_account_summary cancel_account_summary
        cancel_positions query_display_groups subscribe_to_group_events update_display_group
        unsubscribe_from_group_events start_api req_positions_multi cancel_positions_multi
        req_account_updates_multi cancel_account_updates_multi req_sec_def_opt_params
        req_soft_dollar_tiers req_family_codes req_matching_symbols req_mkt_depth_exchanges
        req_smart_components req_news_article req_news_providers req_historical_news
        req_head_timestamp req_histogram_data cancel_histogram_data cancel_head_timestamp
        req_market_rule req_pnl cancel_pnl req_pnl_single cancel_pnl_single req_historical_ticks
        req_tick_by_tick_data cancel_tick_by_tick_data req_completed_orders req_wsh_meta_data
        cancel_wsh_meta_data req_wsh_event_data cancel_wsh_event_data req_user_info
        req_current_time_in_millis cancel_contract_data cancel_historical_ticks req_config :
      Outbound

unfoldable pub outbound_id : Outbound → ℕ
outbound_id req_mkt_data = 1
outbound_id cancel_mkt_data = 2
outbound_id place_order = 3
outbound_id cancel_order = 4
outbound_id req_open_orders = 5
outbound_id req_account_updates = 6
outbound_id req_executions = 7
outbound_id req_ids = 8
outbound_id req_contract_data = 9
outbound_id req_mkt_depth = 10
outbound_id cancel_mkt_depth = 11
outbound_id req_news_bulletins = 12
outbound_id cancel_news_bulletins = 13
outbound_id req_auto_open_orders = 15
outbound_id req_all_open_orders = 16
outbound_id req_managed_accounts = 17
outbound_id request_fa = 18
outbound_id req_historical_data = 20
outbound_id exercise_options = 21
outbound_id req_scanner_subscription = 22
outbound_id cancel_scanner_subscription = 23
outbound_id req_scanner_parameters = 24
outbound_id cancel_historical_data = 25
outbound_id req_current_time = 49
outbound_id req_real_time_bars = 50
outbound_id cancel_real_time_bars = 51
outbound_id req_calc_implied_volatility = 54
outbound_id req_calc_option_price = 55
outbound_id cancel_calc_implied_volatility = 56
outbound_id cancel_calc_option_price = 57
outbound_id req_global_cancel = 58
outbound_id req_market_data_type = 59
outbound_id req_positions = 61
outbound_id req_account_summary = 62
outbound_id cancel_account_summary = 63
outbound_id cancel_positions = 64
outbound_id query_display_groups = 67
outbound_id subscribe_to_group_events = 68
outbound_id update_display_group = 69
outbound_id unsubscribe_from_group_events = 70
outbound_id start_api = 71
outbound_id req_positions_multi = 74
outbound_id cancel_positions_multi = 75
outbound_id req_account_updates_multi = 76
outbound_id cancel_account_updates_multi = 77
outbound_id req_sec_def_opt_params = 78
outbound_id req_soft_dollar_tiers = 79
outbound_id req_family_codes = 80
outbound_id req_matching_symbols = 81
outbound_id req_mkt_depth_exchanges = 82
outbound_id req_smart_components = 83
outbound_id req_news_article = 84
outbound_id req_news_providers = 85
outbound_id req_historical_news = 86
outbound_id req_head_timestamp = 87
outbound_id req_histogram_data = 88
outbound_id cancel_histogram_data = 89
outbound_id cancel_head_timestamp = 90
outbound_id req_market_rule = 91
outbound_id req_pnl = 92
outbound_id cancel_pnl = 93
outbound_id req_pnl_single = 94
outbound_id cancel_pnl_single = 95
outbound_id req_historical_ticks = 96
outbound_id req_tick_by_tick_data = 97
outbound_id cancel_tick_by_tick_data = 98
outbound_id req_completed_orders = 99
outbound_id req_wsh_meta_data = 100
outbound_id cancel_wsh_meta_data = 101
outbound_id req_wsh_event_data = 102
outbound_id cancel_wsh_event_data = 103
outbound_id req_user_info = 104
outbound_id req_current_time_in_millis = 105
outbound_id cancel_contract_data = 106
outbound_id cancel_historical_ticks = 107
outbound_id req_config = 108
