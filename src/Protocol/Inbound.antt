-- ===== src/Protocol/Inbound.antt =====
-- internal/protocol/registry.go: the message IDs from server to client.
use ibkr_go.Prelude.{ℕ}

-- The `In…` constants, without the prefix.
pub data Inbound : Type 0 where
  tick_price tick_size order_status err_msg open_order update_account_value update_portfolio
        update_account_time next_valid_id contract_data execution_data market_depth market_depth_l2
        news_bulletins managed_accounts receive_fa historical_data bond_contract_data
        scanner_parameters scanner_data tick_option_computation tick_generic tick_string tick_efp
        current_time real_time_bars contract_data_end open_order_end account_download_end
        execution_data_end delta_neutral_validation tick_snapshot_end market_data_type
        commission_report position_data position_end account_summary account_summary_end
        display_group_list display_group_updated position_multi position_multi_end
        account_update_multi account_update_multi_end sec_def_opt_params sec_def_opt_params_end
        soft_dollar_tiers family_codes symbol_samples mkt_depth_exchanges tick_req_params
        smart_components news_article tick_news news_providers historical_news historical_news_end
        head_timestamp histogram_data historical_data_update market_data_reroute
        market_depth_reroute market_rule pnl pnl_single historical_ticks historical_ticks_bid_ask
        historical_ticks_last tick_by_tick order_bound completed_order completed_order_end
        wsh_meta_data wsh_event_data historical_schedule user_info historical_data_end
        current_time_in_millis config :
      Inbound

unfoldable pub inbound_id : Inbound → ℕ
inbound_id tick_price = 1
inbound_id tick_size = 2
inbound_id order_status = 3
inbound_id err_msg = 4
inbound_id open_order = 5
inbound_id update_account_value = 6
inbound_id update_portfolio = 7
inbound_id update_account_time = 8
inbound_id next_valid_id = 9
inbound_id contract_data = 10
inbound_id execution_data = 11
inbound_id market_depth = 12
inbound_id market_depth_l2 = 13
inbound_id news_bulletins = 14
inbound_id managed_accounts = 15
inbound_id receive_fa = 16
inbound_id historical_data = 17
inbound_id bond_contract_data = 18
inbound_id scanner_parameters = 19
inbound_id scanner_data = 20
inbound_id tick_option_computation = 21
inbound_id tick_generic = 45
inbound_id tick_string = 46
inbound_id tick_efp = 47
inbound_id current_time = 49
inbound_id real_time_bars = 50
inbound_id contract_data_end = 52
inbound_id open_order_end = 53
inbound_id account_download_end = 54
inbound_id execution_data_end = 55
inbound_id delta_neutral_validation = 56
inbound_id tick_snapshot_end = 57
inbound_id market_data_type = 58
inbound_id commission_report = 59
inbound_id position_data = 61
inbound_id position_end = 62
inbound_id account_summary = 63
inbound_id account_summary_end = 64
inbound_id display_group_list = 67
inbound_id display_group_updated = 68
inbound_id position_multi = 71
inbound_id position_multi_end = 72
inbound_id account_update_multi = 73
inbound_id account_update_multi_end = 74
inbound_id sec_def_opt_params = 75
inbound_id sec_def_opt_params_end = 76
inbound_id soft_dollar_tiers = 77
inbound_id family_codes = 78
inbound_id symbol_samples = 79
inbound_id mkt_depth_exchanges = 80
inbound_id tick_req_params = 81
inbound_id smart_components = 82
inbound_id news_article = 83
inbound_id tick_news = 84
inbound_id news_providers = 85
inbound_id historical_news = 86
inbound_id historical_news_end = 87
inbound_id head_timestamp = 88
inbound_id histogram_data = 89
inbound_id historical_data_update = 90
inbound_id market_data_reroute = 91
inbound_id market_depth_reroute = 92
inbound_id market_rule = 93
inbound_id pnl = 94
inbound_id pnl_single = 95
inbound_id historical_ticks = 96
inbound_id historical_ticks_bid_ask = 97
inbound_id historical_ticks_last = 98
inbound_id tick_by_tick = 99
inbound_id order_bound = 100
inbound_id completed_order = 101
inbound_id completed_order_end = 102
inbound_id wsh_meta_data = 104
inbound_id wsh_event_data = 105
inbound_id historical_schedule = 106
inbound_id user_info = 107
inbound_id historical_data_end = 108
inbound_id current_time_in_millis = 109
inbound_id config = 110
