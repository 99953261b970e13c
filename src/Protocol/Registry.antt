-- ===== src/Protocol/Registry.antt =====
-- internal/protocol/registry.go: the table of messages and its lookup.
pub mod Laws
use ibkr_go.Prelude.{
  ℕ, String, Bool, true, false, ◌&&◌, List, [], ◌∷◌, ◌++◌, Option, none, some, ◌==◌, if◌then◌else◌,
  map,
}
use ibkr_go.Protocol.Outbound
use ibkr_go.Protocol.Outbound.{Outbound, outbound_id}
use ibkr_go.Protocol.Inbound
use ibkr_go.Protocol.Inbound.{Inbound, inbound_id}

abbrev pub supported_min_server_version : ℕ
supported_min_server_version = 208

abbrev pub supported_max_server_version : ℕ
supported_max_server_version = 225

-- A uint8; `unknown` is any value but the two constants.
pub data Direction : Type 0 where
  client_to_server server_to_client : Direction
  unknown : ℕ → Direction

unfoldable pub direction_eq : Direction → Direction → Bool
direction_eq client_to_server client_to_server = true
direction_eq server_to_client server_to_client = true
direction_eq (unknown a) (unknown b) = a == b
direction_eq _ _ = false

-- Direction.String
unfoldable pub direction_string : Direction → String
direction_string client_to_server = "client_to_server"
direction_string server_to_client = "server_to_client"
direction_string (unknown a) = "unknown"

pub record Message : Type 0 where
  pub name : String
  pub id : ℕ
  pub direction : Direction

abbrev out : String → Outbound → Message
out name m = record { name = name; id = outbound_id m; direction = client_to_server }

abbrev in_bound : String → Inbound → Message
in_bound name m = record { name = name; id = inbound_id m; direction = server_to_client }

unfoldable pub outbound_messages : List Message
outbound_messages =
    out "OutReqMktData" Outbound.req_mkt_data
    ∷ out "OutCancelMktData" Outbound.cancel_mkt_data
    ∷ out "OutPlaceOrder" Outbound.place_order
    ∷ out "OutCancelOrder" Outbound.cancel_order
    ∷ out "OutReqOpenOrders" Outbound.req_open_orders
    ∷ out "OutReqAccountUpdates" Outbound.req_account_updates
    ∷ out "OutReqExecutions" Outbound.req_executions
    ∷ out "OutReqIds" Outbound.req_ids
    ∷ out "OutReqContractData" Outbound.req_contract_data
    ∷ out "OutReqMktDepth" Outbound.req_mkt_depth
    ∷ out "OutCancelMktDepth" Outbound.cancel_mkt_depth
    ∷ out "OutReqNewsBulletins" Outbound.req_news_bulletins
    ∷ out "OutCancelNewsBulletins" Outbound.cancel_news_bulletins
    ∷ out "OutReqAutoOpenOrders" Outbound.req_auto_open_orders
    ∷ out "OutReqAllOpenOrders" Outbound.req_all_open_orders
    ∷ out "OutReqManagedAccounts" Outbound.req_managed_accounts
    ∷ out "OutRequestFA" Outbound.request_fa
    ∷ out "OutReqHistoricalData" Outbound.req_historical_data
    ∷ out "OutExerciseOptions" Outbound.exercise_options
    ∷ out "OutReqScannerSubscription" Outbound.req_scanner_subscription
    ∷ out "OutCancelScannerSubscription" Outbound.cancel_scanner_subscription
    ∷ out "OutReqScannerParameters" Outbound.req_scanner_parameters
    ∷ out "OutCancelHistoricalData" Outbound.cancel_historical_data
    ∷ out "OutReqCurrentTime" Outbound.req_current_time
    ∷ out "OutReqRealTimeBars" Outbound.req_real_time_bars
    ∷ out "OutCancelRealTimeBars" Outbound.cancel_real_time_bars
    ∷ out "OutReqCalcImpliedVolatility" Outbound.req_calc_implied_volatility
    ∷ out "OutReqCalcOptionPrice" Outbound.req_calc_option_price
    ∷ out "OutCancelCalcImpliedVolatility" Outbound.cancel_calc_implied_volatility
    ∷ out "OutCancelCalcOptionPrice" Outbound.cancel_calc_option_price
    ∷ out "OutReqGlobalCancel" Outbound.req_global_cancel
    ∷ out "OutReqMarketDataType" Outbound.req_market_data_type
    ∷ out "OutReqPositions" Outbound.req_positions
    ∷ out "OutReqAccountSummary" Outbound.req_account_summary
    ∷ out "OutCancelAccountSummary" Outbound.cancel_account_summary
    ∷ out "OutCancelPositions" Outbound.cancel_positions
    ∷ out "OutQueryDisplayGroups" Outbound.query_display_groups
    ∷ out "OutSubscribeToGroupEvents" Outbound.subscribe_to_group_events
    ∷ out "OutUpdateDisplayGroup" Outbound.update_display_group
    ∷ out "OutUnsubscribeFromGroupEvents" Outbound.unsubscribe_from_group_events
    ∷ out "OutStartAPI" Outbound.start_api
    ∷ out "OutReqPositionsMulti" Outbound.req_positions_multi
    ∷ out "OutCancelPositionsMulti" Outbound.cancel_positions_multi
    ∷ out "OutReqAccountUpdatesMulti" Outbound.req_account_updates_multi
    ∷ out "OutCancelAccountUpdatesMulti" Outbound.cancel_account_updates_multi
    ∷ out "OutReqSecDefOptParams" Outbound.req_sec_def_opt_params
    ∷ out "OutReqSoftDollarTiers" Outbound.req_soft_dollar_tiers
    ∷ out "OutReqFamilyCodes" Outbound.req_family_codes
    ∷ out "OutReqMatchingSymbols" Outbound.req_matching_symbols
    ∷ out "OutReqMktDepthExchanges" Outbound.req_mkt_depth_exchanges
    ∷ out "OutReqSmartComponents" Outbound.req_smart_components
    ∷ out "OutReqNewsArticle" Outbound.req_news_article
    ∷ out "OutReqNewsProviders" Outbound.req_news_providers
    ∷ out "OutReqHistoricalNews" Outbound.req_historical_news
    ∷ out "OutReqHeadTimestamp" Outbound.req_head_timestamp
    ∷ out "OutReqHistogramData" Outbound.req_histogram_data
    ∷ out "OutCancelHistogramData" Outbound.cancel_histogram_data
    ∷ out "OutCancelHeadTimestamp" Outbound.cancel_head_timestamp
    ∷ out "OutReqMarketRule" Outbound.req_market_rule
    ∷ out "OutReqPnL" Outbound.req_pnl
    ∷ out "OutCancelPnL" Outbound.cancel_pnl
    ∷ out "OutReqPnLSingle" Outbound.req_pnl_single
    ∷ out "OutCancelPnLSingle" Outbound.cancel_pnl_single
    ∷ out "OutReqHistoricalTicks" Outbound.req_historical_ticks
    ∷ out "OutReqTickByTickData" Outbound.req_tick_by_tick_data
    ∷ out "OutCancelTickByTickData" Outbound.cancel_tick_by_tick_data
    ∷ out "OutReqCompletedOrders" Outbound.req_completed_orders
    ∷ out "OutReqWSHMetaData" Outbound.req_wsh_meta_data
    ∷ out "OutCancelWSHMetaData" Outbound.cancel_wsh_meta_data
    ∷ out "OutReqWSHEventData" Outbound.req_wsh_event_data
    ∷ out "OutCancelWSHEventData" Outbound.cancel_wsh_event_data
    ∷ out "OutReqUserInfo" Outbound.req_user_info
    ∷ out "OutReqCurrentTimeInMillis" Outbound.req_current_time_in_millis
    ∷ out "OutCancelContractData" Outbound.cancel_contract_data
    ∷ out "OutCancelHistoricalTicks" Outbound.cancel_historical_ticks
    ∷ out "OutReqConfig" Outbound.req_config
    ∷ []

unfoldable pub inbound_messages : List Message
inbound_messages =
    in_bound "InTickPrice" Inbound.tick_price
    ∷ in_bound "InTickSize" Inbound.tick_size
    ∷ in_bound "InOrderStatus" Inbound.order_status
    ∷ in_bound "InErrMsg" Inbound.err_msg
    ∷ in_bound "InOpenOrder" Inbound.open_order
    ∷ in_bound "InUpdateAccountValue" Inbound.update_account_value
    ∷ in_bound "InUpdatePortfolio" Inbound.update_portfolio
    ∷ in_bound "InUpdateAccountTime" Inbound.update_account_time
    ∷ in_bound "InNextValidID" Inbound.next_valid_id
    ∷ in_bound "InContractData" Inbound.contract_data
    ∷ in_bound "InExecutionData" Inbound.execution_data
    ∷ in_bound "InMarketDepth" Inbound.market_depth
    ∷ in_bound "InMarketDepthL2" Inbound.market_depth_l2
    ∷ in_bound "InNewsBulletins" Inbound.news_bulletins
    ∷ in_bound "InManagedAccounts" Inbound.managed_accounts
    ∷ in_bound "InReceiveFA" Inbound.receive_fa
    ∷ in_bound "InHistoricalData" Inbound.historical_data
    ∷ in_bound "InBondContractData" Inbound.bond_contract_data
    ∷ in_bound "InScannerParameters" Inbound.scanner_parameters
    ∷ in_bound "InScannerData" Inbound.scanner_data
    ∷ in_bound "InTickOptionComputation" Inbound.tick_option_computation
    ∷ in_bound "InTickGeneric" Inbound.tick_generic
    ∷ in_bound "InTickString" Inbound.tick_string
    ∷ in_bound "InTickEFP" Inbound.tick_efp
    ∷ in_bound "InCurrentTime" Inbound.current_time
    ∷ in_bound "InRealTimeBars" Inbound.real_time_bars
    ∷ in_bound "InContractDataEnd" Inbound.contract_data_end
    ∷ in_bound "InOpenOrderEnd" Inbound.open_order_end
    ∷ in_bound "InAccountDownloadEnd" Inbound.account_download_end
    ∷ in_bound "InExecutionDataEnd" Inbound.execution_data_end
    ∷ in_bound "InDeltaNeutralValidation" Inbound.delta_neutral_validation
    ∷ in_bound "InTickSnapshotEnd" Inbound.tick_snapshot_end
    ∷ in_bound "InMarketDataType" Inbound.market_data_type
    ∷ in_bound "InCommissionReport" Inbound.commission_report
    ∷ in_bound "InPositionData" Inbound.position_data
    ∷ in_bound "InPositionEnd" Inbound.position_end
    ∷ in_bound "InAccountSummary" Inbound.account_summary
    ∷ in_bound "InAccountSummaryEnd" Inbound.account_summary_end
    ∷ in_bound "InDisplayGroupList" Inbound.display_group_list
    ∷ in_bound "InDisplayGroupUpdated" Inbound.display_group_updated
    ∷ in_bound "InPositionMulti" Inbound.position_multi
    ∷ in_bound "InPositionMultiEnd" Inbound.position_multi_end
    ∷ in_bound "InAccountUpdateMulti" Inbound.account_update_multi
    ∷ in_bound "InAccountUpdateMultiEnd" Inbound.account_update_multi_end
    ∷ in_bound "InSecDefOptParams" Inbound.sec_def_opt_params
    ∷ in_bound "InSecDefOptParamsEnd" Inbound.sec_def_opt_params_end
    ∷ in_bound "InSoftDollarTiers" Inbound.soft_dollar_tiers
    ∷ in_bound "InFamilyCodes" Inbound.family_codes
    ∷ in_bound "InSymbolSamples" Inbound.symbol_samples
    ∷ in_bound "InMktDepthExchanges" Inbound.mkt_depth_exchanges
    ∷ in_bound "InTickReqParams" Inbound.tick_req_params
    ∷ in_bound "InSmartComponents" Inbound.smart_components
    ∷ in_bound "InNewsArticle" Inbound.news_article
    ∷ in_bound "InTickNews" Inbound.tick_news
    ∷ in_bound "InNewsProviders" Inbound.news_providers
    ∷ in_bound "InHistoricalNews" Inbound.historical_news
    ∷ in_bound "InHistoricalNewsEnd" Inbound.historical_news_end
    ∷ in_bound "InHeadTimestamp" Inbound.head_timestamp
    ∷ in_bound "InHistogramData" Inbound.histogram_data
    ∷ in_bound "InHistoricalDataUpdate" Inbound.historical_data_update
    ∷ in_bound "InMarketDataReroute" Inbound.market_data_reroute
    ∷ in_bound "InMarketDepthReroute" Inbound.market_depth_reroute
    ∷ in_bound "InMarketRule" Inbound.market_rule
    ∷ in_bound "InPnL" Inbound.pnl
    ∷ in_bound "InPnLSingle" Inbound.pnl_single
    ∷ in_bound "InHistoricalTicks" Inbound.historical_ticks
    ∷ in_bound "InHistoricalTicksBidAsk" Inbound.historical_ticks_bid_ask
    ∷ in_bound "InHistoricalTicksLast" Inbound.historical_ticks_last
    ∷ in_bound "InTickByTick" Inbound.tick_by_tick
    ∷ in_bound "InOrderBound" Inbound.order_bound
    ∷ in_bound "InCompletedOrder" Inbound.completed_order
    ∷ in_bound "InCompletedOrderEnd" Inbound.completed_order_end
    ∷ in_bound "InWSHMetaData" Inbound.wsh_meta_data
    ∷ in_bound "InWSHEventData" Inbound.wsh_event_data
    ∷ in_bound "InHistoricalSchedule" Inbound.historical_schedule
    ∷ in_bound "InUserInfo" Inbound.user_info
    ∷ in_bound "InHistoricalDataEnd" Inbound.historical_data_end
    ∷ in_bound "InCurrentTimeInMillis" Inbound.current_time_in_millis
    ∷ in_bound "InConfig" Inbound.config
    ∷ []

-- The table `messages`.
unfoldable pub messages : List Message
unfolding outbound_messages inbound_messages
messages = outbound_messages ++ inbound_messages

unfoldable pub find_message : Direction → ℕ → List Message → Option Message
unfolding direction_eq
find_message d i [] = none
find_message d i (m ∷ ms) =
    if direction_eq m.direction d && (m.id == i) then some m else find_message d i ms

unfoldable pub lookup : Direction → ℕ → Option Message
lookup d i = find_message d i messages
