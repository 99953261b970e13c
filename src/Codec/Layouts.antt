-- ===== src/Codec/Layouts.antt =====
-- The fields of a whole message, the message ID in front of its body, and the messages that the wire
-- carries.
pub mod Bodies
use ibkr_go.Prelude.{ℕ, pos, ◌≡◌, false, none, List, [], ◌∷◌, ◌++◌, length, All}
use ibkr_go.Wire.Fields.{Bytes}
use ibkr_go.Codec.Numbers.{itoa}
use ibkr_go.Codec.Numbers.RoundTrip.{Fits}
use ibkr_go.Codec.Messages.{
  Contract, CurrentTime, CurrentTimeMillis, DeltaNeutralContract, DeltaNeutralValidation,
  DepthExchangeEntry, DisplayGroupList, DisplayGroupUpdated, FamilyCodeEntry, FamilyCodes,
  HistoricalNewsEnd, HistoricalNewsItem, MarketRule, MatchingSymbols, MktDepthExchanges,
  NewsArticleResponse, NewsBulletin, NewsProviderEntry, NewsProviders, NextValidId, PnlSingleValue,
  PnlValue, PriceIncrement, ReceiveFa, ScannerDataEntry, ScannerDataResponse, ScannerParameters,
  SecDefOptParamsEnd, SecDefOptParamsResponse, SmartComponentEntry, SmartComponentsResponse,
  SoftDollarTier, SoftDollarTiersResponse, SymbolSample, TickEfp, TickNews, UserInfo,
  WshEventDataResponse, WshMetaDataResponse, Message, next_valid_id, news_bulletin, receive_fa,
  scanner_parameters, scanner_data_response, tick_efp, current_time, delta_neutral_validation,
  display_group_list, display_group_updated, sec_def_opt_params_response, sec_def_opt_params_end,
  soft_dollar_tiers_response, family_codes, matching_symbols, mkt_depth_exchanges,
  smart_components_response, news_article_response, tick_news, news_providers, historical_news_item,
  historical_news_end, market_rule, pnl_value, pnl_single_value, wsh_meta_data_response,
  wsh_event_data_response, user_info, current_time_millis, unknown_inbound, malformed_inbound,
}
use ibkr_go.Codec.Gives.{btoa}
use ibkr_go.Codec.Gives.Counts.{entries_fields}
use ibkr_go.Protocol.Inbound.{Inbound, inbound_id}
use ibkr_go.Codec.Layouts.Bodies.{
  next_valid_id_fields, news_bulletin_fields, receive_fa_fields, scanner_parameters_fields,
  scanner_data_entry_fields, bare_contract, ScannerDataEntryRanged, scanner_data_response_fields,
  tick_efp_fields, current_time_fields, delta_neutral_contract_fields,
  delta_neutral_validation_fields, display_group_list_fields, display_group_updated_fields,
  sec_def_opt_params_response_fields, sec_def_opt_params_end_fields, soft_dollar_tier_fields,
  soft_dollar_tiers_response_fields, family_code_entry_fields, family_codes_fields,
  symbol_sample_fields, SymbolSampleRanged, matching_symbols_fields, depth_exchange_entry_fields,
  DepthExchangeEntryRanged, mkt_depth_exchanges_fields, smart_component_entry_fields,
  SmartComponentEntryRanged, smart_components_response_fields, news_article_response_fields,
  tick_news_fields, news_provider_entry_fields, news_providers_fields, historical_news_item_fields,
  historical_news_end_fields, price_increment_fields, market_rule_fields, pnl_value_fields,
  pnl_single_value_fields, wsh_meta_data_response_fields, wsh_event_data_response_fields,
  user_info_fields, current_time_millis_fields,
}

abbrev pub wire_fields : Bytes → Message → List Bytes
wire_fields version (next_valid_id m) = next_valid_id_fields version m
wire_fields version (news_bulletin m) = news_bulletin_fields version m
wire_fields version (receive_fa m) = receive_fa_fields version m
wire_fields version (scanner_parameters m) = scanner_parameters_fields version m
wire_fields version (scanner_data_response m) = scanner_data_response_fields version m
wire_fields version (tick_efp m) = tick_efp_fields version m
wire_fields version (current_time m) = current_time_fields version m
wire_fields version (delta_neutral_validation m) = delta_neutral_validation_fields version m
wire_fields version (display_group_list m) = display_group_list_fields version m
wire_fields version (display_group_updated m) = display_group_updated_fields version m
wire_fields version (sec_def_opt_params_response m) = sec_def_opt_params_response_fields version m
wire_fields version (sec_def_opt_params_end m) = sec_def_opt_params_end_fields version m
wire_fields version (soft_dollar_tiers_response m) = soft_dollar_tiers_response_fields version m
wire_fields version (family_codes m) = family_codes_fields version m
wire_fields version (matching_symbols m) = matching_symbols_fields version m
wire_fields version (mkt_depth_exchanges m) = mkt_depth_exchanges_fields version m
wire_fields version (smart_components_response m) = smart_components_response_fields version m
wire_fields version (news_article_response m) = news_article_response_fields version m
wire_fields version (tick_news m) = tick_news_fields version m
wire_fields version (news_providers m) = news_providers_fields version m
wire_fields version (historical_news_item m) = historical_news_item_fields version m
wire_fields version (historical_news_end m) = historical_news_end_fields version m
wire_fields version (market_rule m) = market_rule_fields version m
wire_fields version (pnl_value m) = pnl_value_fields version m
wire_fields version (pnl_single_value m) = pnl_single_value_fields version m
wire_fields version (wsh_meta_data_response m) = wsh_meta_data_response_fields version m
wire_fields version (wsh_event_data_response m) = wsh_event_data_response_fields version m
wire_fields version (user_info m) = user_info_fields version m
wire_fields version (current_time_millis m) = current_time_millis_fields version m
wire_fields version (unknown_inbound m) = []
wire_fields version (malformed_inbound m) = []

unfoldable pub wire_id : Message → ℕ
unfolding inbound_id
wire_id (next_valid_id m) = inbound_id Inbound.next_valid_id
wire_id (news_bulletin m) = inbound_id Inbound.news_bulletins
wire_id (receive_fa m) = inbound_id Inbound.receive_fa
wire_id (scanner_parameters m) = inbound_id Inbound.scanner_parameters
wire_id (scanner_data_response m) = inbound_id Inbound.scanner_data
wire_id (tick_efp m) = inbound_id Inbound.tick_efp
wire_id (current_time m) = inbound_id Inbound.current_time
wire_id (delta_neutral_validation m) = inbound_id Inbound.delta_neutral_validation
wire_id (display_group_list m) = inbound_id Inbound.display_group_list
wire_id (display_group_updated m) = inbound_id Inbound.display_group_updated
wire_id (sec_def_opt_params_response m) = inbound_id Inbound.sec_def_opt_params
wire_id (sec_def_opt_params_end m) = inbound_id Inbound.sec_def_opt_params_end
wire_id (soft_dollar_tiers_response m) = inbound_id Inbound.soft_dollar_tiers
wire_id (family_codes m) = inbound_id Inbound.family_codes
wire_id (matching_symbols m) = inbound_id Inbound.symbol_samples
wire_id (mkt_depth_exchanges m) = inbound_id Inbound.mkt_depth_exchanges
wire_id (smart_components_response m) = inbound_id Inbound.smart_components
wire_id (news_article_response m) = inbound_id Inbound.news_article
wire_id (tick_news m) = inbound_id Inbound.tick_news
wire_id (news_providers m) = inbound_id Inbound.news_providers
wire_id (historical_news_item m) = inbound_id Inbound.historical_news
wire_id (historical_news_end m) = inbound_id Inbound.historical_news_end
wire_id (market_rule m) = inbound_id Inbound.market_rule
wire_id (pnl_value m) = inbound_id Inbound.pnl
wire_id (pnl_single_value m) = inbound_id Inbound.pnl_single
wire_id (wsh_meta_data_response m) = inbound_id Inbound.wsh_meta_data
wire_id (wsh_event_data_response m) = inbound_id Inbound.wsh_event_data
wire_id (user_info m) = inbound_id Inbound.user_info
wire_id (current_time_millis m) = inbound_id Inbound.current_time_in_millis
wire_id (unknown_inbound m) = m.msg_id
wire_id (malformed_inbound m) = m.msg_id

-- The messages that the wire carries: numbers of 32 bits, an order ID of 64, and lists that an int
-- counts.
abbrev pub Ranged : Message → Type 0
Ranged (next_valid_id m) = Fits 64 m.order_id
Ranged (news_bulletin m) = Fits 32 m.msg_id × Fits 32 m.msg_type
Ranged (receive_fa m) = Fits 32 m.fa_data_type
Ranged (scanner_parameters m) = Unit
Ranged (scanner_data_response m) =
    Fits 32 m.req_id × Fits 64 (pos (length m.entries)) × All ScannerDataEntryRanged m.entries
Ranged (tick_efp m) = Fits 32 m.req_id × Fits 32 m.tick_type × Fits 32 m.hold_days
Ranged (current_time m) = Unit
Ranged (delta_neutral_validation m) = Fits 32 m.req_id × Fits 32 m.contract.con_id
Ranged (display_group_list m) = Fits 32 m.req_id
Ranged (display_group_updated m) = Fits 32 m.req_id
Ranged (sec_def_opt_params_response m) =
    Fits 32 m.req_id
    × Fits 32 m.underlying_con_id
    × Fits 64 (pos (length m.expirations))
    × Fits 64 (pos (length m.strikes))
Ranged (sec_def_opt_params_end m) = Fits 32 m.req_id
Ranged (soft_dollar_tiers_response m) = Fits 32 m.req_id × Fits 64 (pos (length m.tiers))
Ranged (family_codes m) = Fits 64 (pos (length m.codes))
Ranged (matching_symbols m) =
    Fits 32 m.req_id × Fits 64 (pos (length m.symbols)) × All SymbolSampleRanged m.symbols
Ranged (mkt_depth_exchanges m) =
    Fits 64 (pos (length m.exchanges)) × All DepthExchangeEntryRanged m.exchanges
Ranged (smart_components_response m) =
    Fits 32 m.req_id
    × Fits 64 (pos (length m.components))
    × All SmartComponentEntryRanged m.components
Ranged (news_article_response m) = Fits 32 m.req_id × Fits 32 m.article_type
Ranged (tick_news m) = Fits 32 m.req_id
Ranged (news_providers m) = Fits 64 (pos (length m.providers))
Ranged (historical_news_item m) = Fits 32 m.req_id
Ranged (historical_news_end m) = Fits 32 m.req_id
Ranged (market_rule m) = Fits 32 m.market_rule_id × Fits 64 (pos (length m.increments))
Ranged (pnl_value m) = Fits 32 m.req_id
Ranged (pnl_single_value m) = Fits 32 m.req_id
Ranged (wsh_meta_data_response m) = Fits 32 m.req_id
Ranged (wsh_event_data_response m) = Fits 32 m.req_id
Ranged (user_info m) = Fits 32 m.req_id
Ranged (current_time_millis m) = Unit
Ranged (unknown_inbound m) = ⊥
Ranged (malformed_inbound m) = ⊥
