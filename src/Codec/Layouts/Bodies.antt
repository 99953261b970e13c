-- ===== src/Codec/Layouts/Bodies.antt =====
-- The layouts of the classic bodies behind the message ID: the fields in the order of the comment in
-- front of the decoder, where it has one. A row of scanner data follows its decoder, whose comment has
-- the trading class in another place; the validation of a delta-neutral contract has none.
-- A version field may hold any text.
use ibkr_go.Prelude.{pos, ◌≡◌, false, none, List, [], ◌∷◌, ◌++◌, length}
use ibkr_go.Wire.Fields.{Bytes}
use ibkr_go.Codec.Numbers.{itoa}
use ibkr_go.Codec.Numbers.RoundTrip.{Fits}
use ibkr_go.Codec.Messages.{
  Contract, CurrentTime, CurrentTimeMillis, DeltaNeutralContract, DeltaNeutralValidation,
  DepthExchangeEntry, DisplayGroupList, DisplayGroupUpdated, FamilyCodeEntry, FamilyCodes,
  HistoricalNewsEnd, HistoricalNewsItem, MarketRule, MatchingSymbols, MktDepthExchanges,
  NewsArticleResponse, NewsBulletin, NewsProviderEntry, NewsProviders, NextValidId, PnlSingleValue,
  PnlValue, PriceIncrement, ReceiveFa, ScannerDataEntry, ScannerDataResponse, ScannerParameters,
  SecDefOptParamsEnd, SecDefOptParamsResponse, SmartComponentEntry, SmartComponentsResponse,
  SoftDollarTier, SoftDollarTiersResponse, SymbolSample, TickEfp, TickNews, UserInfo,
  WshEventDataResponse, WshMetaDataResponse,
}
use ibkr_go.Codec.Gives.{btoa}
use ibkr_go.Codec.Gives.Counts.{entries_fields}

abbrev pub next_valid_id_fields : Bytes → NextValidId → List Bytes
next_valid_id_fields version m = version ∷ itoa m.order_id ∷ []

abbrev pub news_bulletin_fields : Bytes → NewsBulletin → List Bytes
news_bulletin_fields version m =
    version ∷ itoa m.msg_id ∷ itoa m.msg_type ∷ m.headline ∷ m.source ∷ []

abbrev pub receive_fa_fields : Bytes → ReceiveFa → List Bytes
receive_fa_fields version m = version ∷ itoa m.fa_data_type ∷ m.xml ∷ []

abbrev pub scanner_parameters_fields : Bytes → ScannerParameters → List Bytes
scanner_parameters_fields version m = version ∷ m.xml ∷ []

-- The columns of a row: nine of the contract's stand in front of the market name, and its tenth, the
-- trading class, behind it.
abbrev pub scanner_data_entry_fields : ScannerDataEntry → List Bytes
scanner_data_entry_fields e =
    itoa e.rank
    ∷ itoa e.contract.con_id
    ∷ e.contract.symbol
    ∷ e.contract.sec_type
    ∷ e.contract.expiry
    ∷ e.contract.strike
    ∷ e.contract.right
    ∷ e.contract.exchange
    ∷ e.contract.currency
    ∷ e.contract.local_symbol
    ∷ e.market_name
    ∷ e.contract.trading_class
    ∷ e.distance
    ∷ e.benchmark
    ∷ e.projection
    ∷ e.legs_str
    ∷ []

-- Without the fields that a row does not have.
abbrev pub bare_contract : Contract → Contract
bare_contract c = record c {
  multiplier = [];
  primary_exchange = [];
  include_expired = false;
  security_id_type = [];
  security_id = [];
  issuer_id = [];
  combo_legs = [];
  delta_neutral = none;
}

abbrev pub ScannerDataEntryRanged : ScannerDataEntry → Type 0
ScannerDataEntryRanged e =
    Fits 32 e.rank × Fits 32 e.contract.con_id × (bare_contract e.contract ≡ e.contract)

abbrev pub scanner_data_response_fields : Bytes → ScannerDataResponse → List Bytes
scanner_data_response_fields version m =
    version
    ∷ itoa m.req_id
    ∷ itoa (pos (length m.entries))
    ∷ (entries_fields scanner_data_entry_fields m.entries ++ [])

abbrev pub tick_efp_fields : Bytes → TickEfp → List Bytes
tick_efp_fields version m =
    version
    ∷ itoa m.req_id
    ∷ itoa m.tick_type
    ∷ m.basis_points
    ∷ m.formatted_basis_points
    ∷ m.implied_futures_price
    ∷ itoa m.hold_days
    ∷ m.future_last_trade_date
    ∷ m.dividend_impact
    ∷ m.dividends_to_last_trade_date
    ∷ []

abbrev pub current_time_fields : Bytes → CurrentTime → List Bytes
current_time_fields version m = version ∷ m.time ∷ []

abbrev pub delta_neutral_contract_fields : DeltaNeutralContract → List Bytes
delta_neutral_contract_fields e = itoa e.con_id ∷ e.delta ∷ e.price ∷ []

abbrev pub delta_neutral_validation_fields : Bytes → DeltaNeutralValidation → List Bytes
delta_neutral_validation_fields version m =
    version ∷ itoa m.req_id ∷ (delta_neutral_contract_fields m.contract ++ [])

abbrev pub display_group_list_fields : Bytes → DisplayGroupList → List Bytes
display_group_list_fields version m = version ∷ itoa m.req_id ∷ m.groups ∷ []

abbrev pub display_group_updated_fields : Bytes → DisplayGroupUpdated → List Bytes
display_group_updated_fields version m = version ∷ itoa m.req_id ∷ m.contract_info ∷ []

abbrev pub sec_def_opt_params_response_fields : Bytes → SecDefOptParamsResponse → List Bytes
sec_def_opt_params_response_fields version m =
    itoa m.req_id
    ∷ m.exchange
    ∷ itoa m.underlying_con_id
    ∷ m.trading_class
    ∷ m.multiplier
    ∷ itoa (pos (length m.expirations))
    ∷ (entries_fields (λ f. f ∷ []) m.expirations
        ++ (itoa (pos (length m.strikes)) ∷ (entries_fields (λ f. f ∷ []) m.strikes ++ [])))

abbrev pub sec_def_opt_params_end_fields : Bytes → SecDefOptParamsEnd → List Bytes
sec_def_opt_params_end_fields version m = itoa m.req_id ∷ []

abbrev pub soft_dollar_tier_fields : SoftDollarTier → List Bytes
soft_dollar_tier_fields e = e.name ∷ e.value ∷ e.display_name ∷ []

abbrev pub soft_dollar_tiers_response_fields : Bytes → SoftDollarTiersResponse → List Bytes
soft_dollar_tiers_response_fields version m =
    itoa m.req_id
    ∷ itoa (pos (length m.tiers))
    ∷ (entries_fields soft_dollar_tier_fields m.tiers ++ [])

abbrev pub family_code_entry_fields : FamilyCodeEntry → List Bytes
family_code_entry_fields e = e.account_id ∷ e.family_code ∷ []

abbrev pub family_codes_fields : Bytes → FamilyCodes → List Bytes
family_codes_fields version m =
    itoa (pos (length m.codes)) ∷ (entries_fields family_code_entry_fields m.codes ++ [])

abbrev pub symbol_sample_fields : SymbolSample → List Bytes
symbol_sample_fields e =
    itoa e.con_id
    ∷ e.symbol
    ∷ e.sec_type
    ∷ e.primary_exchange
    ∷ e.currency
    ∷ itoa (pos (length e.derivative_sec_types))
    ∷ (entries_fields (λ f. f ∷ []) e.derivative_sec_types ++ (e.description ∷ e.issuer_id ∷ []))

abbrev pub SymbolSampleRanged : SymbolSample → Type 0
SymbolSampleRanged e = Fits 32 e.con_id × Fits 64 (pos (length e.derivative_sec_types))

abbrev pub matching_symbols_fields : Bytes → MatchingSymbols → List Bytes
matching_symbols_fields version m =
    itoa m.req_id
    ∷ itoa (pos (length m.symbols))
    ∷ (entries_fields symbol_sample_fields m.symbols ++ [])

abbrev pub depth_exchange_entry_fields : DepthExchangeEntry → List Bytes
depth_exchange_entry_fields e =
    e.exchange ∷ e.sec_type ∷ e.listing_exch ∷ e.service_data_type ∷ itoa e.agg_group ∷ []

abbrev pub DepthExchangeEntryRanged : DepthExchangeEntry → Type 0
DepthExchangeEntryRanged e = Fits 32 e.agg_group

abbrev pub mkt_depth_exchanges_fields : Bytes → MktDepthExchanges → List Bytes
mkt_depth_exchanges_fields version m =
    itoa (pos (length m.exchanges)) ∷ (entries_fields depth_exchange_entry_fields m.exchanges ++ [])

abbrev pub smart_component_entry_fields : SmartComponentEntry → List Bytes
smart_component_entry_fields e = itoa e.bit_number ∷ e.exchange_name ∷ e.exchange_letter ∷ []

abbrev pub SmartComponentEntryRanged : SmartComponentEntry → Type 0
SmartComponentEntryRanged e = Fits 32 e.bit_number

abbrev pub smart_components_response_fields : Bytes → SmartComponentsResponse → List Bytes
smart_components_response_fields version m =
    itoa m.req_id
    ∷ itoa (pos (length m.components))
    ∷ (entries_fields smart_component_entry_fields m.components ++ [])

abbrev pub news_article_response_fields : Bytes → NewsArticleResponse → List Bytes
news_article_response_fields version m = itoa m.req_id ∷ itoa m.article_type ∷ m.article_text ∷ []

abbrev pub tick_news_fields : Bytes → TickNews → List Bytes
tick_news_fields version m =
    itoa m.req_id ∷ m.time ∷ m.provider_code ∷ m.article_id ∷ m.headline ∷ m.extra_data ∷ []

abbrev pub news_provider_entry_fields : NewsProviderEntry → List Bytes
news_provider_entry_fields e = e.code ∷ e.name ∷ []

abbrev pub news_providers_fields : Bytes → NewsProviders → List Bytes
news_providers_fields version m =
    itoa (pos (length m.providers)) ∷ (entries_fields news_provider_entry_fields m.providers ++ [])

abbrev pub historical_news_item_fields : Bytes → HistoricalNewsItem → List Bytes
historical_news_item_fields version m =
    itoa m.req_id ∷ m.time ∷ m.provider_code ∷ m.article_id ∷ m.headline ∷ []

abbrev pub historical_news_end_fields : Bytes → HistoricalNewsEnd → List Bytes
historical_news_end_fields version m = itoa m.req_id ∷ btoa m.has_more ∷ []

abbrev pub price_increment_fields : PriceIncrement → List Bytes
price_increment_fields e = e.low_edge ∷ e.increment ∷ []

abbrev pub market_rule_fields : Bytes → MarketRule → List Bytes
market_rule_fields version m =
    itoa m.market_rule_id
    ∷ itoa (pos (length m.increments))
    ∷ (entries_fields price_increment_fields m.increments ++ [])

abbrev pub pnl_value_fields : Bytes → PnlValue → List Bytes
pnl_value_fields version m = itoa m.req_id ∷ m.daily_pnl ∷ m.unrealized_pnl ∷ m.realized_pnl ∷ []

abbrev pub pnl_single_value_fields : Bytes → PnlSingleValue → List Bytes
pnl_single_value_fields version m =
    itoa m.req_id ∷ m.position ∷ m.daily_pnl ∷ m.unrealized_pnl ∷ m.realized_pnl ∷ m.value ∷ []

abbrev pub wsh_meta_data_response_fields : Bytes → WshMetaDataResponse → List Bytes
wsh_meta_data_response_fields version m = itoa m.req_id ∷ m.data_json ∷ []

abbrev pub wsh_event_data_response_fields : Bytes → WshEventDataResponse → List Bytes
wsh_event_data_response_fields version m = itoa m.req_id ∷ m.data_json ∷ []

abbrev pub user_info_fields : Bytes → UserInfo → List Bytes
user_info_fields version m = itoa m.req_id ∷ m.white_branding_id ∷ []

abbrev pub current_time_millis_fields : Bytes → CurrentTimeMillis → List Bytes
current_time_millis_fields version m = m.time_ms ∷ []
