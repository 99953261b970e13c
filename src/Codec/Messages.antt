-- ===== src/Codec/Messages.antt =====
-- internal/codec: the messages with a classic body that DecodeBatch decodes.
use ibkr_go.Prelude.{ℕ, ℤ, Bool, Option, List}
use ibkr_go.Wire.Fields.{Bytes}
use ibkr_go.Protocol.Envelope.{BodyEncoding}
use ibkr_go.Codec.Reader.{FieldError}

pub record NextValidId : Type 0 where
  pub order_id : ℤ

pub record NewsBulletin : Type 0 where
  pub msg_id : ℤ
  pub msg_type : ℤ
  pub headline : Bytes
  pub source : Bytes

pub record ReceiveFa : Type 0 where
  pub fa_data_type : ℤ
  pub xml : Bytes

pub record ScannerParameters : Type 0 where
  pub xml : Bytes

pub record ComboLeg : Type 0 where
  pub con_id : ℤ
  pub ratio : ℤ
  pub action : Bytes
  pub exchange : Bytes
  pub open_close : Bytes
  pub short_sale_slot : Bytes
  pub designated_location : Bytes
  pub exempt_code : Bytes

pub record DeltaNeutralContract : Type 0 where
  pub con_id : ℤ
  pub delta : Bytes
  pub price : Bytes

pub record Contract : Type 0 where
  pub con_id : ℤ
  pub symbol : Bytes
  pub sec_type : Bytes
  pub expiry : Bytes
  pub strike : Bytes
  pub right : Bytes
  pub multiplier : Bytes
  pub exchange : Bytes
  pub currency : Bytes
  pub local_symbol : Bytes
  pub trading_class : Bytes
  pub primary_exchange : Bytes
  pub include_expired : Bool
  pub security_id_type : Bytes
  pub security_id : Bytes
  pub issuer_id : Bytes
  pub combo_legs : List ComboLeg
  pub delta_neutral : Option DeltaNeutralContract

pub record ScannerDataEntry : Type 0 where
  pub rank : ℤ
  pub contract : Contract
  pub market_name : Bytes
  pub distance : Bytes
  pub benchmark : Bytes
  pub projection : Bytes
  pub legs_str : Bytes

pub record ScannerDataResponse : Type 0 where
  pub req_id : ℤ
  pub entries : List ScannerDataEntry

pub record TickEfp : Type 0 where
  pub req_id : ℤ
  pub tick_type : ℤ
  pub basis_points : Bytes
  pub formatted_basis_points : Bytes
  pub implied_futures_price : Bytes
  pub hold_days : ℤ
  pub future_last_trade_date : Bytes
  pub dividend_impact : Bytes
  pub dividends_to_last_trade_date : Bytes

pub record CurrentTime : Type 0 where
  pub time : Bytes

pub record DeltaNeutralValidation : Type 0 where
  pub req_id : ℤ
  pub contract : DeltaNeutralContract

pub record DisplayGroupList : Type 0 where
  pub req_id : ℤ
  pub groups : Bytes

pub record DisplayGroupUpdated : Type 0 where
  pub req_id : ℤ
  pub contract_info : Bytes

pub record SecDefOptParamsResponse : Type 0 where
  pub req_id : ℤ
  pub exchange : Bytes
  pub underlying_con_id : ℤ
  pub trading_class : Bytes
  pub multiplier : Bytes
  pub expirations : List Bytes
  pub strikes : List Bytes

pub record SecDefOptParamsEnd : Type 0 where
  pub req_id : ℤ

pub record SoftDollarTier : Type 0 where
  pub name : Bytes
  pub value : Bytes
  pub display_name : Bytes

pub record SoftDollarTiersResponse : Type 0 where
  pub req_id : ℤ
  pub tiers : List SoftDollarTier

pub record FamilyCodeEntry : Type 0 where
  pub account_id : Bytes
  pub family_code : Bytes

pub record FamilyCodes : Type 0 where
  pub codes : List FamilyCodeEntry

pub record SymbolSample : Type 0 where
  pub con_id : ℤ
  pub symbol : Bytes
  pub sec_type : Bytes
  pub primary_exchange : Bytes
  pub currency : Bytes
  pub derivative_sec_types : List Bytes
  pub description : Bytes
  pub issuer_id : Bytes

pub record MatchingSymbols : Type 0 where
  pub req_id : ℤ
  pub symbols : List SymbolSample

pub record DepthExchangeEntry : Type 0 where
  pub exchange : Bytes
  pub sec_type : Bytes
  pub listing_exch : Bytes
  pub service_data_type : Bytes
  pub agg_group : ℤ

pub record MktDepthExchanges : Type 0 where
  pub exchanges : List DepthExchangeEntry

pub record SmartComponentEntry : Type 0 where
  pub bit_number : ℤ
  pub exchange_name : Bytes
  pub exchange_letter : Bytes

pub record SmartComponentsResponse : Type 0 where
  pub req_id : ℤ
  pub components : List SmartComponentEntry

pub record NewsArticleResponse : Type 0 where
  pub req_id : ℤ
  pub article_type : ℤ
  pub article_text : Bytes

pub record TickNews : Type 0 where
  pub req_id : ℤ
  pub time : Bytes
  pub provider_code : Bytes
  pub article_id : Bytes
  pub headline : Bytes
  pub extra_data : Bytes

pub record NewsProviderEntry : Type 0 where
  pub code : Bytes
  pub name : Bytes

pub record NewsProviders : Type 0 where
  pub providers : List NewsProviderEntry

pub record HistoricalNewsItem : Type 0 where
  pub req_id : ℤ
  pub time : Bytes
  pub provider_code : Bytes
  pub article_id : Bytes
  pub headline : Bytes

pub record HistoricalNewsEnd : Type 0 where
  pub req_id : ℤ
  pub has_more : Bool

pub record PriceIncrement : Type 0 where
  pub low_edge : Bytes
  pub increment : Bytes

pub record MarketRule : Type 0 where
  pub market_rule_id : ℤ
  pub increments : List PriceIncrement

pub record PnlValue : Type 0 where
  pub req_id : ℤ
  pub daily_pnl : Bytes
  pub unrealized_pnl : Bytes
  pub realized_pnl : Bytes

pub record PnlSingleValue : Type 0 where
  pub req_id : ℤ
  pub position : Bytes
  pub daily_pnl : Bytes
  pub unrealized_pnl : Bytes
  pub realized_pnl : Bytes
  pub value : Bytes

pub record WshMetaDataResponse : Type 0 where
  pub req_id : ℤ
  pub data_json : Bytes

pub record WshEventDataResponse : Type 0 where
  pub req_id : ℤ
  pub data_json : Bytes

pub record UserInfo : Type 0 where
  pub req_id : ℤ
  pub white_branding_id : Bytes

pub record CurrentTimeMillis : Type 0 where
  pub time_ms : Bytes

-- The error of a malformed body: ErrMalformedFrame, or that of the decoder.
pub data BodyError : Type 0 where
  malformed_body : BodyError
  in_body : FieldError → BodyError

pub record UnknownInbound : Type 0 where
  pub msg_id : ℕ
  pub encoding : BodyEncoding
  pub fields : List Bytes
  pub payload : Bytes

pub record MalformedInbound : Type 0 where
  pub msg_id : ℕ
  pub encoding : BodyEncoding
  pub fields : List Bytes
  pub payload : Bytes
  pub error : BodyError

pub data Message : Type 0 where
  next_valid_id : NextValidId → Message
  news_bulletin : NewsBulletin → Message
  receive_fa : ReceiveFa → Message
  scanner_parameters : ScannerParameters → Message
  scanner_data_response : ScannerDataResponse → Message
  tick_efp : TickEfp → Message
  current_time : CurrentTime → Message
  delta_neutral_validation : DeltaNeutralValidation → Message
  display_group_list : DisplayGroupList → Message
  display_group_updated : DisplayGroupUpdated → Message
  sec_def_opt_params_response : SecDefOptParamsResponse → Message
  sec_def_opt_params_end : SecDefOptParamsEnd → Message
  soft_dollar_tiers_response : SoftDollarTiersResponse → Message
  family_codes : FamilyCodes → Message
  matching_symbols : MatchingSymbols → Message
  mkt_depth_exchanges : MktDepthExchanges → Message
  smart_components_response : SmartComponentsResponse → Message
  news_article_response : NewsArticleResponse → Message
  tick_news : TickNews → Message
  news_providers : NewsProviders → Message
  historical_news_item : HistoricalNewsItem → Message
  historical_news_end : HistoricalNewsEnd → Message
  market_rule : MarketRule → Message
  pnl_value : PnlValue → Message
  pnl_single_value : PnlSingleValue → Message
  wsh_meta_data_response : WshMetaDataResponse → Message
  wsh_event_data_response : WshEventDataResponse → Message
  user_info : UserInfo → Message
  current_time_millis : CurrentTimeMillis → Message
  unknown_inbound : UnknownInbound → Message
  malformed_inbound : MalformedInbound → Message
