-- ===== src/Codec/Decoders/Contracts.antt =====
-- internal/codec: decoders of codec_contracts.go, codec_marketdata.go and codec_orders.go.
use ibkr_go.Prelude.{List, [], ◌∷◌}
use ibkr_go.Codec.Messages.{
  DeltaNeutralContract, DepthExchangeEntry, PriceIncrement, SmartComponentEntry, SoftDollarTier,
  SymbolSample, Message, tick_efp, delta_neutral_validation, sec_def_opt_params_response,
  sec_def_opt_params_end, soft_dollar_tiers_response, matching_symbols, mkt_depth_exchanges,
  smart_components_response, market_rule,
}
use ibkr_go.Codec.Reader.{read_count}
use ibkr_go.Codec.Decoder.{
  Decoder, ◌>>=◌, ◌>>◌, pure, int, string, checked, skipped, require, within, within_sixth,
  repeated,
}

unfoldable pub decode_sec_def_opt_params : Decoder (List Message)
decode_sec_def_opt_params = do
  req_id ← int
  exchange ← string
  underlying_con_id ← int
  trading_class ← string
  multiplier ← string
  expiration_count ← checked (read_count "expiration count")
  within "sec def opt params: expiration count" expiration_count
  expirations ← repeated expiration_count string
  strike_count ← checked (read_count "strike count")
  within "sec def opt params: strike count" strike_count
  strikes ← repeated strike_count string
  pure (
      sec_def_opt_params_response (record {
        req_id = req_id;
        exchange = exchange;
        underlying_con_id = underlying_con_id;
        trading_class = trading_class;
        multiplier = multiplier;
        expirations = expirations;
        strikes = strikes;
      })
      ∷ [])

unfoldable pub decode_sec_def_opt_params_end : Decoder (List Message)
decode_sec_def_opt_params_end = do
  req_id ← int
  pure (sec_def_opt_params_end (record { req_id = req_id }) ∷ [])

unfoldable pub read_symbol_sample : Decoder SymbolSample
read_symbol_sample = do
  con_id ← int
  symbol ← string
  sec_type ← string
  primary_exchange ← string
  currency ← string
  count ← checked (read_count "derivative sec type count")
  within "symbol samples: derivative count" count
  derivative_sec_types ← repeated count string
  description ← string
  issuer_id ← string
  pure (record {
    con_id = con_id;
    symbol = symbol;
    sec_type = sec_type;
    primary_exchange = primary_exchange;
    currency = currency;
    derivative_sec_types = derivative_sec_types;
    description = description;
    issuer_id = issuer_id;
  })

unfoldable pub decode_symbol_samples : Decoder (List Message)
unfolding read_symbol_sample
decode_symbol_samples = do
  req_id ← int
  count ← checked (read_count "sample count")
  within_sixth "symbol samples: count" count
  symbols ← repeated count read_symbol_sample
  pure (matching_symbols (record { req_id = req_id; symbols = symbols }) ∷ [])

unfoldable pub read_smart_component_entry : Decoder SmartComponentEntry
read_smart_component_entry = do
  bit_number ← int
  exchange_name ← string
  exchange_letter ← string
  pure (record {
    bit_number = bit_number;
    exchange_name = exchange_name;
    exchange_letter = exchange_letter;
  })

unfoldable pub decode_smart_components : Decoder (List Message)
unfolding read_smart_component_entry
decode_smart_components = do
  req_id ← int
  count ← checked (read_count "smart component count")
  require "smart components" count 3 0
  components ← repeated count read_smart_component_entry
  pure (smart_components_response (record { req_id = req_id; components = components }) ∷ [])

unfoldable pub read_price_increment : Decoder PriceIncrement
read_price_increment = do
  low_edge ← string
  increment ← string
  pure (record { low_edge = low_edge; increment = increment })

unfoldable pub decode_market_rule : Decoder (List Message)
unfolding read_price_increment
decode_market_rule = do
  market_rule_id ← int
  count ← checked (read_count "market rule increment count")
  require "market rule" count 2 0
  increments ← repeated count read_price_increment
  pure (market_rule (record { market_rule_id = market_rule_id; increments = increments }) ∷ [])

unfoldable pub decode_tick_efp : Decoder (List Message)
decode_tick_efp = do
  skipped 1
  req_id ← int
  tick_type ← int
  basis_points ← string
  formatted_basis_points ← string
  implied_futures_price ← string
  hold_days ← int
  future_last_trade_date ← string
  dividend_impact ← string
  dividends_to_last_trade_date ← string
  pure (
      tick_efp (record {
        req_id = req_id;
        tick_type = tick_type;
        basis_points = basis_points;
        formatted_basis_points = formatted_basis_points;
        implied_futures_price = implied_futures_price;
        hold_days = hold_days;
        future_last_trade_date = future_last_trade_date;
        dividend_impact = dividend_impact;
        dividends_to_last_trade_date = dividends_to_last_trade_date;
      })
      ∷ [])

unfoldable pub read_delta_neutral_contract : Decoder DeltaNeutralContract
read_delta_neutral_contract = do
  con_id ← int
  delta ← string
  price ← string
  pure (record { con_id = con_id; delta = delta; price = price })

unfoldable pub decode_delta_neutral_validation : Decoder (List Message)
unfolding read_delta_neutral_contract
decode_delta_neutral_validation = do
  skipped 1
  req_id ← int
  contract ← read_delta_neutral_contract
  pure (delta_neutral_validation (record { req_id = req_id; contract = contract }) ∷ [])

unfoldable pub read_depth_exchange_entry : Decoder DepthExchangeEntry
read_depth_exchange_entry = do
  exchange ← string
  sec_type ← string
  listing_exch ← string
  service_data_type ← string
  agg_group ← int
  pure (record {
    exchange = exchange;
    sec_type = sec_type;
    listing_exch = listing_exch;
    service_data_type = service_data_type;
    agg_group = agg_group;
  })

unfoldable pub decode_mkt_depth_exchanges : Decoder (List Message)
unfolding read_depth_exchange_entry
decode_mkt_depth_exchanges = do
  count ← checked (read_count "depth exchange count")
  require "market depth exchanges" count 5 0
  exchanges ← repeated count read_depth_exchange_entry
  pure (mkt_depth_exchanges (record { exchanges = exchanges }) ∷ [])

unfoldable pub read_soft_dollar_tier : Decoder SoftDollarTier
read_soft_dollar_tier = do
  name ← string
  value ← string
  display_name ← string
  pure (record { name = name; value = value; display_name = display_name })

unfoldable pub decode_soft_dollar_tiers : Decoder (List Message)
unfolding read_soft_dollar_tier
decode_soft_dollar_tiers = do
  req_id ← int
  count ← checked (read_count "soft dollar tier count")
  require "soft dollar tiers" count 3 0
  tiers ← repeated count read_soft_dollar_tier
  pure (soft_dollar_tiers_response (record { req_id = req_id; tiers = tiers }) ∷ [])
