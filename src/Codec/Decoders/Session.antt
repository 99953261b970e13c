-- ===== src/Codec/Decoders/Session.antt =====
-- internal/codec: decoders of codec_session.go, codec_account.go and codec_misc.go.
use ibkr_go.Prelude.{false, none, List, [], ◌∷◌}
use ibkr_go.Codec.Messages.{
  Contract, FamilyCodeEntry, ScannerDataEntry, Message, next_valid_id, receive_fa,
  scanner_parameters, scanner_data_response, current_time, display_group_list,
  display_group_updated, family_codes, pnl_value, pnl_single_value, wsh_meta_data_response,
  wsh_event_data_response, user_info, current_time_millis,
}
use ibkr_go.Codec.Reader.{read_int64, read_count}
use ibkr_go.Codec.Decoder.{
  Decoder, ◌>>=◌, ◌>>◌, pure, int, string, checked, skipped, require, repeated,
}

unfoldable pub decode_next_valid_id : Decoder (List Message)
decode_next_valid_id = do
  skipped 1
  order_id ← checked read_int64
  pure (next_valid_id (record { order_id = order_id }) ∷ [])

unfoldable pub decode_current_time : Decoder (List Message)
decode_current_time = do skipped 1; time ← string; pure (current_time (record { time = time }) ∷ [])

unfoldable pub decode_current_time_in_millis : Decoder (List Message)
decode_current_time_in_millis = do
  time_ms ← string
  pure (current_time_millis (record { time_ms = time_ms }) ∷ [])

unfoldable pub decode_user_info : Decoder (List Message)
decode_user_info = do
  req_id ← int
  white_branding_id ← string
  pure (user_info (record { req_id = req_id; white_branding_id = white_branding_id }) ∷ [])

unfoldable pub read_family_code_entry : Decoder FamilyCodeEntry
read_family_code_entry = do
  account_id ← string
  family_code ← string
  pure (record { account_id = account_id; family_code = family_code })

unfoldable pub decode_family_codes : Decoder (List Message)
unfolding read_family_code_entry
decode_family_codes = do
  count ← checked (read_count "family code count")
  require "family codes" count 2 0
  codes ← repeated count read_family_code_entry
  pure (family_codes (record { codes = codes }) ∷ [])

unfoldable pub decode_pnl : Decoder (List Message)
decode_pnl = do
  req_id ← int
  daily_pnl ← string
  unrealized_pnl ← string
  realized_pnl ← string
  pure (
      pnl_value (record {
        req_id = req_id;
        daily_pnl = daily_pnl;
        unrealized_pnl = unrealized_pnl;
        realized_pnl = realized_pnl;
      })
      ∷ [])

unfoldable pub decode_pnl_single : Decoder (List Message)
decode_pnl_single = do
  req_id ← int
  position ← string
  daily_pnl ← string
  unrealized_pnl ← string
  realized_pnl ← string
  value ← string
  pure (
      pnl_single_value (record {
        req_id = req_id;
        position = position;
        daily_pnl = daily_pnl;
        unrealized_pnl = unrealized_pnl;
        realized_pnl = realized_pnl;
        value = value;
      })
      ∷ [])

unfoldable pub decode_receive_fa : Decoder (List Message)
decode_receive_fa = do
  skipped 1
  fa_data_type ← int
  xml ← string
  pure (receive_fa (record { fa_data_type = fa_data_type; xml = xml }) ∷ [])

unfoldable pub decode_scanner_parameters : Decoder (List Message)
decode_scanner_parameters = do
  skipped 1
  xml ← string
  pure (scanner_parameters (record { xml = xml }) ∷ [])

-- The fields that a row does not have are Go's zero values; decodeScannerData sets trading_class later.
unfoldable pub read_scanner_contract : Decoder Contract
read_scanner_contract = do
  con_id ← int
  symbol ← string
  sec_type ← string
  expiry ← string
  strike ← string
  right ← string
  exchange ← string
  currency ← string
  local_symbol ← string
  pure (record {
    con_id = con_id;
    symbol = symbol;
    sec_type = sec_type;
    expiry = expiry;
    strike = strike;
    right = right;
    multiplier = [];
    exchange = exchange;
    currency = currency;
    local_symbol = local_symbol;
    trading_class = [];
    primary_exchange = [];
    include_expired = false;
    security_id_type = [];
    security_id = [];
    issuer_id = [];
    combo_legs = [];
    delta_neutral = none;
  })

unfoldable pub read_scanner_data_entry : Decoder ScannerDataEntry
unfolding read_scanner_contract
read_scanner_data_entry = do
  rank ← int
  contract ← read_scanner_contract
  market_name ← string
  trading_class ← string
  distance ← string
  benchmark ← string
  projection ← string
  legs_str ← string
  pure (record {
    rank = rank;
    contract = record contract { trading_class = trading_class };
    market_name = market_name;
    distance = distance;
    benchmark = benchmark;
    projection = projection;
    legs_str = legs_str;
  })

unfoldable pub decode_scanner_data : Decoder (List Message)
unfolding read_scanner_data_entry
decode_scanner_data = do
  skipped 1
  req_id ← int
  count ← checked (read_count "scanner entry count")
  require "scanner data" count 16 0
  entries ← repeated count read_scanner_data_entry
  pure (scanner_data_response (record { req_id = req_id; entries = entries }) ∷ [])

unfoldable pub decode_display_group_list : Decoder (List Message)
decode_display_group_list = do
  skipped 1
  req_id ← int
  groups ← string
  pure (display_group_list (record { req_id = req_id; groups = groups }) ∷ [])

unfoldable pub decode_display_group_updated : Decoder (List Message)
decode_display_group_updated = do
  skipped 1
  req_id ← int
  contract_info ← string
  pure (display_group_updated (record { req_id = req_id; contract_info = contract_info }) ∷ [])

unfoldable pub decode_wsh_meta_data : Decoder (List Message)
decode_wsh_meta_data = do
  req_id ← int
  data_json ← string
  pure (wsh_meta_data_response (record { req_id = req_id; data_json = data_json }) ∷ [])

unfoldable pub decode_wsh_event_data : Decoder (List Message)
decode_wsh_event_data = do
  req_id ← int
  data_json ← string
  pure (wsh_event_data_response (record { req_id = req_id; data_json = data_json }) ∷ [])
