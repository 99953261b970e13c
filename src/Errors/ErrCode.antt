-- ===== src/Errors/ErrCode.antt =====
-- errcodes.go: the codes of the Gateway's errors and notices.
use ibkr_go.Prelude.{ℕ}

abbrev pub max_message_rate : ℕ
max_message_rate = 100

abbrev pub cancel_not_cancellable_state : ℕ
cancel_not_cancellable_state = 161

abbrev pub historical_data_service : ℕ
historical_data_service = 162

abbrev pub historical_data_query_message : ℕ
historical_data_query_message = 165

abbrev pub no_security_definition : ℕ
no_security_definition = 200

abbrev pub order_rejected : ℕ
order_rejected = 201

abbrev pub order_canceled : ℕ
order_canceled = 202

abbrev pub server_error_reading_request : ℕ
server_error_reading_request = 320

abbrev pub server_error_validating_request : ℕ
server_error_validating_request = 321

abbrev pub server_error_processing_request : ℕ
server_error_processing_request = 322

abbrev pub trailing_stop_attach_rejected : ℕ
trailing_stop_attach_rejected = 328

abbrev pub market_data_not_subscribed : ℕ
market_data_not_subscribed = 354

abbrev pub unsupported_order_type : ℕ
unsupported_order_type = 387

abbrev pub order_message : ℕ
order_message = 399

abbrev pub invalid_real_time_query : ℕ
invalid_real_time_query = 420

abbrev pub algo_definition_not_found : ℕ
algo_definition_not_found = 439

abbrev pub unknown_algo_attribute : ℕ
unknown_algo_attribute = 443

abbrev pub connectivity_lost : ℕ
connectivity_lost = 1100

abbrev pub connectivity_restored_data_lost : ℕ
connectivity_restored_data_lost = 1101

abbrev pub connectivity_restored_data_maintained : ℕ
connectivity_restored_data_maintained = 1102

abbrev pub market_data_farm_ok : ℕ
market_data_farm_ok = 2104

abbrev pub historical_data_farm_ok : ℕ
historical_data_farm_ok = 2106

abbrev pub historical_data_farm_inactive : ℕ
historical_data_farm_inactive = 2107

abbrev pub historical_data_subscription_required : ℕ
historical_data_subscription_required = 2188

abbrev pub smart_depth_exchanges : ℕ
smart_depth_exchanges = 2152

abbrev pub sec_def_data_farm_ok : ℕ
sec_def_data_farm_ok = 2158

abbrev pub invalid_fx_hedge_order : ℕ
invalid_fx_hedge_order = 10063

abbrev pub additional_subscription_required : ℕ
additional_subscription_required = 10089

abbrev pub deep_market_data_not_supported : ℕ
deep_market_data_not_supported = 10092

abbrev pub partial_market_data_subscription_required : ℕ
partial_market_data_subscription_required = 10091

abbrev pub order_to_cancel_not_found : ℕ
order_to_cancel_not_found = 10147

abbrev pub order_cannot_be_cancelled : ℕ
order_cannot_be_cancelled = 10148

abbrev pub delayed_market_data_displayed : ℕ
delayed_market_data_displayed = 10167

abbrev pub news_article_request_failed : ℕ
news_article_request_failed = 10172

abbrev pub tick_by_tick_data_not_allowed : ℕ
tick_by_tick_data_not_allowed = 10189

abbrev pub display_size_not_allowed : ℕ
display_size_not_allowed = 10255

abbrev pub news_feed_not_allowed : ℕ
news_feed_not_allowed = 10276

abbrev pub active_start_time_invalid : ℕ
active_start_time_invalid = 10315

abbrev pub imbalance_only_not_allowed : ℕ
imbalance_only_not_allowed = 10342

abbrev pub invalid_time_in_force : ℕ
invalid_time_in_force = 10052

abbrev pub order_tif_set_from_preset : ℕ
order_tif_set_from_preset = 10349
