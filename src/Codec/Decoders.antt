-- ===== src/Codec/Decoders.antt =====
-- internal/codec/codec.go: the table inboundDecoders and the call of its entry.
pub mod News
pub mod Contracts
pub mod Session
use ibkr_go.Prelude.{
  ℕ, zero, suc, ◌+◌, ◌-◌, ◌*◌, ◌/◌, ◌%◌, ◌^◌, ◌≤◌, ◌<◌, max, ℤ, pos, negsuc, ltz, is_negative,
  int_eq, int_eq-eq, String, string_append, ◌≡◌, refl, sym, ap, fun_ext, ◌∙◌, subst, ◌≢◌, ◌↔◌, ◌⊎◌,
  inl, inr, Bool, true, false, not, ◌&&◌, ◌||◌, Option, none, some, List, [], ◌∷◌, ◌++◌, map,
  append_assoc, append-nil, arith, ltb, leb, ◌==◌, if◌then◌else◌, ltb→lt, lt→ltb, le→ltb, ==_iff,
  Bool-cases, Option-cases, if_both, if_cases, or_else_both, Memᴰ, any-mem, all-mem, length, take,
  drop, length-append, take-append-drop, length-take, length-drop, take-append_left,
  drop-append_left, all, any, All, Result, ok, err, ◌>>◌, reject, is_space, trim_space, is_empty,
  is_blank, is_one_of, is_blank-is_empty, is_one_of-mem, str_eq, eq_iff,
}
use ibkr_go.Wire.Fields.{Bytes}
use ibkr_go.Protocol.Inbound.{Inbound, inbound_id}
use ibkr_go.Codec.Messages.{Message}
use ibkr_go.Codec.Reader.{FieldError, FieldReader}
use ibkr_go.Codec.Decoder.{Decoder}
use ibkr_go.Codec.Decoders.News.{
  decode_news_bulletins, decode_news_article, decode_tick_news, decode_news_providers,
  decode_historical_news, decode_historical_news_end,
}
use ibkr_go.Codec.Decoders.Contracts.{
  decode_sec_def_opt_params, decode_sec_def_opt_params_end, decode_symbol_samples,
  decode_smart_components, decode_market_rule, decode_tick_efp, decode_delta_neutral_validation,
  decode_mkt_depth_exchanges, decode_soft_dollar_tiers,
}
use ibkr_go.Codec.Decoders.Session.{
  decode_next_valid_id, decode_current_time, decode_current_time_in_millis, decode_user_info,
  decode_family_codes, decode_pnl, decode_pnl_single, decode_receive_fa, decode_scanner_parameters,
  decode_scanner_data, decode_display_group_list, decode_display_group_updated,
  decode_wsh_meta_data, decode_wsh_event_data,
}

unfoldable pub inbound_decoders : List (ℕ × Decoder (List Message))
unfolding inbound_id
inbound_decoders =
    (inbound_id Inbound.current_time_in_millis, decode_current_time_in_millis)
    ∷ (inbound_id Inbound.next_valid_id, decode_next_valid_id)
    ∷ (inbound_id Inbound.scanner_parameters, decode_scanner_parameters)
    ∷ (inbound_id Inbound.scanner_data, decode_scanner_data)
    ∷ (inbound_id Inbound.tick_efp, decode_tick_efp)
    ∷ (inbound_id Inbound.current_time, decode_current_time)
    ∷ (inbound_id Inbound.delta_neutral_validation, decode_delta_neutral_validation)
    ∷ (inbound_id Inbound.sec_def_opt_params, decode_sec_def_opt_params)
    ∷ (inbound_id Inbound.sec_def_opt_params_end, decode_sec_def_opt_params_end)
    ∷ (inbound_id Inbound.family_codes, decode_family_codes)
    ∷ (inbound_id Inbound.mkt_depth_exchanges, decode_mkt_depth_exchanges)
    ∷ (inbound_id Inbound.news_article, decode_news_article)
    ∷ (inbound_id Inbound.tick_news, decode_tick_news)
    ∷ (inbound_id Inbound.news_providers, decode_news_providers)
    ∷ (inbound_id Inbound.symbol_samples, decode_symbol_samples)
    ∷ (inbound_id Inbound.smart_components, decode_smart_components)
    ∷ (inbound_id Inbound.historical_news, decode_historical_news)
    ∷ (inbound_id Inbound.historical_news_end, decode_historical_news_end)
    ∷ (inbound_id Inbound.market_rule, decode_market_rule)
    ∷ (inbound_id Inbound.user_info, decode_user_info)
    ∷ (inbound_id Inbound.news_bulletins, decode_news_bulletins)
    ∷ (inbound_id Inbound.pnl, decode_pnl)
    ∷ (inbound_id Inbound.pnl_single, decode_pnl_single)
    ∷ (inbound_id Inbound.receive_fa, decode_receive_fa)
    ∷ (inbound_id Inbound.soft_dollar_tiers, decode_soft_dollar_tiers)
    ∷ (inbound_id Inbound.wsh_meta_data, decode_wsh_meta_data)
    ∷ (inbound_id Inbound.wsh_event_data, decode_wsh_event_data)
    ∷ (inbound_id Inbound.display_group_list, decode_display_group_list)
    ∷ (inbound_id Inbound.display_group_updated, decode_display_group_updated)
    ∷ []

-- The entry of a map at a key.
unfoldable pub entry_at {ℓ} : {A : Type ℓ} → ℕ → List (ℕ × A) → Option A
entry_at k [] = none
entry_at k ((key, a) ∷ entries) = if k == key then some a else entry_at k entries

abbrev pub or_sticky :
    Result FieldError (List Message) × FieldReader → Result FieldError (List Message)
or_sticky (err e, r) = err e
or_sticky (ok msgs, r) = elim r.err [ none ↦ ok msgs | some e ↦ err e ]

-- decodeByMsgID, with the entry of the table
unfoldable pub decode_by_msg_id :
    Decoder (List Message) → FieldReader → Result FieldError (List Message)
decode_by_msg_id decoder r = or_sticky (decoder r)
