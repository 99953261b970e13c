-- ===== src/Codec/RoundTrip.antt =====
-- Classic bodies through the envelope and the table of decoders.
pub mod News
pub mod Contracts
pub mod Markets
pub mod Session
use ibkr_go.Prelude.{
  ℕ, zero, suc, ◌+◌, ◌-◌, ◌*◌, ◌/◌, ◌%◌, ◌^◌, ◌≤◌, ◌<◌, max, ℤ, pos, negsuc, ltz, is_negative,
  int_eq, int_eq-eq, String, string_append, ◌≡◌, refl, sym, ap, fun_ext, ◌∙◌, subst, ◌≢◌, ◌↔◌, ◌⊎◌,
  inl, inr, Bool, true, false, not, ◌&&◌, ◌||◌, Option, none, some, List, [], ◌∷◌, ◌++◌, map,
  append_assoc, append-nil, arith, ltb, leb, ◌==◌, if◌then◌else◌, ltb→lt, lt→ltb, le→ltb, ==_iff,
  Bool-cases, Option-cases, if_both, if_cases, or_else_both, Memᴰ, any-mem, all-mem, length, take,
  drop, length-append, take-append-drop, length-take, length-drop, take-append_left,
  drop-append_left, all, any, All, Result, ok, err, ◌>>◌, reject, is_space, trim_space, is_empty,
  is_blank, is_one_of, is_blank-is_empty, is_one_of-mem, str_eq, eq_iff,
}
use ibkr_go.Wire.Fields.{Bytes, encode_fields, ends_in_nul}
use ibkr_go.Wire.Fields.RoundTrip.{NulFree, ends_in_nul-encode_fields}
use ibkr_go.Protocol.Inbound.{Inbound, inbound_id}
use ibkr_go.Protocol.Envelope.{
  protobuf_message_id, classic_body, Envelope, envelope, has_nul, encode_classic_envelope,
  decode_envelope,
}
use ibkr_go.Protocol.Envelope.Laws.{decode_envelope-encode_classic}
use ibkr_go.Codec.Messages.{
  Message, next_valid_id, news_bulletin, receive_fa, scanner_parameters, scanner_data_response,
  tick_efp, current_time, delta_neutral_validation, display_group_list, display_group_updated,
  sec_def_opt_params_response, sec_def_opt_params_end, soft_dollar_tiers_response, family_codes,
  matching_symbols, mkt_depth_exchanges, smart_components_response, news_article_response,
  tick_news, news_providers, historical_news_item, historical_news_end, market_rule, pnl_value,
  pnl_single_value, wsh_meta_data_response, wsh_event_data_response, user_info, current_time_millis,
  unknown_inbound, malformed_inbound,
}
use ibkr_go.Codec.Layouts.Bodies.{
  next_valid_id_fields, news_bulletin_fields, receive_fa_fields, scanner_parameters_fields,
  scanner_data_response_fields, tick_efp_fields, current_time_fields,
  delta_neutral_validation_fields, display_group_list_fields, display_group_updated_fields,
  sec_def_opt_params_response_fields, sec_def_opt_params_end_fields,
  soft_dollar_tiers_response_fields, family_codes_fields, matching_symbols_fields,
  mkt_depth_exchanges_fields, smart_components_response_fields, news_article_response_fields,
  tick_news_fields, news_providers_fields, historical_news_item_fields, historical_news_end_fields,
  market_rule_fields, pnl_value_fields, pnl_single_value_fields, wsh_meta_data_response_fields,
  wsh_event_data_response_fields, user_info_fields, current_time_millis_fields,
}
use ibkr_go.Codec.Layouts.{wire_fields, wire_id, Ranged}
use ibkr_go.Codec.Reader.{FieldError, FieldReader, new_field_reader_bytes}
use ibkr_go.Codec.Reader.Refine.{Reads, new_field_reader_bytes-Reads}
use ibkr_go.Codec.Decoder.{Decoder}
use ibkr_go.Codec.Decoders.{inbound_decoders, entry_at, decode_by_msg_id, or_sticky}
use ibkr_go.Codec.Gives.{Gives, Got}
use ibkr_go.Codec.Batch.{
  ProtobufDecoder, body_reader, messages_of, decode_classic, decode_body, decode_enveloped,
  decode_batch, only_message, unless_malformed, decode,
}
use ibkr_go.Codec.RoundTrip.News.{
  news_bulletin-Gives, news_article_response-Gives, tick_news-Gives, news_providers-Gives,
  historical_news_item-Gives, historical_news_end-Gives,
}
use ibkr_go.Codec.RoundTrip.Contracts.{
  sec_def_opt_params_response-Gives, sec_def_opt_params_end-Gives, matching_symbols-Gives,
  smart_components_response-Gives, market_rule-Gives,
}
use ibkr_go.Codec.RoundTrip.Markets.{
  tick_efp-Gives, delta_neutral_validation-Gives, mkt_depth_exchanges-Gives,
  soft_dollar_tiers_response-Gives,
}
use ibkr_go.Codec.RoundTrip.Session.{
  next_valid_id-Gives, current_time-Gives, current_time_millis-Gives, user_info-Gives,
  family_codes-Gives, pnl_value-Gives, pnl_single_value-Gives, receive_fa-Gives,
  scanner_parameters-Gives, scanner_data_response-Gives, display_group_list-Gives,
  display_group_updated-Gives, wsh_meta_data_response-Gives, wsh_event_data_response-Gives,
}
use ibkr_go.Codec.Decoders.News.{
  decode_news_bulletins, decode_news_article, decode_tick_news, decode_news_providers,
  decode_historical_news, decode_historical_news_end,
}
use ibkr_go.Codec.Decoders.Contracts.{
  decode_sec_def_opt_params, decode_sec_def_opt_params_end, decode_symbol_samples,
  decode_smart_components, decode_market_rule, decode_tick_efp, decode_delta_neutral_validation,
  decode_mkt_depth_exchanges, decode_soft_dollar_tiers,
}
use ibkr_go.Codec.Decoders.Session.{
  decode_next_valid_id, decode_current_time, decode_current_time_in_millis, decode_user_info,
  decode_family_codes, decode_pnl, decode_pnl_single, decode_receive_fa, decode_scanner_parameters,
  decode_scanner_data, decode_display_group_list, decode_display_group_updated,
  decode_wsh_meta_data, decode_wsh_event_data,
}

NulFree-has_nul : (f : Bytes) → has_nul f ≡ false → NulFree f
NulFree-has_nul [] h = tt
NulFree-has_nul (b ∷ f) h = (ground (arith, h), NulFree-has_nul f (ground (arith, h)))

All-NulFree : (fs : List Bytes) → any has_nul fs ≡ false → All NulFree fs
All-NulFree [] h = tt
All-NulFree (f ∷ fs) h = (NulFree-has_nul f (ground (arith, h)), All-NulFree fs (ground (arith, h)))

encode_classic-NulFree :
    (id : ℕ) (fields : List Bytes) {payload : Bytes}
    → encode_classic_envelope (pos id) fields ≡ ok payload
    → All NulFree fields
unfolding encode_classic_envelope
encode_classic-NulFree id fields h = All-NulFree fields (ground (arith, h))

body_reader-Reads : (fs : List Bytes) → All NulFree fs → Reads (body_reader (encode_fields fs)) fs
unfolding new_field_reader_bytes
body_reader-Reads fs h =
    let i = new_field_reader_bytes-Reads fs h in
    record { at_rest = i.at_rest; counted = omega (arith, i.counted); free = i.free }

decode_by_msg_id-Gives :
    (d : Decoder (List Message)) (fs : List Bytes) (ms : List Message)
    → Gives d fs ms
    → All NulFree fs
    → decode_by_msg_id d (body_reader (encode_fields fs)) ≡ ok ms
unfolding decode_by_msg_id new_field_reader_bytes
decode_by_msg_id-Gives d fs ms g h =
    let r = body_reader (encode_fields fs) in
    let got = g.run r [] (subst (Reads r) (sym (append-nil fs)) (body_reader-Reads fs h)) refl in
    rw (got.value, got.no_err) refl

whole_body :
    (fs : List Bytes)
    → (ltb 0 (length (encode_fields fs)) && not (ends_in_nul (encode_fields fs))) ≡ false
unfolding encode_fields
whole_body [] = refl
whole_body (f ∷ fs) = ground (arith, ends_in_nul-encode_fields f fs)

decode_classic-Gives :
    (e : Envelope) (d : Decoder (List Message)) (fs : List Bytes) (ms : List Message)
    → Gives d fs ms
    → All NulFree fs
    → e.body ≡ encode_fields fs
    → decode_classic e (some d) ≡ ms
unfolding decode_classic
decode_classic-Gives e d fs ms g h k =
    let whole : (ltb 0 (length e.body) && not (ends_in_nul e.body)) ≡ false =
      ap (λ (b : Bytes). ltb 0 (length b) && not (ends_in_nul b)) k ∙ whole_body fs in
    rw whole (
      ap (λ b. messages_of e (decode_by_msg_id d (body_reader b))) k
      ∙ ap (messages_of e) (decode_by_msg_id-Gives d fs ms g h))

-- A payload of one of the table's messages, with the fields that its decoder reads.
sent :
    (protobuf : ℕ → Option ProtobufDecoder) (id : ℕ) (d : Decoder (List Message)) (fs : List Bytes)
    (m : Message) {payload : Bytes}
    → Gives d fs (m ∷ [])
    → id ≤ protobuf_message_id
    → entry_at id inbound_decoders ≡ some d
    → encode_classic_envelope (pos id) fs ≡ ok payload
    → decode_batch protobuf payload ≡ ok (m ∷ [])
unfolding decode_batch decode_enveloped decode_body
sent protobuf id d fs m g small entry e =
    let env : Envelope = record {
      msg_id = id;
      wire_id = id;
      encoding = classic_body;
      body = encode_fields fs;
    } in
    ap (decode_enveloped protobuf) (decode_envelope-encode_classic id fs small e)
    ∙ ap ok (
        ap (decode_classic env) entry
        ∙ decode_classic-Gives env d fs (m ∷ []) g (encode_classic-NulFree id fs e) refl)

-- A message of a type that a classic decoder makes, whose numbers fit the wire and whose scanner
-- rows set only the columns of a row, encoded as an envelope with the ID of its type in the
-- table of messages and its fields in the order that Layouts lists, whatever the version field
-- holds, decodes to just this message.
pub decode_batch-wire_fields :
    (protobuf : ℕ → Option ProtobufDecoder) (version : Bytes) (m : Message) {payload : Bytes}
    → Ranged m
    → encode_classic_envelope (pos (wire_id m)) (wire_fields version m) ≡ ok payload
    → decode_batch protobuf payload ≡ ok (m ∷ [])
unfolding wire_id inbound_decoders entry_at inbound_id
decode_batch-wire_fields protobuf version (next_valid_id m) h e =
    sent protobuf (inbound_id Inbound.next_valid_id) decode_next_valid_id
      (next_valid_id_fields version m) (next_valid_id m) (next_valid_id-Gives version m h)
      (omega arith) refl e
decode_batch-wire_fields protobuf version (news_bulletin m) h e =
    sent protobuf (inbound_id Inbound.news_bulletins) decode_news_bulletins
      (news_bulletin_fields version m) (news_bulletin m) (news_bulletin-Gives version m h)
      (omega arith) refl e
decode_batch-wire_fields protobuf version (receive_fa m) h e =
    sent protobuf (inbound_id Inbound.receive_fa) decode_receive_fa (receive_fa_fields version m)
      (receive_fa m) (receive_fa-Gives version m h) (omega arith) refl e
decode_batch-wire_fields protobuf version (scanner_parameters m) h e =
    sent protobuf (inbound_id Inbound.scanner_parameters) decode_scanner_parameters
      (scanner_parameters_fields version m) (scanner_parameters m)
      (scanner_parameters-Gives version m h) (omega arith) refl e
decode_batch-wire_fields protobuf version (scanner_data_response m) h e =
    sent protobuf (inbound_id Inbound.scanner_data) decode_scanner_data
      (scanner_data_response_fields version m) (scanner_data_response m)
      (scanner_data_response-Gives version m h) (omega arith) refl e
decode_batch-wire_fields protobuf version (tick_efp m) h e =
    sent protobuf (inbound_id Inbound.tick_efp) decode_tick_efp (tick_efp_fields version m)
      (tick_efp m) (tick_efp-Gives version m h) (omega arith) refl e
decode_batch-wire_fields protobuf version (current_time m) h e =
    sent protobuf (inbound_id Inbound.current_time) decode_current_time
      (current_time_fields version m) (current_time m) (current_time-Gives version m h)
      (omega arith) refl e
decode_batch-wire_fields protobuf version (delta_neutral_validation m) h e =
    sent protobuf (inbound_id Inbound.delta_neutral_validation) decode_delta_neutral_validation
      (delta_neutral_validation_fields version m) (delta_neutral_validation m)
      (delta_neutral_validation-Gives version m h) (omega arith) refl e
decode_batch-wire_fields protobuf version (display_group_list m) h e =
    sent protobuf (inbound_id Inbound.display_group_list) decode_display_group_list
      (display_group_list_fields version m) (display_group_list m)
      (display_group_list-Gives version m h) (omega arith) refl e
decode_batch-wire_fields protobuf version (display_group_updated m) h e =
    sent protobuf (inbound_id Inbound.display_group_updated) decode_display_group_updated
      (display_group_updated_fields version m) (display_group_updated m)
      (display_group_updated-Gives version m h) (omega arith) refl e
decode_batch-wire_fields protobuf version (sec_def_opt_params_response m) h e =
    sent protobuf (inbound_id Inbound.sec_def_opt_params) decode_sec_def_opt_params
      (sec_def_opt_params_response_fields version m) (sec_def_opt_params_response m)
      (sec_def_opt_params_response-Gives version m h) (omega arith) refl e
decode_batch-wire_fields protobuf version (sec_def_opt_params_end m) h e =
    sent protobuf (inbound_id Inbound.sec_def_opt_params_end) decode_sec_def_opt_params_end
      (sec_def_opt_params_end_fields version m) (sec_def_opt_params_end m)
      (sec_def_opt_params_end-Gives version m h) (omega arith) refl e
decode_batch-wire_fields protobuf version (soft_dollar_tiers_response m) h e =
    sent protobuf (inbound_id Inbound.soft_dollar_tiers) decode_soft_dollar_tiers
      (soft_dollar_tiers_response_fields version m) (soft_dollar_tiers_response m)
      (soft_dollar_tiers_response-Gives version m h) (omega arith) refl e
decode_batch-wire_fields protobuf version (family_codes m) h e =
    sent protobuf (inbound_id Inbound.family_codes) decode_family_codes
      (family_codes_fields version m) (family_codes m) (family_codes-Gives version m h)
      (omega arith) refl e
decode_batch-wire_fields protobuf version (matching_symbols m) h e =
    sent protobuf (inbound_id Inbound.symbol_samples) decode_symbol_samples
      (matching_symbols_fields version m) (matching_symbols m) (matching_symbols-Gives version m h)
      (omega arith) refl e
decode_batch-wire_fields protobuf version (mkt_depth_exchanges m) h e =
    sent protobuf (inbound_id Inbound.mkt_depth_exchanges) decode_mkt_depth_exchanges
      (mkt_depth_exchanges_fields version m) (mkt_depth_exchanges m)
      (mkt_depth_exchanges-Gives version m h) (omega arith) refl e
decode_batch-wire_fields protobuf version (smart_components_response m) h e =
    sent protobuf (inbound_id Inbound.smart_components) decode_smart_components
      (smart_components_response_fields version m) (smart_components_response m)
      (smart_components_response-Gives version m h) (omega arith) refl e
decode_batch-wire_fields protobuf version (news_article_response m) h e =
    sent protobuf (inbound_id Inbound.news_article) decode_news_article
      (news_article_response_fields version m) (news_article_response m)
      (news_article_response-Gives version m h) (omega arith) refl e
decode_batch-wire_fields protobuf version (tick_news m) h e =
    sent protobuf (inbound_id Inbound.tick_news) decode_tick_news (tick_news_fields version m)
      (tick_news m) (tick_news-Gives version m h) (omega arith) refl e
decode_batch-wire_fields protobuf version (news_providers m) h e =
    sent protobuf (inbound_id Inbound.news_providers) decode_news_providers
      (news_providers_fields version m) (news_providers m) (news_providers-Gives version m h)
      (omega arith) refl e
decode_batch-wire_fields protobuf version (historical_news_item m) h e =
    sent protobuf (inbound_id Inbound.historical_news) decode_historical_news
      (historical_news_item_fields version m) (historical_news_item m)
      (historical_news_item-Gives version m h) (omega arith) refl e
decode_batch-wire_fields protobuf version (historical_news_end m) h e =
    sent protobuf (inbound_id Inbound.historical_news_end) decode_historical_news_end
      (historical_news_end_fields version m) (historical_news_end m)
      (historical_news_end-Gives version m h) (omega arith) refl e
decode_batch-wire_fields protobuf version (market_rule m) h e =
    sent protobuf (inbound_id Inbound.market_rule) decode_market_rule (market_rule_fields version m)
      (market_rule m) (market_rule-Gives version m h) (omega arith) refl e
decode_batch-wire_fields protobuf version (pnl_value m) h e =
    sent protobuf (inbound_id Inbound.pnl) decode_pnl (pnl_value_fields version m) (pnl_value m)
      (pnl_value-Gives version m h) (omega arith) refl e
decode_batch-wire_fields protobuf version (pnl_single_value m) h e =
    sent protobuf (inbound_id Inbound.pnl_single) decode_pnl_single
      (pnl_single_value_fields version m) (pnl_single_value m) (pnl_single_value-Gives version m h)
      (omega arith) refl e
decode_batch-wire_fields protobuf version (wsh_meta_data_response m) h e =
    sent protobuf (inbound_id Inbound.wsh_meta_data) decode_wsh_meta_data
      (wsh_meta_data_response_fields version m) (wsh_meta_data_response m)
      (wsh_meta_data_response-Gives version m h) (omega arith) refl e
decode_batch-wire_fields protobuf version (wsh_event_data_response m) h e =
    sent protobuf (inbound_id Inbound.wsh_event_data) decode_wsh_event_data
      (wsh_event_data_response_fields version m) (wsh_event_data_response m)
      (wsh_event_data_response-Gives version m h) (omega arith) refl e
decode_batch-wire_fields protobuf version (user_info m) h e =
    sent protobuf (inbound_id Inbound.user_info) decode_user_info (user_info_fields version m)
      (user_info m) (user_info-Gives version m h) (omega arith) refl e
decode_batch-wire_fields protobuf version (current_time_millis m) h e =
    sent protobuf (inbound_id Inbound.current_time_in_millis) decode_current_time_in_millis
      (current_time_millis_fields version m) (current_time_millis m)
      (current_time_millis-Gives version m h) (omega arith) refl e
decode_batch-wire_fields protobuf version (unknown_inbound m) h e = absurd h
decode_batch-wire_fields protobuf version (malformed_inbound m) h e = absurd h
