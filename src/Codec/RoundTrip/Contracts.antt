-- ===== src/Codec/RoundTrip/Contracts.antt =====
-- The decoders of option parameters, symbols, smart components and market rules read the layouts of
-- their messages.
use ibkr_go.Prelude.{◌*◌, ◌≤◌, pos, ◌≡◌, refl, List, [], ◌∷◌, ◌++◌, arith, length, length-append}
use ibkr_go.Wire.Fields.{Bytes}
use ibkr_go.Codec.Numbers.{itoa}
use ibkr_go.Codec.Numbers.RoundTrip.{Fits}
use ibkr_go.Codec.Messages.{
  MarketRule, MatchingSymbols, PriceIncrement, SecDefOptParamsEnd, SecDefOptParamsResponse,
  SmartComponentEntry, SmartComponentsResponse, SymbolSample, sec_def_opt_params_response,
  sec_def_opt_params_end, matching_symbols, smart_components_response, market_rule,
}
use ibkr_go.Codec.Gives.{Gives, Gives-pure, Gives-int, Gives-string}
use ibkr_go.Codec.Gives.Counts.{
  entries_fields, Gives-count, Gives-require, Gives-within, Gives-within_sixth, Gives-repeated,
  All-map, All-of_each, texts-Gives, length-texts, suc-mul,
}
use ibkr_go.Codec.Decoders.Contracts.{
  decode_sec_def_opt_params, decode_sec_def_opt_params_end, decode_symbol_samples,
  decode_smart_components, decode_market_rule, read_smart_component_entry, read_price_increment,
  read_symbol_sample,
}
use ibkr_go.Codec.Decoder.{string}
use ibkr_go.Codec.Layouts.Bodies.{
  sec_def_opt_params_response_fields, sec_def_opt_params_end_fields, symbol_sample_fields,
  SymbolSampleRanged, matching_symbols_fields, smart_component_entry_fields,
  smart_components_response_fields, price_increment_fields, market_rule_fields,
}
use ibkr_go.Codec.Layouts.{Ranged}

pub sec_def_opt_params_response-Gives :
    (version : Bytes) (m : SecDefOptParamsResponse)
    → Ranged (sec_def_opt_params_response m)
    → Gives decode_sec_def_opt_params
        (sec_def_opt_params_response_fields version m)
        (sec_def_opt_params_response m ∷ [])
unfolding decode_sec_def_opt_params
sec_def_opt_params_response-Gives version m h =
    let texts = λ (fs : List Bytes). entries_fields (λ f. f ∷ []) fs in
    let last = texts m.strikes ++ [] in
    let strikes : length m.strikes ≤ length last =
      omega (arith, length-texts m.strikes, length-append (texts m.strikes) []) in
    let whole = texts m.expirations ++ (itoa (pos (length m.strikes)) ∷ last) in
    let expirations : length m.expirations ≤ length whole = omega (
      arith,
      length-texts m.expirations,
      length-append (texts m.expirations) (itoa (pos (length m.strikes)) ∷ last),
    ) in
    Gives-int _ h.0 (
      Gives-string _ (
        Gives-int _ h.1 (
          Gives-string _ (
            Gives-string _ (
              Gives-count _ _ h.2 expirations (
                Gives-within _ _ _ expirations (
                  Gives-repeated string (λ f. f ∷ []) _ (texts-Gives m.expirations)
                    (Gives-count _ _ h.3 strikes (
                      Gives-within _ _ _ strikes (
                        Gives-repeated string (λ f. f ∷ []) _ (texts-Gives m.strikes)
                          Gives-pure))))))))))

pub sec_def_opt_params_end-Gives :
    (version : Bytes) (m : SecDefOptParamsEnd)
    → Ranged (sec_def_opt_params_end m)
    → Gives decode_sec_def_opt_params_end
        (sec_def_opt_params_end_fields version m)
        (sec_def_opt_params_end m ∷ [])
unfolding decode_sec_def_opt_params_end
sec_def_opt_params_end-Gives version m h = Gives-int _ h Gives-pure

symbol_sample-Gives :
    (e : SymbolSample) → SymbolSampleRanged e → Gives read_symbol_sample (symbol_sample_fields e) e
unfolding read_symbol_sample
symbol_sample-Gives e h =
    let texts = entries_fields (λ f. f ∷ []) e.derivative_sec_types in
    let enough : length e.derivative_sec_types
        ≤ length (texts ++ (e.description ∷ e.issuer_id ∷ [])) =
      omega (
        arith,
        length-texts e.derivative_sec_types,
        length-append texts (e.description ∷ e.issuer_id ∷ []),
      ) in
    Gives-int _ h.0 (
      Gives-string _ (
        Gives-string _ (
          Gives-string _ (
            Gives-string _ (
              Gives-count _ _ h.1 enough (
                Gives-within _ _ _ enough (
                  Gives-repeated string (λ f. f ∷ []) _ (texts-Gives e.derivative_sec_types)
                    (Gives-string _ (Gives-string _ Gives-pure)))))))))

-- A symbol has six fields at least.
length-symbol_sample :
    (xs : List SymbolSample) → length xs * 6 ≤ length (entries_fields symbol_sample_fields xs)
length-symbol_sample [] = omega arith
length-symbol_sample (x ∷ xs) = omega (
  arith,
  length-symbol_sample xs,
  length-append (symbol_sample_fields x) (entries_fields symbol_sample_fields xs),
  suc-mul (length xs) 6,
)

pub matching_symbols-Gives :
    (version : Bytes) (m : MatchingSymbols)
    → Ranged (matching_symbols m)
    → Gives decode_symbol_samples (matching_symbols_fields version m) (matching_symbols m ∷ [])
unfolding decode_symbol_samples
matching_symbols-Gives version m h =
    let all = entries_fields symbol_sample_fields m.symbols ++ [] in
    let enough : length m.symbols * 6 ≤ length all = omega (
      arith,
      length-symbol_sample m.symbols,
      length-append (entries_fields symbol_sample_fields m.symbols) [],
    ) in
    Gives-int _ h.0 (
      Gives-count _ _ h.1 (omega (arith, enough)) (
        Gives-within_sixth _ _ _ enough (
          Gives-repeated read_symbol_sample symbol_sample_fields _
            (All-map symbol_sample-Gives m.symbols h.2) Gives-pure)))

smart_component_entry-Gives :
    (e : SmartComponentEntry)
    → Fits 32 e.bit_number
    → Gives read_smart_component_entry (smart_component_entry_fields e) e
unfolding read_smart_component_entry
smart_component_entry-Gives e h = Gives-int _ h (Gives-string _ (Gives-string _ Gives-pure))

length-smart_component_entry :
    (xs : List SmartComponentEntry)
    → length (entries_fields smart_component_entry_fields xs) ≡ length xs * 3
length-smart_component_entry [] = refl
length-smart_component_entry (x ∷ xs) = omega (
  arith,
  length-smart_component_entry xs,
  length-append (smart_component_entry_fields x) (entries_fields smart_component_entry_fields xs),
  suc-mul (length xs) 3,
)

pub smart_components_response-Gives :
    (version : Bytes) (m : SmartComponentsResponse)
    → Ranged (smart_components_response m)
    → Gives decode_smart_components
        (smart_components_response_fields version m)
        (smart_components_response m ∷ [])
unfolding decode_smart_components
smart_components_response-Gives version m h = Gives-int _ h.0 (
    Gives-count _ _ h.1
      (omega (
        arith,
        length-smart_component_entry m.components,
        length-append (entries_fields smart_component_entry_fields m.components) [],
      ))
      (Gives-require _ (length m.components) 3 _ refl
        (λ left k. omega (
          arith,
          k,
          length-smart_component_entry m.components,
          length-append (entries_fields smart_component_entry_fields m.components) [],
        ))
        (Gives-repeated read_smart_component_entry smart_component_entry_fields _
          (All-map smart_component_entry-Gives m.components h.2) Gives-pure)))

price_increment-Gives :
    (e : PriceIncrement) → Gives read_price_increment (price_increment_fields e) e
unfolding read_price_increment
price_increment-Gives e = Gives-string _ (Gives-string _ Gives-pure)

length-price_increment :
    (xs : List PriceIncrement) → length (entries_fields price_increment_fields xs) ≡ length xs * 2
length-price_increment [] = refl
length-price_increment (x ∷ xs) = omega (
  arith,
  length-price_increment xs,
  length-append (price_increment_fields x) (entries_fields price_increment_fields xs),
  suc-mul (length xs) 2,
)

pub market_rule-Gives :
    (version : Bytes) (m : MarketRule)
    → Ranged (market_rule m)
    → Gives decode_market_rule (market_rule_fields version m) (market_rule m ∷ [])
unfolding decode_market_rule
market_rule-Gives version m h = Gives-int _ h.0 (
    Gives-count _ _ h.1
      (omega (
        arith,
        length-price_increment m.increments,
        length-append (entries_fields price_increment_fields m.increments) [],
      ))
      (Gives-require _ (length m.increments) 2 _ refl
        (λ left k. omega (
          arith,
          k,
          length-price_increment m.increments,
          length-append (entries_fields price_increment_fields m.increments) [],
        ))
        (Gives-repeated read_price_increment price_increment_fields _
          (All-of_each price_increment-Gives m.increments) Gives-pure)))
