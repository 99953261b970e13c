-- ===== src/Codec/RoundTrip/Markets.antt =====
-- Each decoder of exchanges, soft dollar tiers and derived ticks reads the layout of its message.
use ibkr_go.Prelude.{◌*◌, ◌≡◌, refl, List, [], ◌∷◌, arith, length, length-append}
use ibkr_go.Wire.Fields.{Bytes}
use ibkr_go.Codec.Numbers.RoundTrip.{Fits}
use ibkr_go.Codec.Messages.{
  DeltaNeutralContract, DeltaNeutralValidation, DepthExchangeEntry, MktDepthExchanges,
  SoftDollarTier, SoftDollarTiersResponse, TickEfp, tick_efp, delta_neutral_validation,
  soft_dollar_tiers_response, mkt_depth_exchanges,
}
use ibkr_go.Codec.Gives.{Gives, Gives-pure, Gives-int, Gives-string, Gives-skip, Gives-entry}
use ibkr_go.Codec.Gives.Counts.{
  entries_fields, Gives-count, Gives-require, Gives-repeated, All-map, All-of_each, suc-mul,
}
use ibkr_go.Codec.Decoders.Contracts.{
  decode_tick_efp, decode_delta_neutral_validation, decode_mkt_depth_exchanges,
  decode_soft_dollar_tiers, read_delta_neutral_contract, read_depth_exchange_entry,
  read_soft_dollar_tier,
}
use ibkr_go.Codec.Layouts.Bodies.{
  tick_efp_fields, delta_neutral_contract_fields, delta_neutral_validation_fields,
  soft_dollar_tier_fields, soft_dollar_tiers_response_fields, depth_exchange_entry_fields,
  mkt_depth_exchanges_fields,
}
use ibkr_go.Codec.Layouts.{Ranged}

pub tick_efp-Gives :
    (version : Bytes) (m : TickEfp)
    → Ranged (tick_efp m)
    → Gives decode_tick_efp (tick_efp_fields version m) (tick_efp m ∷ [])
unfolding decode_tick_efp
tick_efp-Gives version m h = Gives-skip _ (
    Gives-int _ h.0 (
      Gives-int _ h.1 (
        Gives-string _ (
          Gives-string _ (
            Gives-string _
              (Gives-int _ h.2 (Gives-string _ (Gives-string _ (Gives-string _ Gives-pure)))))))))

delta_neutral_contract-Gives :
    (e : DeltaNeutralContract)
    → Fits 32 e.con_id
    → Gives read_delta_neutral_contract (delta_neutral_contract_fields e) e
unfolding read_delta_neutral_contract
delta_neutral_contract-Gives e h = Gives-int _ h (Gives-string _ (Gives-string _ Gives-pure))

pub delta_neutral_validation-Gives :
    (version : Bytes) (m : DeltaNeutralValidation)
    → Ranged (delta_neutral_validation m)
    → Gives decode_delta_neutral_validation
        (delta_neutral_validation_fields version m)
        (delta_neutral_validation m ∷ [])
unfolding decode_delta_neutral_validation
delta_neutral_validation-Gives version m h = Gives-skip _ (
    Gives-int _ h.0 (
      Gives-entry read_delta_neutral_contract _ (delta_neutral_contract-Gives m.contract h.1)
        Gives-pure))

depth_exchange_entry-Gives :
    (e : DepthExchangeEntry)
    → Fits 32 e.agg_group
    → Gives read_depth_exchange_entry (depth_exchange_entry_fields e) e
unfolding read_depth_exchange_entry
depth_exchange_entry-Gives e h =
    Gives-string _ (Gives-string _ (Gives-string _ (Gives-string _ (Gives-int _ h Gives-pure))))

length-depth_exchange_entry :
    (xs : List DepthExchangeEntry)
    → length (entries_fields depth_exchange_entry_fields xs) ≡ length xs * 5
length-depth_exchange_entry [] = refl
length-depth_exchange_entry (x ∷ xs) = omega (
  arith,
  length-depth_exchange_entry xs,
  length-append (depth_exchange_entry_fields x) (entries_fields depth_exchange_entry_fields xs),
  suc-mul (length xs) 5,
)

pub mkt_depth_exchanges-Gives :
    (version : Bytes) (m : MktDepthExchanges)
    → Ranged (mkt_depth_exchanges m)
    → Gives decode_mkt_depth_exchanges
        (mkt_depth_exchanges_fields version m)
        (mkt_depth_exchanges m ∷ [])
unfolding decode_mkt_depth_exchanges
mkt_depth_exchanges-Gives version m h =
    Gives-count _ _ h.0
      (omega (
        arith,
        length-depth_exchange_entry m.exchanges,
        length-append (entries_fields depth_exchange_entry_fields m.exchanges) [],
      ))
      (Gives-require _ (length m.exchanges) 5 _ refl
        (λ left k. omega (
          arith,
          k,
          length-depth_exchange_entry m.exchanges,
          length-append (entries_fields depth_exchange_entry_fields m.exchanges) [],
        ))
        (Gives-repeated read_depth_exchange_entry depth_exchange_entry_fields _
          (All-map depth_exchange_entry-Gives m.exchanges h.1) Gives-pure))

soft_dollar_tier-Gives :
    (e : SoftDollarTier) → Gives read_soft_dollar_tier (soft_dollar_tier_fields e) e
unfolding read_soft_dollar_tier
soft_dollar_tier-Gives e = Gives-string _ (Gives-string _ (Gives-string _ Gives-pure))

length-soft_dollar_tier :
    (xs : List SoftDollarTier) → length (entries_fields soft_dollar_tier_fields xs) ≡ length xs * 3
length-soft_dollar_tier [] = refl
length-soft_dollar_tier (x ∷ xs) = omega (
  arith,
  length-soft_dollar_tier xs,
  length-append (soft_dollar_tier_fields x) (entries_fields soft_dollar_tier_fields xs),
  suc-mul (length xs) 3,
)

pub soft_dollar_tiers_response-Gives :
    (version : Bytes) (m : SoftDollarTiersResponse)
    → Ranged (soft_dollar_tiers_response m)
    → Gives decode_soft_dollar_tiers
        (soft_dollar_tiers_response_fields version m)
        (soft_dollar_tiers_response m ∷ [])
unfolding decode_soft_dollar_tiers
soft_dollar_tiers_response-Gives version m h = Gives-int _ h.0 (
    Gives-count _ _ h.1
      (omega (
        arith,
        length-soft_dollar_tier m.tiers,
        length-append (entries_fields soft_dollar_tier_fields m.tiers) [],
      ))
      (Gives-require _ (length m.tiers) 3 _ refl
        (λ left k. omega (
          arith,
          k,
          length-soft_dollar_tier m.tiers,
          length-append (entries_fields soft_dollar_tier_fields m.tiers) [],
        ))
        (Gives-repeated read_soft_dollar_tier soft_dollar_tier_fields _
          (All-of_each soft_dollar_tier-Gives m.tiers) Gives-pure)))
