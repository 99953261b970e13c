-- ===== src/Errors/Classes.antt =====
-- errcodes.go: the classes of codes.
pub mod Laws
use ibkr_go.Prelude.{
  ℕ, zero, suc, ◌+◌, ◌-◌, ◌*◌, ◌/◌, ◌%◌, ◌^◌, ◌≤◌, ◌<◌, max, ℤ, pos, negsuc, ltz, is_negative,
  int_eq, int_eq-eq, String, string_append, ◌≡◌, refl, sym, ap, ◌∙◌, subst, ◌≢◌, ◌↔◌, ◌⊎◌, inl, inr,
  Bool, true, false, not, ◌&&◌, ◌||◌, Option, none, some, List, [], ◌∷◌, ◌++◌, map, append_assoc,
  append-nil, arith, ltb, leb, ◌==◌, if◌then◌else◌, ltb→lt, lt→ltb, le→ltb, ==_iff, Bool-cases,
  Option-cases, if_both, or_else_both, Memᴰ, any-mem, all-mem, length, take, drop, length-append,
  take-append-drop, length-take, length-drop, take-append_left, drop-append_left, all, any, All,
  Result, ok, err, ◌>>◌, reject, is_space, trim_space, is_empty, is_blank, is_one_of,
  is_blank-is_empty, is_one_of-mem, str_eq, eq_iff,
}
use Prim.Native.Char.{code}
use ibkr_go.Errors.ErrCode

-- APIError: the fields that the classes read.
pub record ApiError : Type 0 where
  pub code : ℤ
  pub message : String

-- A `switch` on the code that returns true at these constants.
abbrev pub is_code : ℤ → List ℕ → Bool
is_code c cs = any (λ k. int_eq c (pos k)) cs

-- The constants of the `switch`.
abbrev pub entitlement_codes : List ℕ
entitlement_codes =
    ErrCode.market_data_not_subscribed ∷ ErrCode.additional_subscription_required
    ∷ ErrCode.historical_data_subscription_required ∷ ErrCode.delayed_market_data_displayed
    ∷ ErrCode.tick_by_tick_data_not_allowed ∷ ErrCode.news_feed_not_allowed ∷ []

unfoldable pub is_entitlement : ApiError → Bool
is_entitlement e = is_code e.code entitlement_codes

unfoldable pub is_connectivity_transition : ApiError → Bool
is_connectivity_transition e = is_code e.code (
    ErrCode.connectivity_lost ∷ ErrCode.connectivity_restored_data_lost
    ∷ ErrCode.connectivity_restored_data_maintained ∷ [])

unfoldable pub is_farm_status : ApiError → Bool
is_farm_status e = is_code e.code (
    ErrCode.market_data_farm_ok ∷ ErrCode.historical_data_farm_ok
    ∷ ErrCode.historical_data_farm_inactive ∷ ErrCode.sec_def_data_farm_ok ∷ [])

unfoldable pub is_warning : ApiError → Bool
unfolding is_farm_status
is_warning e =
    is_farm_status e
    || (is_code e.code (ErrCode.delayed_market_data_displayed ∷ [])
        || (is_code e.code (ErrCode.smart_depth_exchanges ∷ [])
            || (is_code e.code (ErrCode.order_message ∷ [])
                || is_code e.code (ErrCode.order_tif_set_from_preset ∷ []))))

-- strings.ToLower on the characters whose lower case is an ASCII letter: A to Z, the dotted capital
-- I and the Kelvin sign. No other character's lower case is found in the text that is looked for.
unfoldable pub lower_code : ℕ → ℕ
lower_code c =
    if leb 65 c && leb c 90
    then c + 32
    else (if c == 0x130 then 105 else (if c == 0x212a then 107 else c))

unfoldable pub codes_of : String → List ℕ
codes_of String.[] = []
codes_of (String.◌∷◌ c s) = code c ∷ codes_of s

unfoldable pub starts_with : List ℕ → List ℕ → Bool
starts_with [] cs = true
starts_with (p ∷ ps) [] = false
starts_with (p ∷ ps) (c ∷ cs) = (c == p) && starts_with ps cs

-- strings.Contains(s, text)
unfoldable pub contains : List ℕ → List ℕ → Bool
unfolding starts_with
contains [] text = starts_with text []
contains (c ∷ cs) text = starts_with text (c ∷ cs) || contains cs text

unfoldable pub is_pacing_violation : ApiError → Bool
is_pacing_violation e =
    if is_code e.code (ErrCode.max_message_rate ∷ [])
    then true
    else ((is_code e.code (ErrCode.historical_data_service ∷ [])
          || is_code e.code (ErrCode.invalid_real_time_query ∷ []))
        && contains (map lower_code (codes_of e.message)) (codes_of "pacing violation"))

-- The constants of the `switch`.
abbrev pub order_rejection_codes : List ℕ
order_rejection_codes =
    ErrCode.no_security_definition ∷ ErrCode.order_rejected ∷ ErrCode.server_error_reading_request
    ∷ ErrCode.server_error_validating_request ∷ ErrCode.trailing_stop_attach_rejected
    ∷ ErrCode.unsupported_order_type ∷ ErrCode.algo_definition_not_found
    ∷ ErrCode.unknown_algo_attribute ∷ ErrCode.invalid_fx_hedge_order
    ∷ ErrCode.display_size_not_allowed ∷ ErrCode.invalid_time_in_force
    ∷ ErrCode.active_start_time_invalid ∷ []

unfoldable pub is_order_rejection_code : ℤ → Bool
is_order_rejection_code c = is_code c order_rejection_codes

unfoldable pub is_order_rejection : ApiError → Bool
unfolding is_order_rejection_code
is_order_rejection e = is_order_rejection_code e.code
