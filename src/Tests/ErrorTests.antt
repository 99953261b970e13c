-- ===== src/Tests/ErrorTests.antt =====
-- Errors at work.
use ibkr_go.Prelude.{pos, ◌≡◌, refl, ◌↔◌, true, false, some}
use ibkr_go.Errors.Classes.{
  ApiError, is_order_rejection, is_order_rejection_code, is_warning, is_farm_status,
  is_connectivity_transition, is_entitlement, is_pacing_violation, lower_code, codes_of, contains,
  starts_with,
}
use ibkr_go.Errors.Classes.Laws.{is_order_rejection-only, is_entitlement-is_warning}
use ibkr_go.Errors.ErrCode
use ibkr_go.Errors.Tree.{
  Sentinel, Err, sentinel, plain_error, connect_error, joined, cause, no_errs, err_and, any_node,
  matches, sentinel_index,
}
use ibkr_go.Errors.Retry.{is_retryable, interrupted, finds}
use ibkr_go.Errors.Retry.Laws.{is_final, is_transient, is_retryable_iff, interrupted-is_retryable}

abbrev rejected : ApiError
rejected = record { code = pos 201; message = "Order rejected" }

rejected_order : is_order_rejection rejected ≡ true
unfolding is_order_rejection is_order_rejection_code
rejected_order = refl

is_order_rejection-only_example :
    (is_warning rejected ≡ false)
    × (is_farm_status rejected ≡ false)
    × (is_connectivity_transition rejected ≡ false)
    × (is_entitlement rejected ≡ false)
    × (is_pacing_violation rejected ≡ false)
is_order_rejection-only_example = is_order_rejection-only rejected rejected_order

abbrev delayed : ApiError
delayed = record { code = pos 10167; message = "Displaying delayed market data" }

delayed_entitlement : is_entitlement delayed ≡ true
unfolding is_entitlement
delayed_entitlement = refl

is_entitlement-is_warning_example :
    (is_warning delayed ≡ true) ↔ (delayed.code ≡ pos ErrCode.delayed_market_data_displayed)
is_entitlement-is_warning_example = is_entitlement-is_warning delayed delayed_entitlement

-- A lost connection joined with a slow consumer.
abbrev lost_and_slow : Err
lost_and_slow = joined (
    err_and (connect_error "dial" (cause (plain_error "refused")))
      (err_and (sentinel Sentinel.slow_consumer) no_errs))

is_retryable_iff_example :
    (is_retryable (some lost_and_slow) ≡ true)
    ↔ ((any_node is_final lost_and_slow ≡ false) × (any_node is_transient lost_and_slow ≡ true))
is_retryable_iff_example = is_retryable_iff lost_and_slow

interrupted-is_retryable_example :
    (is_retryable (some (interrupted (some (plain_error "EOF")))) ≡ true)
    ↔ (any_node is_final (plain_error "EOF") ≡ false)
interrupted-is_retryable_example = interrupted-is_retryable (plain_error "EOF")

slow_and_lost_is_final : is_retryable (some lost_and_slow) ≡ false
unfolding is_retryable finds any_node matches sentinel_index
slow_and_lost_is_final = refl

pacing_is_found :
    is_pacing_violation
      (record { code = pos 162; message = "Historical Pacing Violation: slow down" })
    ≡ true
unfolding is_pacing_violation lower_code codes_of contains starts_with
pacing_is_found = refl
