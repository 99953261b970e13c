-- ===== src/Errors/Retry.antt =====
-- errors.go: interruption, and which errors may be retried.
pub mod Laws
use ibkr_go.Prelude.{
  ℕ, zero, suc, ◌+◌, ◌-◌, ◌*◌, ◌/◌, ◌%◌, ◌^◌, ◌≤◌, ◌<◌, max, ℤ, pos, negsuc, ltz, is_negative,
  int_eq, int_eq-eq, String, string_append, ◌≡◌, refl, sym, ap, ◌∙◌, subst, ◌≢◌, ◌↔◌, ◌⊎◌, inl, inr,
  Bool, true, false, not, ◌&&◌, ◌||◌, Option, none, some, List, [], ◌∷◌, ◌++◌, map, append_assoc,
  append-nil, arith, ltb, leb, ◌==◌, if◌then◌else◌, ltb→lt, lt→ltb, le→ltb, ==_iff, Bool-cases,
  Option-cases, if_both, or_else_both, Memᴰ, any-mem, all-mem, length, take, drop, length-append,
  take-append-drop, length-take, length-drop, take-append_left, drop-append_left, all, any, All,
  Result, ok, err, ◌>>◌, reject, is_space, trim_space, is_empty, is_blank, is_one_of,
  is_blank-is_empty, is_one_of-mem, str_eq, eq_iff,
}
use ibkr_go.Errors.Classes.{ApiError, is_pacing_violation}
use ibkr_go.Errors.Tree.{
  Sentinel, Err, Cause, Errs, sentinel, plain_error, api_error, validation_error,
  frame_too_large_error, connect_error, protocol_error, exercise_uncertain_error,
  regulatory_uncertain_error, subscription_cancel_error, order_recovery_error, joined, absent,
  cause, no_errs, err_and, sentinel_index, any_node, any_cause, any_errs, matches, errors_is,
}

abbrev pub is_exercise_uncertain : Err → Bool
is_exercise_uncertain (exercise_uncertain_error id c) = true
is_exercise_uncertain _ = false

abbrev pub is_subscription_cancel : Err → Bool
is_subscription_cancel (subscription_cancel_error op c) = true
is_subscription_cancel _ = false

abbrev pub is_validation : Err → Bool
is_validation (validation_error f v m) = true
is_validation _ = false

abbrev pub is_protocol : Err → Bool
is_protocol (protocol_error d m c) = true
is_protocol _ = false

abbrev pub is_connect : Err → Bool
is_connect (connect_error op c) = true
is_connect _ = false

abbrev pub is_api : Err → Bool
is_api (api_error a) = true
is_api _ = false

-- containsNonPacingAPIError is the test of a node by this: its walk visits the nodes that errors.As
-- visits, since an API error has none below it.
abbrev pub is_non_pacing_api : Err → Bool
is_non_pacing_api (api_error a) = not (is_pacing_violation a)
is_non_pacing_api _ = false

-- fmt.Errorf("%w: %w", first, second)
abbrev pub wrap_both : Err → Err → Err
wrap_both first second = joined (err_and first (err_and second no_errs))

unfoldable pub interrupted : Option Err → Err
interrupted none = sentinel Sentinel.interrupted
interrupted (some c) =
    if errors_is c Sentinel.interrupted then c else wrap_both (sentinel Sentinel.interrupted) c

unfoldable pub resume_required : Option Err → Err
resume_required none = sentinel Sentinel.resume_required
resume_required (some c) = wrap_both (sentinel Sentinel.resume_required) c

-- The tests of IsRetryable that return false, in the order of the source.
abbrev pub final_tests : List (Err → Bool)
final_tests =
    is_exercise_uncertain
    ∷ is_subscription_cancel
    ∷ matches Sentinel.execution_correlation_overflow
    ∷ matches Sentinel.order_recovery_required
    ∷ matches Sentinel.regulatory_snapshot_uncertain
    ∷ matches Sentinel.inbound_frame_too_large
    ∷ matches Sentinel.no_snapshot
    ∷ matches Sentinel.slow_consumer
    ∷ matches Sentinel.unsupported_server_version
    ∷ matches Sentinel.closed
    ∷ matches Sentinel.no_match
    ∷ matches Sentinel.ambiguous_contract
    ∷ matches Sentinel.operation_active
    ∷ matches Sentinel.context_canceled
    ∷ matches Sentinel.context_deadline_exceeded
    ∷ is_validation
    ∷ is_protocol
    ∷ is_non_pacing_api
    ∷ []

-- Those that return true after them.
abbrev pub transient_tests : List (Err → Bool)
transient_tests =
    is_connect
    ∷ is_api
    ∷ matches Sentinel.not_ready
    ∷ matches Sentinel.interrupted
    ∷ matches Sentinel.resume_required
    ∷ []

-- Whether one of the tests finds a node.
unfoldable pub finds : List (Err → Bool) → Err → Bool
finds ts e = any (λ p. any_node p e) ts

unfoldable pub is_retryable : Option Err → Bool
is_retryable none = false
is_retryable (some e) = if finds final_tests e then false else finds transient_tests e
