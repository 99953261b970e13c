-- ===== src/Errors/Tree.antt =====
-- errors.go: the tree of errors, which errors.Is, errors.As and errors.Join of the Go library walk
-- and build.
use ibkr_go.Prelude.{ℕ, ℤ, String, Bool, false, ◌||◌, List, ◌==◌}
use ibkr_go.Errors.Classes.{ApiError}

-- The package's sentinels, with those of context that it tests for.
pub data Sentinel : Type 0 where
  not_ready : Sentinel
  interrupted : Sentinel
  resume_required : Sentinel
  order_recovery_required : Sentinel
  regulatory_snapshot_uncertain : Sentinel
  no_snapshot : Sentinel
  slow_consumer : Sentinel
  unsupported_server_version : Sentinel
  closed : Sentinel
  no_match : Sentinel
  ambiguous_contract : Sentinel
  operation_active : Sentinel
  execution_correlation_overflow : Sentinel
  inbound_frame_too_large : Sentinel
  bootstrap_incomplete : Sentinel
  context_canceled : Sentinel
  context_deadline_exceeded : Sentinel

unfoldable pub sentinel_index : Sentinel → ℕ
sentinel_index Sentinel.not_ready = 0
sentinel_index Sentinel.interrupted = 1
sentinel_index Sentinel.resume_required = 2
sentinel_index Sentinel.order_recovery_required = 3
sentinel_index Sentinel.regulatory_snapshot_uncertain = 4
sentinel_index Sentinel.no_snapshot = 5
sentinel_index Sentinel.slow_consumer = 6
sentinel_index Sentinel.unsupported_server_version = 7
sentinel_index Sentinel.closed = 8
sentinel_index Sentinel.no_match = 9
sentinel_index Sentinel.ambiguous_contract = 10
sentinel_index Sentinel.operation_active = 11
sentinel_index Sentinel.execution_correlation_overflow = 12
sentinel_index Sentinel.inbound_frame_too_large = 13
sentinel_index Sentinel.bootstrap_incomplete = 14
sentinel_index Sentinel.context_canceled = 15
sentinel_index Sentinel.context_deadline_exceeded = 16

-- An error is a node with the errors that its `Unwrap` returns below it. A field of type error may be
-- nil, which is `absent`. `joined` is errors.Join, and fmt.Errorf with several `%w`.
mutual
  pub data Err : Type 0 where
    sentinel : Sentinel → Err
    plain_error : String → Err
    api_error : ApiError → Err
    validation_error : String → String → String → Err
    frame_too_large_error : ℕ → ℤ → Err
    connect_error : String → Cause → Err
    protocol_error : String → String → Cause → Err
    exercise_uncertain_error : ℤ → Cause → Err
    regulatory_uncertain_error : ℤ → ℕ → Cause → Err
    subscription_cancel_error : String → Cause → Err
    order_recovery_error : List ℤ → Cause → Cause → Err
    joined : Errs → Err

  pub data Cause : Type 0 where
    absent : Cause
    cause : Err → Cause

  pub data Errs : Type 0 where
    no_errs : Errs
    err_and : Err → Errs → Errs

-- Whether a node of the tree passes the test: errors.Is with the test of a target, errors.AsType with
-- that of a type.
unfoldable mutual
  pub any_node : (Err → Bool) → Err → Bool
  any_node p (sentinel s) = p (sentinel s)
  any_node p (plain_error m) = p (plain_error m)
  any_node p (api_error a) = p (api_error a)
  any_node p (validation_error f v m) = p (validation_error f v m)
  any_node p (frame_too_large_error n l) =
      p (frame_too_large_error n l) || p (sentinel Sentinel.inbound_frame_too_large)
  any_node p (connect_error op c) = p (connect_error op c) || any_cause p c
  any_node p (protocol_error d m c) = p (protocol_error d m c) || any_cause p c
  any_node p (exercise_uncertain_error id c) = p (exercise_uncertain_error id c) || any_cause p c
  any_node p (regulatory_uncertain_error id n c) =
      p (regulatory_uncertain_error id n c) || any_cause p c
  any_node p (subscription_cancel_error op c) = p (subscription_cancel_error op c) || any_cause p c
  any_node p (order_recovery_error ids c k) =
      p (order_recovery_error ids c k) || (any_cause p c || any_cause p k)
  any_node p (joined es) = p (joined es) || any_errs p es

  pub any_cause : (Err → Bool) → Cause → Bool
  any_cause p absent = false
  any_cause p (cause e) = any_node p e

  pub any_errs : (Err → Bool) → Errs → Bool
  any_errs p no_errs = false
  any_errs p (err_and e es) = any_node p e || any_errs p es

-- Whether a node is the sentinel, or says so by its method `Is`.
unfoldable pub matches : Sentinel → Err → Bool
matches t (sentinel s) = sentinel_index s == sentinel_index t
matches t (order_recovery_error ids c k) =
    sentinel_index t == sentinel_index Sentinel.order_recovery_required
matches t (regulatory_uncertain_error id n c) =
    sentinel_index t == sentinel_index Sentinel.regulatory_snapshot_uncertain
matches t _ = false

-- errors.Is(e, t)
unfoldable pub errors_is : Err → Sentinel → Bool
errors_is e t = any_node (matches t) e
