-- ===== src/Tests/StreamTests.antt =====
-- A subscription that overflows.
use ibkr_go.Prelude.{
  Bool, ℕ, ◌≤◌, pos, ◌≡◌, refl, ◌↔◌, true, false, Option, none, some, List, [], ◌∷◌, arith, length,
}
use ibkr_go.Errors.Tree.{
  Err, Sentinel, plain_error, subscription_cancel_error, cause, any_node, errors_is,
}
use ibkr_go.Errors.Retry.{is_subscription_cancel, is_retryable}
use ibkr_go.Streams.Subscription.{Subscription, data_event, new_subscription, emit, wait}
use ibkr_go.Streams.Subscription.Laws.{
  Action, emit_value, read, act_all, connection_lost, cancel_called, cancel_run, first_cause,
  emit-overflow, act_all-wait,
}

abbrev timeout : Err
timeout = plain_error "context deadline exceeded"

-- Its context ended, but the cancellation has not run yet.
abbrev full_stream : Subscription ℕ
full_stream = record {
  buffer = 1;
  collect_snapshot = false;
  events = data_event 5 1 ∷ [];
  is_done = false;
  error = none;
  cancel_cause = some timeout;
  snapshot_closed = false;
  snapshot_want = false;
  snapshot_events = [];
  connection_seq = 1;
  is_owned = true;
}

-- The cancellation request cannot be sent.
abbrev not_admitted : Option Err
not_admitted = some (subscription_cancel_error "quotes" (cause (plain_error "send queue full")))

emit-overflow_example :
    (e : Err) × (wait (emit not_admitted 6 full_stream).0 ≡ some (some e))
    × ((p : Err → Bool) → any_node p (first_cause (some timeout)) ≡ true → any_node p e ≡ true)
    × (some timeout ≡ none
        → (errors_is e Sentinel.slow_consumer ≡ true) × (is_retryable (some e) ≡ false))
    × ((c : Err)
        → not_admitted ≡ some c
        → any_node is_subscription_cancel c ≡ true
        → any_node is_subscription_cancel e ≡ true)
emit-overflow_example = emit-overflow not_admitted 6 full_stream refl refl refl (omega arith)

abbrev two_values : List (Action ℕ)
two_values =
    emit_value none 5
    ∷ emit_value not_admitted 6
    ∷ read
    ∷ cancel_called (some timeout)
    ∷ connection_lost none
    ∷ cancel_run none
    ∷ []

act_all-wait_example :
    let s = act_all two_values (new_subscription (pos 1) false) in
    (length s.events ≤ s.buffer) × ((wait s ≡ none) ↔ (s.is_owned ≡ true))
act_all-wait_example = act_all-wait (pos 1) false two_values
