-- ===== src/Tests/RetireTests.antt =====
-- Retiring a connection, and the delays of reconnection.
use ibkr_go.Prelude.{
  ◌⊎◌, ◌*◌, ◌≤◌, pos, negsuc, ◌≡◌, refl, true, false, Option, none, some, List, [], ◌∷◌, Memᴰ,
}
use ibkr_go.Errors.Tree.{
  Err, Sentinel, sentinel, plain_error, subscription_cancel_error, joined, no_errs, err_and, cause,
  any_node,
}
use ibkr_go.Errors.Retry.{is_subscription_cancel}
use ibkr_go.Engine.Backoff.{reconnect_backoff, reconnect_backoff_max, reconnect_delay, delay_loop}
use ibkr_go.Engine.Backoff.Laws.{reconnect_delay_doubles, at_most}
use ibkr_go.Engine.Retire.{
  retire_subscription_transport, subscription_cancel_route_err, walk, walk_root, route_cause,
}
use ibkr_go.Engine.Retire.RouteErrors.{retire_subscription_transport-RetiredFor, RetiredFor}
use ibkr_go.Engine.Retire.Laws.{retire_all_once, retire_all, connected, Keeps}

abbrev queue_full : Err
queue_full = plain_error "send queue full"

-- A slow consumer whose cancellation cannot be sent.
abbrev slow_and_stuck : Err
slow_and_stuck = joined (
    err_and (sentinel Sentinel.slow_consumer)
      (err_and (subscription_cancel_error "quotes" (cause queue_full)) no_errs))

retire_subscription_transport-RetiredFor_example :
    ((any_node is_subscription_cancel slow_and_stuck ≡ true)
      × RetiredFor 3 slow_and_stuck
          (connected 3)
          (retire_subscription_transport (some slow_and_stuck) (connected 3)))
    ⊎ ((any_node is_subscription_cancel slow_and_stuck ≡ false)
        × (retire_subscription_transport (some slow_and_stuck) (connected 3) ≡ connected 3))
retire_subscription_transport-RetiredFor_example =
    retire_subscription_transport-RetiredFor 3 slow_and_stuck (connected 3) refl refl

routes_see_the_queue : subscription_cancel_route_err (some slow_and_stuck) ≡ (some queue_full, true)
unfolding subscription_cancel_route_err walk walk_root route_cause
routes_see_the_queue = refl

abbrev two_retirements : List (Option Err × Option Err)
two_retirements =
    (some slow_and_stuck, some queue_full) ∷ (some (sentinel Sentinel.interrupted), none) ∷ []

retire_all_once_example :
    ((retire_all two_retirements (connected 3)).closed_transports ≡ 3 ∷ [])
    × Keeps (some (sentinel Sentinel.interrupted)) none (retire_all two_retirements (connected 3))
retire_all_once_example =
    retire_all_once 3 two_retirements (some (sentinel Sentinel.interrupted)) none
      (Memᴰ.tail (Memᴰ.head refl))

reconnect_delay_doubles_example :
    (reconnect_delay (negsuc 2) ≡ reconnect_backoff)
    × (reconnect_delay (pos 0) ≡ reconnect_backoff)
    × (reconnect_delay (pos 3) ≡ at_most reconnect_backoff_max (2 * reconnect_delay (pos 2)))
    × (reconnect_backoff ≤ reconnect_delay (pos 2))
    × (reconnect_delay (pos 2) ≤ reconnect_backoff_max)
reconnect_delay_doubles_example = reconnect_delay_doubles 2

fifth_attempt_waits_16_seconds : reconnect_delay (pos 4) ≡ 16000000000
unfolding reconnect_delay delay_loop
fifth_attempt_waits_16_seconds = refl
