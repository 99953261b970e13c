-- ===== src/Tests/OrderRouteTests.antt =====
-- An order through a loss of connectivity that is restored, and a loss of the transport.
use ibkr_go.Prelude.{ℕ, pos, ◌≡◌, refl, true, none, some, List, [], ◌∷◌, map, All}
use ibkr_go.Errors.Tree.{Sentinel, sentinel}
use ibkr_go.Transport.{write_complete_local}
use ibkr_go.Streams.OrderHandle.{new_order_handle, emit_event, close_with_err}
use ibkr_go.Engine.OrderRoutes.{
  order_started, order_gap, order_restored, order_recovery_required, lifecycle, business, Input,
  placed, connectivity_lost, data_maintained, transport_lost, replaced, ready, written, observed,
  reads, act, act_all, act_on, no_orders, new_order_run, close_order_route, emit_or_close,
  gap_order, restore_order, require_order_recovery, handle_transport_write, ensure_order_started,
  deliver, check_replace,
}
use ibkr_go.Engine.OrderRoutes.History.{history}
use ibkr_go.Engine.OrderRoutes.Lifecycle.{Lifecycle, act_all-Lifecycle}

-- A filled quantity is the event of an order. The transport is lost while connectivity is.
abbrev two_losses : List (Input ℕ)
two_losses =
    ready
    ∷ placed (pos 7) 8 1
    ∷ written 1 write_complete_local
    ∷ observed (pos 7) 100
    ∷ connectivity_lost
    ∷ data_maintained
    ∷ reads (pos 7)
    ∷ connectivity_lost
    ∷ transport_lost true (sentinel Sentinel.interrupted)
    ∷ replaced
    ∷ ready
    ∷ []

act_all-Lifecycle_example : All Lifecycle (act_all two_losses no_orders).runs
act_all-Lifecycle_example = act_all-Lifecycle two_losses

-- One gap for the second loss, and its recovery carries the sequence number of the connection to come.
seen :
    map history (act_all two_losses no_orders).runs
    ≡ (lifecycle order_started 1 none
        ∷ business 100
        ∷ lifecycle order_gap 1 (some (sentinel Sentinel.interrupted))
        ∷ lifecycle order_restored 1 none
        ∷ lifecycle order_gap 1 (some (sentinel Sentinel.interrupted))
        ∷ lifecycle order_recovery_required 2 (some (sentinel Sentinel.order_recovery_required))
        ∷ [])
      ∷ []
unfolding act_all act act_on new_order_run new_order_handle emit_event close_with_err
    close_order_route emit_or_close gap_order restore_order require_order_recovery
    handle_transport_write ensure_order_started deliver
seen = refl

replacement_is_refused :
    map (λ t. check_replace t.route) (act_all two_losses no_orders).runs
    ≡ some (sentinel Sentinel.order_recovery_required) ∷ []
unfolding check_replace act_all act act_on new_order_run new_order_handle emit_event close_with_err
    close_order_route emit_or_close gap_order restore_order require_order_recovery
    handle_transport_write ensure_order_started deliver
replacement_is_refused = refl
