-- ===== src/Streams/Subscription/Route.antt =====
-- The route of a keyed subscription: the callbacks that newKeyedSubscriptionRoute of
-- engine_subscription_route.go installs, with the sites of the engine that call them, each of which the
-- actor runs in one turn. `is_owned` is that e.keyed still has the route.
use ibkr_go.Prelude.{ℕ, Bool, false, Option, none, some, if◌then◌else◌}
use ibkr_go.Errors.Tree.{Err}
use ibkr_go.Errors.Retry.{resume_required}
use ibkr_go.Streams.Subscription.{Subscription, snapshot_complete, close_with_err, emit_state}

module _ {T : Type 0} where
  -- deleteKeyedRoute
  unfoldable pub delete_route : Subscription T → Subscription T
  delete_route s = record s { is_owned = false }

  -- handleAPIErr, with the error that apiErr makes
  unfoldable pub handle_api_err : Err → Subscription T → Subscription T
  unfolding close_with_err delete_route
  handle_api_err e s = if s.is_owned then close_with_err (some e) (delete_route s) else s

  -- onDisconnect: the stream, and whether the route is to be kept
  unfoldable pub on_disconnect : Option Err → Subscription T → Subscription T × Bool
  unfolding close_with_err
  on_disconnect cause s = (close_with_err (some (resume_required cause)) s, false)

  -- The body of the loops of disconnectRoutes and dropLostRoutes, over the routes of e.keyed. A route of
  -- this constructor has no emitGap, so it is never gapped and not skipped.
  unfoldable pub disconnect_route : Option Err → Subscription T → Subscription T
  unfolding on_disconnect delete_route
  disconnect_route cause s =
      let left = on_disconnect cause s in
      if s.is_owned then (if left.1 then left.0 else delete_route left.0) else s

  -- The body of the loop of closeEngine, and dropResumeRoute.
  unfoldable pub close_route : Option Err → Subscription T → Subscription T
  unfolding close_with_err delete_route
  close_route e s = if s.is_owned then delete_route (close_with_err e s) else s

  -- A request that could not be sent, in the turn that installed its route.
  unfoldable pub fail_request : Err → Subscription T → Subscription T
  unfolding close_with_err delete_route
  fail_request e s = if s.is_owned then close_with_err (some e) (delete_route s) else s

  -- The message that ends a list of replies; the route is gone when its boundary is emitted.
  unfoldable pub end_snapshot : Option Err → ℕ → Subscription T → Subscription T
  unfolding close_with_err delete_route emit_state
  end_snapshot admission seq s =
      if s.is_owned
      then close_with_err none (emit_state admission snapshot_complete seq none (delete_route s))
      else s
