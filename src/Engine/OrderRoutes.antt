-- ===== src/Engine/OrderRoutes.antt =====
-- engine_reconnect.go and engine_route.go: the routes of orders while connectivity goes and comes. The
-- list has a route for each order that was placed; e.orders holds those that are not closed, and a
-- loop over that map is one over the list, in any order. What forgetOrderExecutions and a route's
-- cleanup do is left out. A pending write is the key of the place frame, as in pendingOrderWrites.
pub mod History
pub mod Steps
pub mod Lifecycle
use ibkr_go.Prelude.{
  ℕ, zero, suc, ◌+◌, ◌-◌, ◌*◌, ◌/◌, ◌%◌, ◌^◌, ◌≤◌, ◌<◌, max, ℤ, pos, negsuc, ltz, is_negative,
  int_eq, int_eq-eq, String, string_append, ◌≡◌, refl, sym, ap, fun_ext, ◌∙◌, subst, ◌≢◌, ◌↔◌, ◌⊎◌,
  inl, inr, Bool, true, false, not, ◌&&◌, ◌||◌, Option, none, some, List, [], ◌∷◌, ◌++◌, map,
  append_assoc, append-nil, arith, ltb, leb, ◌==◌, if◌then◌else◌, ltb→lt, lt→ltb, le→ltb, ==_iff,
  Bool-cases, Option-cases, if_both, if_cases, or_else_both, Memᴰ, any-mem, all-mem, length, take,
  drop, length-append, take-append-drop, length-take, length-drop, take-append_left,
  drop-append_left, all, any, All, Result, ok, err, ◌>>◌, reject, is_space, trim_space, is_empty,
  is_blank, is_one_of, is_blank-is_empty, is_one_of-mem, str_eq, eq_iff,
}
use ibkr_go.Errors.Tree.{Err, Sentinel, sentinel, joined, err_and, no_errs}
use ibkr_go.Transport.{WriteOutcome, write_unwritten, write_incomplete, write_complete_local}
use ibkr_go.Streams.OrderHandle.{Handle, new_order_handle, close_with_err, emit_event}

pub data OrderLifecycleKind : Type 0 where
  order_started order_gap order_restored order_recovery_required : OrderLifecycleKind

-- `business` stands for the other fields of the union.
pub data OrderEvent (B : Type 0) : Type 0 where
  lifecycle : OrderLifecycleKind → ℕ → Option Err → OrderEvent B
  business : B → OrderEvent B

pub record OrderRoute (B : Type 0) : Type 0 where
  pub order_id : ℤ
  pub handle : Handle (OrderEvent B)
  pub closed : Bool
  pub gapped : Bool
  pub recovery_required : Bool
  pub pending_write : Option ℕ

-- The pending write of an open route is the key.
abbrev pub is_pending : ℕ → Option ℕ → Bool
is_pending key none = false
is_pending key (some k) = k == key

module _ {B : Type 0} where
  unfoldable pub close_order_route : Option Err → OrderRoute B → OrderRoute B
  unfolding close_with_err
  close_order_route e r = record r {
    closed = true;
    pending_write = none;
    handle = close_with_err e r.handle;
  }

  -- `if !or.handle.emitLifecycle(...) { e.closeOrderRoute(id, or, ErrSlowConsumer) }`, likewise for
  -- any other event.
  unfoldable pub emit_or_close : OrderEvent B → OrderRoute B → OrderRoute B
  unfolding close_order_route emit_event
  emit_or_close event r =
      let sent = emit_event event r.handle in
      let next = record r { handle = sent.0 } in
      if sent.1 then next else close_order_route (some (sentinel Sentinel.slow_consumer)) next

  -- The loops over orders of emitGap and disconnectRoutes.
  unfoldable pub gap_order : ℕ → Option Err → OrderRoute B → OrderRoute B
  unfolding emit_or_close
  gap_order seq e r =
      if not r.closed && not r.gapped
      then emit_or_close (lifecycle order_gap seq e) (record r { gapped = true })
      else r

  unfoldable pub restore_order : ℕ → OrderRoute B → OrderRoute B
  unfolding emit_or_close
  restore_order seq r =
      if not r.closed && r.gapped
      then emit_or_close (lifecycle order_restored seq none) (record r { gapped = false })
      else r

  unfoldable pub require_order_recovery : ℕ → OrderRoute B → OrderRoute B
  unfolding emit_or_close
  require_order_recovery seq r =
      if r.closed || not r.gapped
      then r
      else emit_or_close
          (lifecycle order_recovery_required seq (some (sentinel Sentinel.order_recovery_required)))
          (record r { gapped = false; recovery_required = true })

  -- Without reconnection, a loss of the transport ends every order.
  unfoldable pub abandon_order : Err → OrderRoute B → OrderRoute B
  unfolding close_order_route
  abandon_order e r =
      if r.closed
      then r
      else close_order_route
          (some (joined (err_and (sentinel Sentinel.order_recovery_required) (err_and e no_errs))))
          r

  abbrev pub after_write_result : WriteOutcome → ℕ → OrderRoute B → OrderRoute B
  after_write_result write_complete_local seq r = emit_or_close (lifecycle order_started seq none) r
  after_write_result write_unwritten seq r =
      close_order_route (some (sentinel Sentinel.interrupted)) r
  after_write_result write_incomplete seq r = r

  -- handleTransportWrite, of a key that pendingOrderWrites has or has not
  unfoldable pub handle_transport_write : ℕ → WriteOutcome → ℕ → OrderRoute B → OrderRoute B
  unfolding emit_or_close
  handle_transport_write key outcome seq r =
      if r.closed || not (is_pending key r.pending_write)
      then r
      else after_write_result outcome seq (record r { pending_write = none })

  -- ensureOrderStarted, and its result
  unfoldable pub ensure_order_started : ℕ → OrderRoute B → OrderRoute B × Bool
  unfolding emit_event
  ensure_order_started seq r = elim r.pending_write [
    | none ↦ (r, true)
    | some key ↦
        let sent = emit_event (lifecycle order_started seq none) r.handle in
        (record r { pending_write = none; handle = sent.0 }, sent.1)
  ]

  -- `if !e.ensureOrderStarted(or) || !or.handle.emitBinding(binding) { e.closeOrderRoute(...) }`, of an
  -- event that is attributed to the order
  unfoldable pub deliver : ℕ → B → OrderRoute B → OrderRoute B
  unfolding ensure_order_started emit_or_close
  deliver seq b r =
      let started = ensure_order_started seq r in
      if r.closed
      then r
      else (if started.1
          then emit_or_close (business b) started.0
          else close_order_route (some (sentinel Sentinel.slow_consumer)) started.0)

  -- The checks of a handle's Replace on the actor: the order must be there, and its history unbroken.
  unfoldable pub check_replace : OrderRoute B → Option Err
  check_replace r =
      if r.closed || r.handle.is_done
      then some (sentinel Sentinel.closed)
      else (if r.recovery_required then some (sentinel Sentinel.order_recovery_required) else none)

-- The order routes of the engine, with what the reader of each handle has received.
pub record OrderRun (B : Type 0) : Type 0 where
  pub route : OrderRoute B
  pub received : List (OrderEvent B)

pub record Orders (B : Type 0) : Type 0 where
  pub connection_seq : ℕ
  pub runs : List (OrderRun B)

-- What the actor handles: a place frame that was admitted under a key, the codes 1100, 1101 and 1102, the loss of a transport with and without
-- reconnection, a replacement connection, its readiness, the result of a write, an event of an order,
-- a detached handle; and a receive of the reader.
pub data Input (B : Type 0) : Type 0 where
  placed : ℤ → ℕ → ℕ → Input B
  connectivity_lost data_lost data_maintained : Input B
  transport_lost : Bool → Err → Input B
  replaced : Input B
  ready : Input B
  written : ℕ → WriteOutcome → Input B
  observed : ℤ → B → Input B
  detached : ℤ → Input B
  reads : ℤ → Input B

module _ {B : Type 0} where
  abbrev pub on_route : (OrderRoute B → OrderRoute B) → OrderRun B → OrderRun B
  on_route f t = record t { route = f t.route }

  abbrev pub at_order : ℤ → (OrderRun B → OrderRun B) → OrderRun B → OrderRun B
  at_order id f t = if int_eq t.route.order_id id then f t else t

  abbrev pub receive_next : List (OrderEvent B) → OrderRun B → OrderRun B
  receive_next [] t = t
  receive_next (event ∷ events) t = record t {
    route = record (t.route) { handle = record (t.route.handle) { events = events } };
    received = t.received ++ (event ∷ []);
  }

  unfoldable pub act_on : ℕ → Input B → OrderRun B → OrderRun B
  unfolding gap_order restore_order require_order_recovery abandon_order handle_transport_write
      deliver
  act_on seq (placed id capacity key) t = t
  act_on seq connectivity_lost t = on_route (gap_order seq (some (sentinel Sentinel.interrupted))) t
  act_on seq data_lost t =
      on_route
        (λ r. require_order_recovery seq (gap_order seq (some (sentinel Sentinel.interrupted)) r)) t
  act_on seq data_maintained t = on_route (restore_order seq) t
  act_on seq (transport_lost reconnects e) t =
      if reconnects then on_route (gap_order seq (some e)) t else on_route (abandon_order e) t
  act_on seq replaced t = on_route (require_order_recovery (seq + 1)) t
  act_on seq ready t = t
  act_on seq (written key outcome) t = on_route (handle_transport_write key outcome seq) t
  act_on seq (observed id b) t = at_order id (on_route (deliver seq b)) t
  act_on seq (detached id) t = at_order id (on_route (close_order_route none)) t
  act_on seq (reads id) t = at_order id (λ u. receive_next u.route.handle.events u) t

  -- The route that placing an order installs.
  unfoldable pub new_order_run : ℤ → ℕ → ℕ → OrderRun B
  unfolding new_order_handle
  new_order_run id capacity key = record {
    route = record {
      order_id = id;
      handle = new_order_handle id capacity;
      closed = false;
      gapped = false;
      recovery_required = false;
      pending_write = some key;
    };
    received = [];
  }

  abbrev pub install : Input B → List (OrderRun B) → List (OrderRun B)
  install (placed id capacity key) ts = ts ++ (new_order_run id capacity key ∷ [])
  install _ ts = ts

  abbrev pub next_seq : ℕ → Input B → ℕ
  next_seq seq ready = seq + 1
  next_seq seq _ = seq

  unfoldable pub act : Input B → Orders B → Orders B
  unfolding act_on new_order_run
  act i s = record {
    connection_seq = next_seq s.connection_seq i;
    runs = install i (map (act_on s.connection_seq i) s.runs);
  }

  unfoldable pub act_all : List (Input B) → Orders B → Orders B
  unfolding act
  act_all [] s = s
  act_all (i ∷ is) s = act_all is (act i s)

  abbrev pub no_orders : Orders B
  no_orders = record { connection_seq = 0; runs = [] }
