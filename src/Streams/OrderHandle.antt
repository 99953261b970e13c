-- ===== src/Streams/OrderHandle.antt =====
-- order_handle.go: the handle of a placed order with its bounded queue of events. A send to a channel
-- in a `select` with a default succeeds exactly while the buffer is not full; the reader's receive is
-- a step of its own.
pub mod Laws
use ibkr_go.Prelude.{
  ℕ, zero, suc, ◌+◌, ◌-◌, ◌*◌, ◌/◌, ◌%◌, ◌^◌, ◌≤◌, ◌<◌, max, ℤ, pos, negsuc, ltz, is_negative,
  int_eq, int_eq-eq, String, string_append, ◌≡◌, refl, sym, ap, fun_ext, ◌∙◌, subst, ◌≢◌, ◌↔◌, ◌⊎◌,
  inl, inr, Bool, true, false, not, ◌&&◌, ◌||◌, Option, none, some, List, [], ◌∷◌, ◌++◌, map,
  append_assoc, append-nil, arith, ltb, leb, ◌==◌, if◌then◌else◌, ltb→lt, lt→ltb, le→ltb, ==_iff,
  Bool-cases, Option-cases, if_both, or_else_both, Memᴰ, any-mem, all-mem, length, take, drop,
  length-append, take-append-drop, length-take, length-drop, take-append_left, drop-append_left,
  all, any, All, Result, ok, err, ◌>>◌, reject, is_space, trim_space, is_empty, is_blank, is_one_of,
  is_blank-is_empty, is_one_of-mem, str_eq, eq_iff,
}
use ibkr_go.Errors.Tree.{Err, Sentinel, sentinel}

-- `is_done` is that both channels, of events and of completion, are closed: closeWithErr closes them
-- together. The cancel, replace and detach functions are the engine's.
pub record Handle (E : Type 0) : Type 0 where
  pub order_id : ℤ
  pub capacity : ℕ
  pub events : List E
  pub is_done : Bool
  pub acknowledged : Bool
  pub error : Option Err

module _ {E : Type 0} where
  unfoldable pub new_order_handle : ℤ → ℕ → Handle E
  new_order_handle id capacity = record {
    order_id = id;
    capacity = capacity;
    events = [];
    is_done = false;
    acknowledged = false;
    error = none;
  }

  unfoldable pub acknowledge : Handle E → Handle E
  acknowledge h = if h.acknowledged then h else record h { acknowledged = true }

  -- closeOnce runs the body at the first call.
  unfoldable pub close_with_err : Option Err → Handle E → Handle E
  close_with_err e h = if h.is_done then h else record h { error = e; is_done = true }

  unfoldable pub emit_event : E → Handle E → Handle E × Bool
  unfolding close_with_err
  emit_event event h =
      if h.is_done
      then (h, false)
      else (if ltb (length h.events) h.capacity
          then (record h { events = h.events ++ (event ∷ []) }, true)
          else (close_with_err (some (sentinel Sentinel.slow_consumer)) h, false))

  -- A receive from Events: nothing while the queue is empty.
  unfoldable pub receive : Handle E → Option E × Handle E
  receive h = elim h.events [
    | [] ↦ (none, h)
    | event ∷ rest ↦ (some event, record h { events = rest })
  ]

  -- Wait, which blocks until the handle is done.
  unfoldable pub wait : Handle E → Option (Option Err)
  wait h = if h.is_done then some h.error else none
