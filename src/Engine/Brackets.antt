-- ===== src/Engine/Brackets.antt =====
-- PlaceBracket of engine_orders.go: the turn of the actor from the allocation of the three order IDs on,
-- and cancelAndCloseOrderRoutes. Of a route, the model keeps that e.orders has its order ID; the key
-- that trackOrderWrite notes for a write is left out.
pub mod Laws
use ibkr_go.Prelude.{
  ℕ, ℤ, pos, Bool, true, false, not, ◌&&◌, ◌||◌, Option, none, some, List, [], ◌∷◌, ◌++◌, map, any,
  ◌==◌, if◌then◌else◌, Result, ok, err,
}
use ibkr_go.Errors.Tree.{Err, Cause, absent, cause, joined, no_errs, err_and, order_recovery_error}
use ibkr_go.Engine.Ids.{Ids, AllocError, alloc_order_id}
use ibkr_go.Engine.Retire.{errs_of}
use ibkr_go.Orders.Types.{Order, PlaceBracketRequest}

-- An entry of the list `orders`.
pub record Item (D : Type 0) : Type 0 where
  pub id : ℕ
  pub order : Order D

-- How the turn ends: `sent` are the place frames that the transport admitted, `cancelled` the orders for
-- which a cancellation was tried.
pub record Attempt (D : Type 0) : Type 0 where
  pub request : PlaceBracketRequest D
  pub items : List (Item D)
  pub sent : List (Item D)
  pub cancelled : List ℕ
  pub ids : Ids
  pub error : Option Err

pub data Turn (D : Type 0) : Type 0 where
  not_allocated : AllocError → Ids → Turn D
  attempted : Attempt D → Turn D

-- id, err := e.allocOrderID(), where an error ends the turn; `none` is a search without fuel
unfoldable pub after_alloc :
    {D : Type 0}
    → Option (Result AllocError ℕ × Ids)
    → (ℕ → Ids → Option (Turn D))
    → Option (Turn D)
after_alloc none next = none
after_alloc (some (err e, s)) next = some (not_allocated e s)
after_alloc (some (ok id, s)) next = next id s

unfoldable pub assign_parent : {D : Type 0} → ℕ → PlaceBracketRequest D → PlaceBracketRequest D
assign_parent id req = record req {
  take_profit = record (req.take_profit) { parent_id = pos id };
  stop_loss = record (req.stop_loss) { parent_id = pos id };
}

-- The effect of bindOrderHandle on e.orders.
unfoldable pub bind_order : ℕ → Ids → Ids
bind_order id s = record s { orders = λ key. (key == id) || s.orders key }

-- The effect of closeOrderRoute on e.orders, for each of the IDs.
unfoldable pub close_orders : List ℕ → Ids → Ids
close_orders ids s = record s { orders = λ key. not (any (λ id. key == id) ids) && s.orders key }

-- The loop over the orders: what was admitted, and the error that ended it.
unfoldable pub send_orders :
    {D : Type 0} → (ℕ → Option Err) → List (Item D) → List (Item D) → List (Item D) × Option Err
send_orders send [] sent = (sent, none)
send_orders send (x ∷ xs) sent =
    let rest = send_orders send xs (sent ++ (x ∷ [])) in
    elim (send x.id) [ some e ↦ (sent, some e) | none ↦ rest ]

abbrev pub item_id : {D : Type 0} → Item D → ℕ
item_id x = x.id

-- The errors of the cancellations that were not admitted. Each is wrapped in a text.
unfoldable pub cancel_errors : (ℕ → Option Err) → List ℕ → List Err
cancel_errors cancel [] = []
cancel_errors cancel (id ∷ ids) =
    let rest = cancel_errors cancel ids in
    elim (cancel id) [ some e ↦ joined (err_and e no_errs) ∷ rest | none ↦ rest ]

-- errors.Join(cancelErrs...)
abbrev pub join_cause : List Err → Cause
join_cause [] = absent
join_cause (e ∷ es) = cause (joined (errs_of (e ∷ es)))

unfoldable pub recovery_error : (ℕ → Option Err) → List ℕ → Err → Err
unfolding cancel_errors
recovery_error cancel [] e = e
recovery_error cancel (id ∷ ids) e =
    order_recovery_error (map pos (id ∷ ids)) (cause e)
      (join_cause (cancel_errors cancel (id ∷ ids)))

abbrev pub order_items : {D : Type 0} → ℕ → ℕ → ℕ → PlaceBracketRequest D → List (Item D)
order_items p t l req =
    record { id = p; order = req.parent }
    ∷ record { id = t; order = req.take_profit }
    ∷ record { id = l; order = req.stop_loss }
    ∷ []

-- cancelAndCloseOrderRoutes where a send failed
unfoldable pub finish_bracket :
    {D : Type 0}
    → (ℕ → Option Err)
    → PlaceBracketRequest D
    → List (Item D)
    → Ids
    → List (Item D) × Option Err
    → Attempt D
unfolding close_orders recovery_error
finish_bracket cancel req items s (sent, none) = record {
  request = req;
  items = items;
  sent = sent;
  cancelled = [];
  ids = s;
  error = none;
}
finish_bracket cancel req items s (sent, some e) = record {
  request = req;
  items = items;
  sent = sent;
  cancelled = map item_id sent;
  ids = close_orders (map item_id items) s;
  error = some (recovery_error cancel (map item_id sent) e);
}

-- From the assignment of the parent on. `send` and `cancel` are the transport's answers to the frames
-- of an order.
unfoldable pub place_orders :
    {D : Type 0}
    → (ℕ → Option Err)
    → (ℕ → Option Err)
    → PlaceBracketRequest D
    → ℕ
    → ℕ
    → ℕ
    → Ids
    → Attempt D
unfolding assign_parent bind_order send_orders finish_bracket
place_orders send cancel req p t l s =
    let assigned = assign_parent p req in
    let items = order_items p t l assigned in
    finish_bracket cancel assigned items (bind_order l (bind_order t (bind_order p s)))
      (send_orders send items [])

unfoldable pub place_bracket :
    {D : Type 0}
    → (ℕ → Option Err)
    → (ℕ → Option Err)
    → PlaceBracketRequest D
    → Ids
    → Option (Turn D)
unfolding after_alloc place_orders
place_bracket send cancel req s = after_alloc (alloc_order_id s) (λ p s1.
    after_alloc (alloc_order_id s1) (λ t s2.
      after_alloc (alloc_order_id s2)
        (λ l s3. some (attempted (place_orders send cancel req p t l s3)))))
