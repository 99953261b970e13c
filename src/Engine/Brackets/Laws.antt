-- ===== src/Engine/Brackets/Laws.antt =====
-- What the orders of a bracket are when they are sent.
use ibkr_go.Prelude.{
  ℕ, ◌+◌, ◌≤◌, ◌<◌, pos, ◌≡◌, ◌⊎◌, Bool, true, false, Option, none, some, List, [], ◌∷◌, ◌++◌, map,
  All,
}
use ibkr_go.Errors.Tree.{Err}
use ibkr_go.Engine.Ids.{max_wire_order_id, Ids, invalid_order_id, occupied}
use ibkr_go.Orders.Decimals.{Decimals}
use ibkr_go.Orders.Types.{PlaceBracketRequest}
use ibkr_go.Orders.Bracket.{closing_action}
use ibkr_go.Orders.Bracket.Laws.{Children}
use ibkr_go.Engine.Brackets.{Item, Attempt, Turn, not_allocated, attempted, item_id, order_items}

-- A free number was handed out, and the next one lies above it.
record Taken (s : Ids) (id : ℕ) (s' : Ids) : Type 0 where
  from : s.next_valid_id ≤ id
  fits : id ≤ max_wire_order_id
  free : occupied s id ≡ false
  next : s'.next_valid_id ≡ id + 1
  same : (y : ℕ) → occupied s' y ≡ occupied s y

-- How the loop over the orders ends: all of `whole` was admitted, or a beginning of it.
SendEnds : {D : Type 0} → List (Item D) → List (Item D) × Option Err → Type 0
SendEnds whole (sent, none) = sent ≡ whole
SendEnds {D} whole (sent, some e) =
    (x : Item D) × (rest : List (Item D)) × (sent ++ (x ∷ rest) ≡ whole)

-- The order waits at the broker.
abbrev pub Held : {D : Type 0} → Item D → Type 0
Held x = x.order.transmit ≡ some false

-- The engine has, or no longer has, the orders' routes.
abbrev pub Routed : {D : Type 0} → Bool → Ids → List (Item D) → Type 0
Routed b s items = All (λ x. s.orders x.id ≡ b) items

-- All three orders were admitted, or none that was admitted is transmitted, each has a cancellation, and
-- no route is left.
abbrev pub Ended : {D : Type 0} → Attempt D → Type 0
Ended a =
    ((a.error ≡ none) × (a.sent ≡ a.items) × (a.cancelled ≡ []) × Routed true a.ids a.items)
    ⊎ ((e : Err) × (a.error ≡ some e)
        × All Held a.sent
        × (a.cancelled ≡ map item_id a.sent)
        × Routed false a.ids a.items)

module _ (d : Decimals) where
  open d use {Decimal}

  -- A bracket under three free order IDs, in the order of the placement.
  pub record Bracket (s : Ids) (p t l : ℕ) (req : PlaceBracketRequest Decimal) : Type 0 where
    pub take_profit_later : p < t
    pub stop_loss_later : t < l
    pub fits : l ≤ max_wire_order_id
    pub parent_free : occupied s p ≡ false
    pub take_profit_free : occupied s t ≡ false
    pub stop_loss_free : occupied s l ≡ false
    pub parent_is_root : req.parent.parent_id ≡ pos 0
    pub take_profit_names : req.take_profit.parent_id ≡ pos p
    pub stop_loss_names : req.stop_loss.parent_id ≡ pos p
    pub parent_held : req.parent.transmit ≡ some false
    pub take_profit_held : req.take_profit.transmit ≡ some false
    pub stop_loss_sent : req.stop_loss.transmit ≡ some true
    pub closing : Children d (closing_action req.parent.action) req

  abbrev pub IsPlaced : Ids → Option (Turn Decimal) → Type 0
  IsPlaced s none = ⊥
  IsPlaced s (some (not_allocated e s')) = e ≡ invalid_order_id
  IsPlaced s (some (attempted a)) =
      (p : ℕ) × (t : ℕ) × (l : ℕ) × Bracket s p t l a.request
      × (a.items ≡ order_items p t l a.request)
      × Ended a
