-- ===== src/Tests/IdsTests.antt =====
-- The allocators on a new connection.
use ibkr_go.Prelude.{ℕ, pos, refl, [], ◌∷◌}
use ibkr_go.Engine.Ids.{
  Ids, observe_order_id, observe_next_valid_id, alloc_req_id, alloc_order_id, req_loop, order_loop,
  normalize, occupied, take_req_id,
}
use ibkr_go.Engine.Ids.Request.{Handed, alloc_req_id-Handed}
use ibkr_go.Engine.Ids.Order.{Placed, alloc_order_id-Placed}
use ibkr_go.Engine.Ids.History.{Step, Reach, start_ids, Reach-Apart, Descending, Apart}

alloc_req_id-Handed_example : Handed start_ids (alloc_req_id start_ids)
alloc_req_id-Handed_example = alloc_req_id-Handed start_ids

alloc_order_id-Placed_example : Placed start_ids (alloc_order_id start_ids)
alloc_order_id-Placed_example = alloc_order_id-Placed start_ids

-- The Gateway reports 40; then come a request, an order and a request.
abbrev ids_of : ℕ → ℕ → ℕ → ℕ → Ids
ids_of next high low valid = record start_ids {
  next_req_id = next;
  request_id_high_water = high;
  order_id_low_water = low;
  next_valid_id = valid;
}

run_of_three :
    Reach (record { ids = ids_of 3 2 40 41; orders_issued = 40 ∷ []; requests_issued = 2 ∷ 1 ∷ [] })
unfolding alloc_req_id alloc_order_id req_loop order_loop normalize occupied take_req_id
    observe_order_id observe_next_valid_id
run_of_three =
    Reach.next
      (Reach.next
        (Reach.next (Reach.next Reach.here (Step.sees_next_valid (pos 40)))
          (Step.request 1 (ids_of 2 1 0 40) refl))
        (Step.order 40 (ids_of 2 1 40 41) refl))
      (Step.request 2 (ids_of 3 2 40 41) refl)

Reach-Apart_example : Descending (40 ∷ []) × Apart (40 ∷ []) (2 ∷ 1 ∷ [])
Reach-Apart_example = Reach-Apart run_of_three
