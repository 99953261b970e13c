-- ===== src/Engine/Ids/History.antt =====
-- Any history of the allocators: no order ID is handed out twice, and none ever equals a request ID.
use ibkr_go.Prelude.{
  ℕ, ◌+◌, ◌≤◌, ◌<◌, ℤ, pos, negsuc, ◌≡◌, subst, ◌≢◌, Bool, false, some, List, [], ◌∷◌, arith, All,
  ok, err,
}
use ibkr_go.Engine.Ids.{
  Ids, AllocError, observe_request_id, observe_order_id, observe_next_valid_id, lower_low_water,
  in_order_interval, take_req_id, alloc_req_id, alloc_order_id,
}
use ibkr_go.Engine.Ids.Request.{Handed, alloc_req_id-Handed}
use ibkr_go.Engine.Ids.Order.{Placed, alloc_order_id-Placed}

-- The engine's counters with every ID handed out so far, the newest first.
pub record History : Type 0 where
  pub ids : Ids
  pub orders_issued : List ℕ
  pub requests_issued : List ℕ

-- What a client that has just connected for the first time knows.
abbrev pub start_ids : Ids
start_ids = record {
  next_req_id = 1;
  request_id_high_water = 0;
  order_id_low_water = 0;
  next_valid_id = 0;
  keyed = λ _. false;
  orders = λ _. false;
  previews = λ _. false;
}

abbrev pub start : History
start = record { ids = start_ids; orders_issued = []; requests_issued = [] }

-- The steps of the actor: it allocates, observes what the Gateway reports, and installs or deletes
-- routes, orders and previews under any keys.
pub data Step (h : History) : History → Type 0 where
  request :
      (id : ℕ) (s : Ids)
      → alloc_req_id h.ids ≡ some (ok (id, s))
      → Step h (record h { ids = s; requests_issued = id ∷ h.requests_issued })
  order :
      (id : ℕ) (s : Ids)
      → alloc_order_id h.ids ≡ some (ok id, s)
      → Step h (record h { ids = s; orders_issued = id ∷ h.orders_issued })
  order_fails :
      (e : AllocError) (s : Ids)
      → alloc_order_id h.ids ≡ some (err e, s)
      → Step h (record h { ids = s })
  sees_request : (id : ℕ) → Step h (record h { ids = observe_request_id h.ids id })
  sees_order : (id : ℤ) → Step h (record h { ids = observe_order_id h.ids id })
  sees_next_valid : (id : ℤ) → Step h (record h { ids = observe_next_valid_id h.ids id })
  routes :
      (keyed orders previews : ℕ → Bool)
      → Step h
          (record h { ids = record h.ids { keyed = keyed; orders = orders; previews = previews } })

pub data Reach : History → Type 0 where
  here : Reach start
  next : {h k : History} → Reach h → Step h k → Reach k

-- No counter goes back.
record Grows (s t : Ids) : Type 0 where
  low :
      0 < s.order_id_low_water
      → (0 < t.order_id_low_water) × (t.order_id_low_water ≤ s.order_id_low_water)
  next : s.next_valid_id ≤ t.next_valid_id
  high : s.request_id_high_water ≤ t.request_id_high_water

-- Every order ID lies in the interval that request IDs avoid, every request ID at or below the
-- high-water mark.
abbrev InInterval : Ids → ℕ → Type 0
InInterval s o = (0 < s.order_id_low_water) × (s.order_id_low_water ≤ o) × (o < s.next_valid_id)

abbrev IsBelow : Ids → ℕ → Type 0
IsBelow s r = r ≤ s.request_id_high_water

record Inv (h : History) : Type 0 where
  orders_inside : All (InInterval h.ids) h.orders_issued
  requests_below : All (IsBelow h.ids) h.requests_issued

All-map {ℓ κ ι} :
    {A : Type ℓ} (P : A → Type κ) (Q : A → Type ι) (xs : List A)
    → ((x : A) → P x → Q x)
    → All P xs
    → All Q xs
All-map P Q [] f h = tt
All-map P Q (x ∷ xs) f h = (f x h.0, All-map P Q xs f h.1)

Inv-Grows : (h : History) (t : Ids) → Grows h.ids t → Inv h → Inv (record h { ids = t })
Inv-Grows h t g v = record {
  orders_inside =
      All-map (InInterval h.ids) (InInterval t) h.orders_issued (λ o i. ground (arith, g.low i.0))
        v.orders_inside;
  requests_below =
      All-map (IsBelow h.ids) (IsBelow t) h.requests_issued (λ r i. omega arith) v.requests_below;
}

take_req_id-Grows :
    (s : Ids) (id : ℕ)
    → Grows s (take_req_id s id) × (id ≤ (take_req_id s id).request_id_high_water)
unfolding take_req_id
take_req_id-Grows s id = ground arith

observe_request_id-Grows : (s : Ids) (id : ℕ) → Grows s (observe_request_id s id)
unfolding observe_request_id
observe_request_id-Grows s id = ground arith

observe_order_id-Grows : (s : Ids) (id : ℤ) → Grows s (observe_order_id s id)
unfolding observe_order_id
observe_order_id-Grows s (negsuc n) = ground arith
observe_order_id-Grows s (pos n) = ground arith

observe_next_valid_id-Grows : (s : Ids) (id : ℤ) → Grows s (observe_next_valid_id s id)
unfolding observe_next_valid_id
observe_next_valid_id-Grows s (negsuc n) = ground arith
observe_next_valid_id-Grows s (pos n) = ground arith

lower_low_water-Grows :
    (s : Ids) (id : ℕ)
    → 0 < id
    → s.next_valid_id ≤ id
    → let t = lower_low_water (record s { next_valid_id = id + 1 }) id in
      Grows s t × InInterval t id
unfolding lower_low_water
lower_low_water-Grows s id h k = ground arith

request_facts :
    (s t : Ids) (id : ℕ)
    → alloc_req_id s ≡ some (ok (id, t))
    → (in_order_interval s id ≡ false) × Grows s t × (id ≤ t.request_id_high_water)
request_facts s t id e =
    let handed = subst (Handed s) e (alloc_req_id-Handed s) in
    let (grows, below) = take_req_id-Grows s id in
    (handed.0.2, rw handed.2 grows, rw handed.2 below)

order_facts :
    (s t : Ids) (id : ℕ)
    → alloc_order_id s ≡ some (ok id, t)
    → (s.next_valid_id ≤ id) × (s.request_id_high_water < id) × Grows s t × InInterval t id
order_facts s t id e =
    let placed = subst (Placed s) e (alloc_order_id-Placed s) in
    let (grows, in_interval) =
      lower_low_water-Grows s id (omega (arith, placed.0)) (omega (arith, placed.0)) in
    (omega (arith, placed.0), omega (arith, placed.0), rw placed.4 grows, rw placed.4 in_interval)

order_fails-Grows : (s t : Ids) (e : AllocError) → alloc_order_id s ≡ some (err e, t) → Grows s t
order_fails-Grows s t e h =
    let placed = subst (Placed s) h (alloc_order_id-Placed s) in
    rw placed.3 (ground (arith, placed.2))

routes-Grows :
    (s : Ids) (keyed orders previews : ℕ → Bool)
    → Grows s (record s { keyed = keyed; orders = orders; previews = previews })
routes-Grows s keyed orders previews = ground arith

Step-Inv : {h k : History} → Step h k → Inv h → Inv k
Step-Inv {h} (request id s e) v =
    let (free, grows, below) = request_facts h.ids s id e in
    let w = Inv-Grows h s grows v in
    record { orders_inside = w.orders_inside; requests_below = (below, w.requests_below) }
Step-Inv {h} (order id s e) v =
    let (_, _, grows, in_interval) = order_facts h.ids s id e in
    let w = Inv-Grows h s grows v in
    record { orders_inside = (in_interval, w.orders_inside); requests_below = w.requests_below }
Step-Inv {h} (order_fails e s q) v = Inv-Grows h s (order_fails-Grows h.ids s e q) v
Step-Inv {h} (sees_request id) v = Inv-Grows h _ (observe_request_id-Grows h.ids id) v
Step-Inv {h} (sees_order id) v = Inv-Grows h _ (observe_order_id-Grows h.ids id) v
Step-Inv {h} (sees_next_valid id) v = Inv-Grows h _ (observe_next_valid_id-Grows h.ids id) v
Step-Inv {h} (routes keyed orders previews) v =
    Inv-Grows h _ (routes-Grows h.ids keyed orders previews) v

Reach-Inv : {h : History} → Reach h → Inv h
Reach-Inv here = record { orders_inside = tt; requests_below = tt }
Reach-Inv (next r st) = Step-Inv st (Reach-Inv r)

-- Newest first: every order ID is above all that were handed out before it.
abbrev pub Descending : List ℕ → Type 0
Descending [] = Unit {0}
Descending (o ∷ os) = All (λ p. p < o) os × Descending os

-- No order ID equals a request ID.
abbrev pub Apart : List ℕ → List ℕ → Type 0
Apart os rs = All (λ o. All (λ r. r ≢ o) rs) os

Apart-cons_right :
    (s : Ids) (os rs : List ℕ) (r : ℕ)
    → in_order_interval s r ≡ false
    → All (InInterval s) os
    → Apart os rs
    → Apart os (r ∷ rs)
unfolding in_order_interval
Apart-cons_right s [] rs r free i a = tt
Apart-cons_right s (o ∷ os) rs r free i a =
    (((λ e. ground arith), a.0), Apart-cons_right s os rs r free i.1 a.1)

-- In every history of allocations and observations, whatever routes, orders and previews come
-- and go: order IDs only rise, so none is handed out twice, and no order ID ever equals a
-- request ID handed out before or after it.
pub Reach-Apart :
    {h : History} → Reach h → Descending h.orders_issued × Apart h.orders_issued h.requests_issued
Reach-Apart here = (tt, tt)
Reach-Apart (next {h} r (request id s e)) =
    let (free, _, _) = request_facts h.ids s id e in
    let (falls, apart) = Reach-Apart r in
    (
      falls,
      Apart-cons_right h.ids h.orders_issued h.requests_issued id free (Reach-Inv r).orders_inside
          apart,
    )
Reach-Apart (next {h} r (order id s e)) =
    let (above, over, _, _) = order_facts h.ids s id e in
    let (falls, apart) = Reach-Apart r in
    let v = Reach-Inv r in
    (
      (
        All-map (InInterval h.ids) (λ p. p < id) h.orders_issued (λ o i. omega arith)
            v.orders_inside,
        falls,
      ),
      (
        All-map (IsBelow h.ids) (λ q. q ≢ id) h.requests_issued (λ q i. omega arith)
            v.requests_below,
        apart,
      ),
    )
Reach-Apart (next r (order_fails e s q)) = Reach-Apart r
Reach-Apart (next r (sees_request id)) = Reach-Apart r
Reach-Apart (next r (sees_order id)) = Reach-Apart r
Reach-Apart (next r (sees_next_valid id)) = Reach-Apart r
Reach-Apart (next r (routes keyed orders previews)) = Reach-Apart r
