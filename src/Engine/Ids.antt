-- ===== src/Engine/Ids.antt =====
-- engine.go: how the engine hands out request IDs and order IDs. Both share the Gateway's error
-- channel, so an ID of one kind must not be taken for the other. All IDs on the wire are int32, so
-- the sums below do not leave the int64 of the source.
pub mod Request
pub mod Order
pub mod History
use ibkr_go.Prelude.{
  ℕ, zero, suc, ◌+◌, ◌-◌, ◌*◌, ◌/◌, ◌%◌, ◌^◌, ◌≤◌, ◌<◌, max, ℤ, pos, negsuc, ltz, is_negative,
  String, ◌≡◌, refl, sym, ap, ◌∙◌, subst, ◌≢◌, ◌↔◌, ◌⊎◌, inl, inr, Bool, true, false, not, ◌&&◌,
  ◌||◌, Option, none, some, List, [], ◌∷◌, ◌++◌, map, append_assoc, append-nil, arith, ltb, leb,
  ◌==◌, if◌then◌else◌, ltb→lt, lt→ltb, le→ltb, ==_iff, Bool-cases, Option-cases, if_both,
  or_else_both, Memᴰ, any-mem, all-mem, length, take, drop, length-append, take-append-drop,
  length-take, length-drop, take-append_left, drop-append_left, all, any, All, Result, ok, err,
  ◌>>◌, reject,
}

-- maxWireOrderID = math.MaxInt32
abbrev pub max_wire_order_id : ℕ
max_wire_order_id = 2147483647

-- The fields of the engine that the allocators read and write; a map is the set of its keys.
pub record Ids : Type 0 where
  pub next_req_id : ℕ
  pub request_id_high_water : ℕ
  pub order_id_low_water : ℕ
  pub next_valid_id : ℕ
  pub keyed : ℕ → Bool
  pub orders : ℕ → Bool
  pub previews : ℕ → Bool

pub data AllocError : Type 0 where
  request_id_exhausted invalid_order_id : AllocError

unfoldable pub observe_request_id : Ids → ℕ → Ids
observe_request_id s id =
    if ltb s.request_id_high_water id then record s { request_id_high_water = id } else s

unfoldable pub lower_low_water : Ids → ℕ → Ids
lower_low_water s id =
    if (s.order_id_low_water == 0) || ltb id s.order_id_low_water
    then record s { order_id_low_water = id }
    else s

unfoldable pub observe_order_id : Ids → ℤ → Ids
unfolding lower_low_water
observe_order_id s (negsuc n) = s
observe_order_id s (pos n) =
    if n == 0
    then s
    else (if ltb n s.next_valid_id
        then lower_low_water s n
        else record (lower_low_water s n) { next_valid_id = n + 1 })

unfoldable pub observe_next_valid_id : Ids → ℤ → Ids
observe_next_valid_id s (negsuc n) = s
observe_next_valid_id s (pos n) = record s { next_valid_id = max n s.next_valid_id }

-- The interval of order IDs that request IDs keep out of.
unfoldable pub in_order_interval : Ids → ℕ → Bool
in_order_interval s id =
    ltb 0 s.order_id_low_water && (leb s.order_id_low_water id && ltb id s.next_valid_id)

unfoldable pub wrap_id : ℕ → ℕ
wrap_id id = if ltb id 1 || ltb max_wire_order_id id then 1 else id

-- The closure `normalize` of allocReqID, whose loop runs the given number of rounds.
unfoldable pub normalize : ℕ → Ids → ℕ → Option ℕ
unfolding in_order_interval wrap_id
normalize zero s id = none
normalize (suc rounds) s id =
    let again = normalize rounds s s.next_valid_id in
    if in_order_interval s (wrap_id id) then again else some (wrap_id id)

unfoldable pub occupied : Ids → ℕ → Bool
occupied s id = s.keyed id || (s.orders id || s.previews id)

unfoldable pub take_req_id : Ids → ℕ → Ids
unfolding observe_request_id
take_req_id s id =
    observe_request_id
      (record s { next_req_id = if ltb max_wire_order_id (id + 1) then 1 else id + 1 }) id

-- The `for` loop of allocReqID; `none` means that the fuel ran out.
unfoldable pub req_loop : ℕ → Ids → ℕ → ℕ → Option (Result AllocError (ℕ × Ids))
req_loop zero s start id = none
req_loop (suc fuel) s start id =
    let next : Option (Result AllocError (ℕ × Ids)) = elim (normalize 2 s (id + 1)) [
      | none ↦ some (err request_id_exhausted)
      | some n ↦
          let rest = req_loop fuel s start n in
          if n == start then some (err request_id_exhausted) else rest
    ] in
    if occupied s id then next else some (ok (id, take_req_id s id))

unfoldable pub alloc_req_id : Ids → Option (Result AllocError (ℕ × Ids))
alloc_req_id s = elim (normalize 2 s s.next_req_id) [
  | none ↦ some (err request_id_exhausted)
  | some start ↦ req_loop max_wire_order_id s start start
]

-- The loop of allocOrderID. The state moves on also where the loop ends in an error.
unfoldable pub order_loop : ℕ → Ids → Option (Result AllocError ℕ × Ids)
order_loop zero s = none
order_loop (suc fuel) s =
    let id = max s.next_valid_id (s.request_id_high_water + 1) in
    let s' = record s { next_valid_id = id + 1 } in
    let rest = order_loop fuel s' in
    if ltb max_wire_order_id id
    then some (err invalid_order_id, s)
    else (if occupied s id then rest else some (ok id, observe_order_id s' (pos id)))

unfoldable pub alloc_order_id : Ids → Option (Result AllocError ℕ × Ids)
alloc_order_id s = order_loop (max_wire_order_id + 1) s
