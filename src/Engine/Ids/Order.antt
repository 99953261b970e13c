-- ===== src/Engine/Ids/Order.antt =====
-- Allocation of order IDs: the first free number above every order ID and request ID seen so far.
use ibkr_go.Prelude.{
  ℕ, zero, suc, ◌+◌, ◌≤◌, ◌<◌, max, ◌≡◌, refl, inl, inr, true, false, Option, none, some, arith,
  ltb, Bool-cases, Result, ok, err,
}
use native.Mathlib.Decide.{dec_lt}
use ibkr_go.Engine.Ids.{
  max_wire_order_id, Ids, AllocError, invalid_order_id, observe_order_id, lower_low_water, occupied,
  order_loop, alloc_order_id,
}

-- Where the search for an order ID begins.
abbrev pub first_order_id : Ids → ℕ
first_order_id s = max s.next_valid_id (s.request_id_high_water + 1)

-- What the search has passed is occupied.
abbrev pub Passed : Ids → ℕ → Type 0
Passed s bound = (y : ℕ) → first_order_id s ≤ y → y < bound → occupied s y ≡ true

abbrev pub Placed : Ids → Option (Result AllocError ℕ × Ids) → Type 0
Placed s none = ⊥
Placed s (some (err e, s')) =
    (e ≡ invalid_order_id)
    × Passed s (max_wire_order_id + 1)
    × (s.next_valid_id ≤ s'.next_valid_id)
    × (s' ≡ record s { next_valid_id = s'.next_valid_id })
Placed s (some (ok id, s')) =
    (first_order_id s ≤ id)
    × (id ≤ max_wire_order_id)
    × (occupied s id ≡ false)
    × Passed s id
    × (s' ≡ lower_low_water (record s { next_valid_id = id + 1 }) id)

-- The next valid ID says nothing about what is occupied.
occupied-next_valid_id :
    (s : Ids) (k y : ℕ) → occupied (record s { next_valid_id = k }) y ≡ occupied s y
unfolding occupied
occupied-next_valid_id s k y = refl

Passed-skip :
    (s : Ids) (bound : ℕ)
    → occupied s (first_order_id s) ≡ true
    → Passed (record s { next_valid_id = first_order_id s + 1 }) bound
    → Passed s bound
Passed-skip s bound taken p y low high = elim (dec_lt (first_order_id s) y) [
  | yes above ↦ rw (← occupied-next_valid_id s (first_order_id s + 1) y) (p y (omega arith) high)
  | no same ↦ let e : y ≡ first_order_id s = omega arith in rw e taken
]

-- A search that begins one further on, after an occupied number, serves for the whole one.
Placed-skip :
    (s : Ids) (r : Option (Result AllocError ℕ × Ids))
    → occupied s (first_order_id s) ≡ true
    → Placed (record s { next_valid_id = first_order_id s + 1 }) r
    → Placed s r
Placed-skip s none taken p = p
Placed-skip s (some (err e, s')) taken p =
    (p.0, Passed-skip s (max_wire_order_id + 1) taken p.1, omega (arith, p.2), p.3)
Placed-skip s (some (ok id, s')) taken p = (
  omega (arith, p.0),
  p.1,
  rw (← occupied-next_valid_id s (first_order_id s + 1) id) p.2,
  Passed-skip s id taken p.3,
  p.4,
)

order_loop-Placed :
    (fuel : ℕ) (s : Ids)
    → 0 < fuel
    → max_wire_order_id + 2 ≤ first_order_id s + fuel
    → Placed s (order_loop fuel s)
unfolding order_loop observe_order_id
order_loop-Placed zero s some_fuel enough = absurd (omega arith)
order_loop-Placed (suc fuel) s some_fuel enough =
    elim (Bool-cases (ltb max_wire_order_id (first_order_id s))) [
      | inl far ↦ rw far (refl, (λ y low high. absurd (ground arith)), omega arith, refl)
      | inr near ↦ rw near (elim (Bool-cases (occupied s (first_order_id s))) [
        | inl taken ↦ rw taken (
            Placed-skip s _ taken (
              order_loop-Placed fuel (record s { next_valid_id = first_order_id s + 1 })
                (ground arith) (ground arith)))
        | inr free ↦
            rw free
              (omega arith, ground arith, free, (λ y low high. absurd (omega arith)), ground arith)
      ])
    ]

-- Allocation of an order ID ends. It hands out the first free number from the larger of the next
-- valid ID and the first number above all request IDs, if that is a number of the wire; the next
-- valid ID then follows it, and the low-water mark is lowered to it if it was unset or above. It
-- fails only if no number from there to the wire's maximum is free, and then only the next valid
-- ID may have risen.
pub alloc_order_id-Placed : (s : Ids) → Placed s (alloc_order_id s)
unfolding alloc_order_id
alloc_order_id-Placed s = order_loop-Placed (max_wire_order_id + 1) s (omega arith) (omega arith)
