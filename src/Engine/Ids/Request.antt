-- ===== src/Engine/Ids/Request.antt =====
-- Allocation of request IDs: what is handed out is usable, and a refusal means that nothing is.
use ibkr_go.Prelude.{
  ℕ, zero, suc, ◌+◌, ◌-◌, ◌≤◌, ◌<◌, ◌≡◌, refl, ◌≢◌, ◌⊎◌, inl, inr, true, false, Option, none, some,
  arith, ltb, leb, ◌==◌, if◌then◌else◌, Bool-cases, Option-cases, Result, ok, err,
}
use native.Mathlib.Decide.{dec_lt}
use ibkr_go.Engine.Ids.{
  max_wire_order_id, Ids, AllocError, request_id_exhausted, in_order_interval, normalize, occupied,
  take_req_id, req_loop, alloc_req_id,
}

-- A number that may be a request ID: on the wire, and outside of the interval of order IDs.
abbrev pub IsCandidate : Ids → ℕ → Type 0
IsCandidate s id = (0 < id) × (id ≤ max_wire_order_id) × (in_order_interval s id ≡ false)

normalize-IsCandidate : (s : Ids) (id n : ℕ) → normalize 2 s id ≡ some n → IsCandidate s n
unfolding normalize
normalize-IsCandidate s id n h = ground arith

-- Normalizing fails only if the interval of order IDs covers the wire's numbers.
normalize-none : (s : Ids) (id y : ℕ) → normalize 2 s id ≡ none → ¬ IsCandidate s y
unfolding normalize
normalize-none s id y h c = ground arith

-- Where a number stands to the interval of order IDs, in terms of its ends.
inside :
    (s : Ids) (x : ℕ)
    → in_order_interval s x ≡ true
    → (0 < s.order_id_low_water) × (s.order_id_low_water ≤ x) × (x < s.next_valid_id)
unfolding in_order_interval
inside s x h = ground arith

abbrev Outside : Ids → ℕ → Type 0
Outside s x = (s.order_id_low_water ≡ 0) ⊎ ((x < s.order_id_low_water) ⊎ (s.next_valid_id ≤ x))

outside : (s : Ids) (x : ℕ) → in_order_interval s x ≡ false → Outside s x
unfolding in_order_interval
outside s x h = ground arith

-- The ways on from `id` to the next candidate `n`: directly, over the interval, or round the end.
data Next (s : Ids) (id n : ℕ) : Type 0 where
  direct : n ≡ id + 1 → Next s id n
  over :
      (0 < s.order_id_low_water)
      → s.order_id_low_water ≤ id + 1
      → n ≡ s.next_valid_id
      → id + 1 < n
      → Next s id n
  round :
      (id ≡ max_wire_order_id)
        ⊎ ((s.order_id_low_water ≤ id + 1)
            × (0 < s.order_id_low_water)
            × (max_wire_order_id < s.next_valid_id))
      → n ≡ 1
      → Next s id n
  round_over : id ≡ max_wire_order_id → s.order_id_low_water ≡ 1 → n ≡ s.next_valid_id → Next s id n

normalize-Next :
    (s : Ids) (id n : ℕ) → id ≤ max_wire_order_id → normalize 2 s (id + 1) ≡ some n → Next s id n
unfolding normalize
normalize-Next s id n k h = elim (Bool-cases (id == max_wire_order_id)) [
  | inl top ↦ elim (Bool-cases (in_order_interval s 1)) [
    | inl e ↦ round_over (ground arith) (ground arith) (ground arith)
    | inr e ↦ round (inl (ground arith)) (ground arith)
  ]
  | inr below ↦ elim (Bool-cases (in_order_interval s (id + 1))) [
    | inl e ↦ elim (Bool-cases (ltb max_wire_order_id s.next_valid_id)) [
      | inl far ↦ round (inr (ground arith, ground arith, ground arith)) (ground arith)
      | inr near ↦ over (ground arith) (ground arith) (ground arith) (ground arith)
    ]
    | inr e ↦ direct (ground arith)
  ]
]

-- From `start`, upward and round at the wire's maximum.
abbrev distance : ℕ → ℕ → ℕ
distance start y = if leb start y then y - start else y + max_wire_order_id - start

-- Normalizing passes no candidate by: the next one is the first behind `id`.
Next-first :
    (s : Ids) (start id n y : ℕ)
    → IsCandidate s start
    → IsCandidate s n
    → id ≤ max_wire_order_id
    → IsCandidate s y
    → Next s id n
    → distance start id < distance start y
    → (n ≢ start) × (distance start id < distance start n) × (distance start n ≤ distance start y)
Next-first s start id n y cs cn k cy (direct e) d =
    ground (arith, outside s start cs.2, outside s y cy.2, outside s n cn.2)
Next-first s start id n y cs cn k cy (over a b e f) d =
    ground (arith, outside s start cs.2, outside s y cy.2, outside s n cn.2)
Next-first s start id n y cs cn k cy (round a e) d =
    ground (arith, outside s start cs.2, outside s y cy.2, outside s n cn.2)
Next-first s start id n y cs cn k cy (round_over a b e) d =
    ground (arith, outside s start cs.2, outside s y cy.2, outside s n cn.2)

-- Any next candidate but `start` lies further on.
Next-forward :
    (s : Ids) (start id n : ℕ)
    → IsCandidate s start
    → IsCandidate s id
    → IsCandidate s n
    → Next s id n
    → n ≢ start
    → distance start id < distance start n
Next-forward s start id n cs ci cn (direct e) ne = ground (arith, outside s start cs.2)
Next-forward s start id n cs ci cn (over a b e f) ne = ground (arith, outside s start cs.2)
Next-forward s start id n cs ci cn (round a e) ne =
    ground (arith, outside s start cs.2, outside s id ci.2)
Next-forward s start id n cs ci cn (round_over a b e) ne = ground (arith, outside s start cs.2)

-- Candidates up to `id` are occupied if those before it are and it is.
covered :
    (s : Ids) (start id y : ℕ)
    → IsCandidate s start
    → IsCandidate s id
    → (distance start y < distance start id → occupied s y ≡ true)
    → occupied s id ≡ true
    → IsCandidate s y
    → distance start y ≤ distance start id
    → occupied s y ≡ true
covered s start id y cs ci before taken cy h =
    elim (dec_lt (distance start y) (distance start id)) [
      | yes less ↦ before less
      | no same ↦ let e : y ≡ id = ground arith in rw e taken
    ]

-- The distance falls short of the wire's maximum, so the fuel of `alloc_req_id` is enough.
distance-lt :
    (s : Ids) (start y : ℕ)
    → IsCandidate s start
    → IsCandidate s y
    → distance start y < max_wire_order_id
distance-lt s start y cs cy = ground arith

-- A walk that has found every candidate before `id` occupied ends with a usable number, or with
-- every candidate occupied.
abbrev pub Refuses : Ids → Type 0
Refuses s = (y : ℕ) → IsCandidate s y → occupied s y ≡ true

abbrev pub Handed : Ids → Option (Result AllocError (ℕ × Ids)) → Type 0
Handed s none = ⊥
Handed s (some (err e)) = (e ≡ request_id_exhausted) × Refuses s
Handed s (some (ok (id, s'))) = IsCandidate s id × (occupied s id ≡ false) × (s' ≡ take_req_id s id)

req_loop-Handed :
    (fuel : ℕ) (s : Ids) (start id : ℕ)
    → IsCandidate s start
    → IsCandidate s id
    → max_wire_order_id ≤ distance start id + fuel
    → ((y : ℕ) → IsCandidate s y → distance start y < distance start id → occupied s y ≡ true)
    → Handed s (req_loop fuel s start id)
unfolding req_loop
req_loop-Handed zero s start id cs ci enough before =
    absurd (omega (arith, distance-lt s start id cs ci))
req_loop-Handed (suc fuel) s start id cs ci enough before = elim (Bool-cases (occupied s id)) [
  | inl taken ↦ rw taken (elim (Option-cases (normalize 2 s (id + 1))) [
    | inl e ↦ absurd (normalize-none s (id + 1) start e cs)
    | inr (n, e) ↦ rw e (
        let cn = normalize-IsCandidate s (id + 1) n e in
        let way = normalize-Next s id n ci.1 e in
        let seen : (y : ℕ)
            → IsCandidate s y
            → distance start y ≤ distance start id
            → occupied s y ≡ true =
          λ y cy. covered s start id y cs ci (before y cy) taken cy in
        elim (Bool-cases (n == start)) [
          | inl back ↦ rw back (
            refl,
            λ y cy. elim (dec_lt (distance start id) (distance start y)) [
              | yes far ↦
                  absurd ((Next-first s start id n y cs cn ci.1 cy way far).0 (ground arith))
              | no near ↦ seen y cy (omega arith)
            ],
          )
          | inr on ↦
              let forward = Next-forward s start id n cs ci cn way (ground arith) in
              rw on (
                req_loop-Handed fuel s start n cs cn (omega arith) λ y cy h.
                  elim (dec_lt (distance start id) (distance start y)) [
                    | yes far ↦
                        absurd (omega (arith, (Next-first s start id n y cs cn ci.1 cy way far).2))
                    | no near ↦ seen y cy (omega arith)
                  ])
        ])
  ])
  | inr free ↦ rw free (ci, free, refl)
]

-- Allocation of a request ID ends. An ID that it hands out is a number of the wire outside of
-- the interval of order IDs that no route, order or preview has; the state then only counts on.
-- It refuses only if every such number is occupied.
pub alloc_req_id-Handed : (s : Ids) → Handed s (alloc_req_id s)
unfolding alloc_req_id
alloc_req_id-Handed s = elim (Option-cases (normalize 2 s s.next_req_id)) [
  | inl e ↦ rw (e, alloc_req_id) (refl, λ y cy. absurd (normalize-none s s.next_req_id y e cy))
  | inr (start, e) ↦
      let cs = normalize-IsCandidate s s.next_req_id start e in
      rw (e, alloc_req_id)
        (req_loop-Handed max_wire_order_id s start start cs cs (omega arith)
          λ y cy h. absurd (ground arith))
]
