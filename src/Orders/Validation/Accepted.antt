-- ===== src/Orders/Validation/Accepted.antt =====
-- What the validation of an order rules out.
use ibkr_go.Prelude.{
  ℕ, ◌^◌, ◌≤◌, ◌<◌, ℤ, pos, negsuc, String, ◌≡◌, refl, ◌↔◌, ◌⊎◌, inl, inr, true, false, Option,
  none, some, arith, Bool-cases, length, ◌>>◌, is_empty, is_one_of, is_blank-is_empty, eq_iff,
}
use ibkr_go.Orders.Decimals.{Decimals}
use ibkr_go.Orders.Contract.{order_actions}
use ibkr_go.Orders.Validation.Fields.{is_set, validate_order_id}
use ibkr_go.Orders.Types.{PlaceOrderRequest}
use ibkr_go.Orders.Validation.Parts.{
  validate_order_contract, validate_order_quantity, validate_order_prices, validate_type_prices,
  validate_order_tif, validate_order_combo,
}
use ibkr_go.Orders.Validation.Extras.{
  validate_order_short_sale, validate_order_hedge, validate_order_conditions,
  validate_order_pegged_benchmark, validate_benchmark,
}
use ibkr_go.Orders.Validation.Request.{validate_order_request}

-- Of two checks in a row, the first passes if both do.
fst-none : {E : Type 0} (a b : Option E) → a >> b ≡ none → (a ≡ none) × (b ≡ none)
fst-none none b h = (refl, h)
fst-none (some e) b h = ground arith

validate_order_id-none :
    (field : String) (x : ℤ)
    → validate_order_id field x true ≡ none
    → (n : ℕ) × (x ≡ pos n) × (n < 2 ^ 31)
unfolding validate_order_id
validate_order_id-none field (pos n) h = (n, refl, ground arith)
validate_order_id-none field (negsuc n) h = ground arith

module _ (d : Decimals) where
  open d use {Decimal, is_negative as below_zero, is_positive, is_zero}

  -- Every check of the chain passes.
  record Passes (req : PlaceOrderRequest Decimal) : Type 0 where
    contract : validate_order_contract req.contract ≡ none
    action : is_one_of req.order.action order_actions ≡ true
    quantity : validate_order_quantity d req.order ≡ none
    prices : validate_order_prices d req.contract req.order ≡ none
    tif : validate_order_tif req.order ≡ none
    parent : validate_order_id "Order.ParentID" req.order.parent_id true ≡ none
    combo : validate_order_combo req.contract req.order ≡ none
    short_sale : validate_order_short_sale req.order ≡ none
    hedge : validate_order_hedge req.order ≡ none
    conditions : validate_order_conditions req.order.conditions ≡ none
    benchmark : validate_order_pegged_benchmark d req.order ≡ none

  validate_order_request-Passes :
      (req : PlaceOrderRequest Decimal) → validate_order_request d req ≡ none → Passes req
  unfolding validate_order_request
  validate_order_request-Passes req h =
      let h1 = fst-none _ _ h in
      let h2 = fst-none _ _ h1.0 in
      let h3 = fst-none _ _ h2.0 in
      let h4 = fst-none _ _ h3.0 in
      let h5 = fst-none _ _ h4.0 in
      let h6 = fst-none _ _ h5.0 in
      let h7 = fst-none _ _ h6.0 in
      let h8 = fst-none _ _ h7.0 in
      let h9 = fst-none _ _ h8.0 in
      let h10 = fst-none _ _ h9.0 in
      let h11 = fst-none _ _ h10.0 in
      let h12 = fst-none _ _ h11.0 in
      let h13 = fst-none _ _ h12.0 in
      let h14 = fst-none _ _ h13.0 in
      let h15 = fst-none _ _ h14.0 in
      let h16 = fst-none _ _ h15.0 in
      let h17 = fst-none _ _ h16.0 in
      let h18 = fst-none _ _ h17.0 in
      record {
        contract = h18.0;
        action = ground (arith, h18.1);
        quantity = h16.1;
        prices = h15.1;
        tif = h14.1;
        parent = h13.1;
        combo = h9.1;
        short_sale = h6.1;
        hedge = h5.1;
        conditions = h3.1;
        benchmark = h1.1;
      }

  -- An accepted order has exactly one size: a quantity that is not negative and no cash amount,
  -- or a positive cash amount and no quantity, or, for a hedge alone, neither.
  pub validate_order_request-one_size :
      (req : PlaceOrderRequest Decimal)
      → validate_order_request d req ≡ none
      → (below_zero req.order.quantity ≡ false)
        × (is_zero req.order.quantity ≡ false → is_set req.order.cash_qty ≡ false)
        × ((x : Decimal)
            → req.order.cash_qty ≡ some x
            → (is_positive x ≡ true) × (is_zero req.order.quantity ≡ true))
        × (is_zero req.order.quantity ≡ true
            → is_set req.order.cash_qty ≡ false
            → is_empty req.order.hedge.type_of ≡ false)
  unfolding validate_order_quantity
  validate_order_request-one_size req h =
      let q = (validate_order_request-Passes req h).quantity in
      (
        ground arith,
        (λ z. ground arith),
        (λ x e. let q1 = rw e at q in ground arith),
        (λ z c. ground arith),
      )

  -- An accepted limit order has a limit price, unless it is a combination of at least two legs
  -- whose list of leg prices has as many entries as there are legs; an entry may be nil.
  pub validate_order_request-limit_price :
      (req : PlaceOrderRequest Decimal)
      → validate_order_request d req ≡ none
      → req.order.order_type ≡ "LMT"
      → (is_set req.order.lmt_price ≡ true)
        ⊎ ((req.contract.sec_type ≡ "BAG")
            × (2 ≤ length req.contract.combo_legs)
            × (length req.order.combo.leg_prices ≡ length req.contract.combo_legs))
  unfolding validate_order_combo validate_order_contract validate_order_prices validate_type_prices
  validate_order_request-limit_price req h e =
      let p = validate_order_request-Passes req h in
      let e1 = (eq_iff req.order.order_type "LMT").1 e in
      let prices : (validate_type_prices d req.contract req.order ≡ none) =
        (fst-none _ _ p.prices).1 in
      elim (Bool-cases (is_set req.order.lmt_price)) [
        | inl g ↦ inl g
        | inr g ↦ inr (
          (eq_iff req.contract.sec_type "BAG").0 (ground (arith, prices)),
          ground (arith, prices, p.contract),
          ground (arith, prices, p.combo),
        )
      ]

  -- The parent of an accepted order is an order ID of 32 bits, and a hedge has one.
  pub validate_order_request-parent_id :
      (req : PlaceOrderRequest Decimal)
      → validate_order_request d req ≡ none
      → (n : ℕ) × (req.order.parent_id ≡ pos n)
        × (n < 2 ^ 31)
        × (is_empty req.order.hedge.type_of ≡ false → 1 ≤ n)
  unfolding validate_order_id validate_order_hedge
  validate_order_request-parent_id req h =
      let p = validate_order_request-Passes req h in
      let parent = validate_order_id-none "Order.ParentID" req.order.parent_id p.parent in
      let hedge = rw parent.1 at p.hedge in
      (parent.0, parent.1, parent.2, λ g. ground (arith, hedge))

  -- An accepted order names its expiry date exactly if it is good till a date.
  pub validate_order_request-good_till_date :
      (req : PlaceOrderRequest Decimal)
      → validate_order_request d req ≡ none
      → (req.order.tif ≡ "GTD") ↔ (is_empty req.order.good_till_date ≡ false)
  unfolding validate_order_tif
  validate_order_request-good_till_date req h =
      let t = (validate_order_request-Passes req h).tif in
      (
        (λ e. is_blank-is_empty _ (let e1 = (eq_iff req.order.tif "GTD").1 e in ground arith)),
        (λ g. (eq_iff req.order.tif "GTD").0 (ground arith)),
      )

  -- An accepted order has benchmark data exactly if it is pegged to a benchmark.
  pub validate_order_request-benchmark :
      (req : PlaceOrderRequest Decimal)
      → validate_order_request d req ≡ none
      → (req.order.order_type ≡ "PEG BENCH") ↔ (is_set req.order.pegged_benchmark ≡ true)
  unfolding validate_order_pegged_benchmark validate_benchmark
  validate_order_request-benchmark req h =
      let b = (validate_order_request-Passes req h).benchmark in
      (
        (λ e. let e1 = (eq_iff req.order.order_type "PEG BENCH").1 e in ground arith),
        (λ g. (eq_iff req.order.order_type "PEG BENCH").0 (ground arith)),
      )
