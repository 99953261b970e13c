-- ===== src/Orders/Versions/Laws.antt =====
-- Which orders a server version admits.
use ibkr_go.Prelude.{ℕ, ◌≤◌, ◌≡◌, refl, ◌↔◌, true, ◌||◌, none, List, [], ◌∷◌, arith, All}
use ibkr_go.Orders.Validation.Fields.{is_set}
use ibkr_go.Protocol.Gates.{min_server_version}
use ibkr_go.Orders.Types.{Order}
use ibkr_go.Orders.Versions.{
  Requirement, requirements, check_requirements, validate_order_server_version,
}

abbrev Meets : ℕ → Requirement → Type 0
Meets v r = r.given ≡ true → r.version ≤ v

check_requirements-none :
    (rs : List Requirement) (v : ℕ) → check_requirements rs v ≡ none → All (Meets v) rs
unfolding check_requirements
check_requirements-none [] v h = tt
check_requirements-none (r ∷ rs) v h =
    ((λ g. ground arith), check_requirements-none rs v (ground arith))

check_requirements-Meets :
    (rs : List Requirement) (v : ℕ) → All (Meets v) rs → check_requirements rs v ≡ none
unfolding check_requirements
check_requirements-Meets [] v h = refl
check_requirements-Meets (r ∷ rs) v h = ground (arith, h.0, check_requirements-Meets rs v h.1)

-- An order is admitted at a server version exactly if that version is at least 216 where it is
-- deactivated, post-only, allowed pre-open or out of the opening auction, 217 where it sets the
-- routing to the BBO, the price improvement or the what-if type, and 223 where it sets the
-- hedge's maximum size.
pub validate_order_server_version_iff :
    {D : Type 0} (o : Order D) (v : ℕ)
    → (validate_order_server_version o v ≡ none) ↔ (
        ((o.deactivate || (o.post_only || (o.allow_pre_open || o.ignore_open_auction))) ≡ true
          → 216 ≤ v)
        × ((is_set o.route_marketable_to_bbo
                || (is_set o.seek_price_improvement || is_set o.what_if_type))
              ≡ true
            → 217 ≤ v)
        × (is_set o.hedge.max_size ≡ true → 223 ≤ v))
unfolding validate_order_server_version requirements min_server_version
validate_order_server_version_iff o v = (
  λ h.
      let m = check_requirements-none (requirements o) v h in
      (ground (arith, m), ground (arith, m), ground (arith, m)),
  λ h. check_requirements-Meets (requirements o) v (
    (λ g. h.0 (ground arith)),
    (
      (λ g. h.0 (ground arith)),
      (
        (λ g. h.0 (ground arith)),
        (
          (λ g. h.0 (ground arith)),
          (
            (λ g. h.1 (ground arith)),
            ((λ g. h.1 (ground arith)), ((λ g. h.1 (ground arith)), ((λ g. h.2 g), tt))),
          ),
        ),
      ),
    ),
  ),
)
