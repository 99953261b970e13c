-- ===== src/Errors/Classes/Laws.antt =====
-- How the classes of codes lie to each other.
use ibkr_go.Prelude.{
  ℕ, ℤ, pos, int_eq, int_eq-eq, ◌≡◌, refl, ap, ◌∙◌, ◌↔◌, inl, inr, Bool, true, false, not, ◌||◌,
  List, [], ◌∷◌, arith, Bool-cases, Memᴰ, all-mem, all,
}
use ibkr_go.Errors.ErrCode
use ibkr_go.Errors.Classes.{
  ApiError, is_code, entitlement_codes, order_rejection_codes, is_entitlement,
  is_connectivity_transition, is_farm_status, is_warning, is_pacing_violation,
  is_order_rejection_code, is_order_rejection,
}

-- The code is one of the list.
is_code-mem : (c : ℤ) (cs : List ℕ) → is_code c cs ≡ true → (n : ℕ) × (c ≡ pos n) × Memᴰ n cs
is_code-mem c [] h = ground arith
is_code-mem c (k ∷ ks) h = elim (Bool-cases (int_eq c (pos k))) [
  | inl e ↦ (k, int_eq-eq c k e, Memᴰ.head refl)
  | inr e ↦ let h' = rw e at h in let m = is_code-mem c ks h' in (m.0, m.1, Memᴰ.tail m.2)
]

-- A test that holds of each code of a list holds of every code in the class the list defines.
is_code-all :
    (P : ℤ → Bool) (c : ℤ) (cs : List ℕ)
    → all (λ n. P (pos n)) cs ≡ true
    → is_code c cs ≡ true
    → P c ≡ true
is_code-all P c cs h e = let m = is_code-mem c cs e in ap P m.1 ∙ all-mem (λ n. P (pos n)) h m.2

is_code-none :
    (P : ℤ → Bool) (c : ℤ) (cs : List ℕ)
    → all (λ n. not (P (pos n))) cs ≡ true
    → is_code c cs ≡ true
    → P c ≡ false
is_code-none P c cs h e = let g = is_code-all (λ x. not (P x)) c cs h e in ground arith

-- An order rejection is no warning, no farm status, no connectivity transition, no missing
-- entitlement and no pacing violation.
pub is_order_rejection-only :
    (e : ApiError)
    → is_order_rejection e ≡ true
    → (is_warning e ≡ false)
      × (is_farm_status e ≡ false)
      × (is_connectivity_transition e ≡ false)
      × (is_entitlement e ≡ false)
      × (is_pacing_violation e ≡ false)
unfolding is_order_rejection is_order_rejection_code is_warning is_farm_status
    is_connectivity_transition is_entitlement is_pacing_violation
is_order_rejection-only e h = (
  is_code-none (λ c. is_warning (record e { code = c })) e.code order_rejection_codes refl h,
  is_code-none (λ c. is_farm_status (record e { code = c })) e.code order_rejection_codes refl h,
  is_code-none (λ c. is_connectivity_transition (record e { code = c })) e.code
      order_rejection_codes refl h,
  is_code-none (λ c. is_entitlement (record e { code = c })) e.code order_rejection_codes refl h,
  is_code-none (λ c. is_pacing_violation (record e { code = c })) e.code order_rejection_codes refl
      h,
)

-- The missing entitlement that is a warning only is that of delayed market data.
pub is_entitlement-is_warning :
    (e : ApiError)
    → is_entitlement e ≡ true
    → (is_warning e ≡ true) ↔ (e.code ≡ pos ErrCode.delayed_market_data_displayed)
unfolding is_warning is_farm_status is_entitlement
is_entitlement-is_warning e h =
    let other : (not (is_warning e) || int_eq e.code (pos ErrCode.delayed_market_data_displayed)
        ≡ true) =
      is_code-all
        (λ c.
          not (is_warning (record e { code = c }))
          || int_eq c (pos ErrCode.delayed_market_data_displayed))
        e.code entitlement_codes refl h in
    ((λ w. int_eq-eq e.code ErrCode.delayed_market_data_displayed (ground arith)), λ g. rw g refl)
