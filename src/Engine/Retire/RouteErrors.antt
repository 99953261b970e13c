-- ===== src/Engine/Retire/RouteErrors.antt =====
-- What an error does to its connection, and what the other routes see of it.
use ibkr_go.Prelude.{
  Bool-cases, ◌⊎◌, inl, inr, ℕ, ◌≡◌, refl, sym, ap, subst, Bool, true, false, ◌||◌, Option, none,
  some, List, [], ◌∷◌, ◌++◌, arith, All,
}
use ibkr_go.Errors.Tree.{
  Err, Cause, Errs, sentinel, plain_error, api_error, validation_error, frame_too_large_error,
  connect_error, protocol_error, exercise_uncertain_error, regulatory_uncertain_error,
  subscription_cancel_error, order_recovery_error, joined, absent, cause, no_errs, err_and,
  any_node, any_cause, any_errs,
}
use ibkr_go.Errors.Retry.{is_subscription_cancel}
use ibkr_go.Engine.Retire.{
  Walk, walk, walk_cause, walk_all, errs_of, route_cause, nothing_walked, walk_root,
  subscription_cancel_route_err, same_transport, retire_current, retire_if_found,
  retire_subscription_transport, Retirement, retire_transport_with_route_err,
}

mutual
  unfolding walk any_node

  walk-found :
      (e : Err) (w : Walk) → (walk e w).found ≡ w.found || any_node is_subscription_cancel e
  walk-found (subscription_cancel_error op absent) w = ground arith
  walk-found (subscription_cancel_error op (cause e)) w = ground arith
  walk-found (connect_error op c) w = walk_cause-found c w
  walk-found (protocol_error d m c) w = walk_cause-found c w
  walk-found (exercise_uncertain_error id c) w = walk_cause-found c w
  walk-found (regulatory_uncertain_error id n c) w = walk_cause-found c w
  walk-found (order_recovery_error ids c k) w =
      ground (arith, walk_cause-found c w, walk_cause-found k (walk_cause c w))
  walk-found (joined es) w = walk_all-found es w
  walk-found (sentinel s) w = ground arith
  walk-found (plain_error m) w = ground arith
  walk-found (api_error a) w = ground arith
  walk-found (validation_error f v m) w = ground arith
  walk-found (frame_too_large_error n l) w = ground arith

  walk_cause-found :
      (c : Cause) (w : Walk)
      → (walk_cause c w).found ≡ w.found || any_cause is_subscription_cancel c
  walk_cause-found absent w = ground arith
  walk_cause-found (cause e) w = walk-found e w

  walk_all-found :
      (es : Errs) (w : Walk) → (walk_all es w).found ≡ w.found || any_errs is_subscription_cancel es
  walk_all-found no_errs w = ground arith
  walk_all-found (err_and e es) w = ground (arith, walk-found e w, walk_all-found es (walk e w))

-- A cancellation that failed, not on account of another one.
abbrev pub is_nested : Err → Bool
is_nested (subscription_cancel_error op (cause e)) = any_node is_subscription_cancel e
is_nested _ = false

abbrev IsClean : Err → Type 0
IsClean e = any_node is_subscription_cancel e ≡ false

All-append {ℓ κ} :
    {A : Type ℓ} (P : A → Type κ) (xs ys : List A) → All P xs → All P ys → All P (xs ++ ys)
All-append P [] ys h k = k
All-append P (x ∷ xs) ys h k = (h.0, All-append P xs ys h.1 k)

mutual
  unfolding walk any_node

  walk-IsClean :
      (e : Err) (w : Walk)
      → any_node is_nested e ≡ false
      → All IsClean w.causes
      → All IsClean (walk e w).causes
  walk-IsClean (subscription_cancel_error op absent) w h k = k
  walk-IsClean (subscription_cancel_error op (cause e)) w h k =
      All-append IsClean w.causes (e ∷ []) k (ground arith, tt)
  walk-IsClean (connect_error op c) w h k = walk_cause-IsClean c w h k
  walk-IsClean (protocol_error d m c) w h k = walk_cause-IsClean c w h k
  walk-IsClean (exercise_uncertain_error id c) w h k = walk_cause-IsClean c w h k
  walk-IsClean (regulatory_uncertain_error id n c) w h k = walk_cause-IsClean c w h k
  walk-IsClean (order_recovery_error ids c m) w h k =
      walk_cause-IsClean m (walk_cause c w) (ground arith) (walk_cause-IsClean c w (ground arith) k)
  walk-IsClean (joined es) w h k = walk_all-IsClean es w h k
  walk-IsClean (sentinel s) w h k = k
  walk-IsClean (plain_error m) w h k = k
  walk-IsClean (api_error a) w h k = k
  walk-IsClean (validation_error f v m) w h k = k
  walk-IsClean (frame_too_large_error n l) w h k = k

  walk_cause-IsClean :
      (c : Cause) (w : Walk)
      → any_cause is_nested c ≡ false
      → All IsClean w.causes
      → All IsClean (walk_cause c w).causes
  walk_cause-IsClean absent w h k = k
  walk_cause-IsClean (cause e) w h k = walk-IsClean e w h k

  walk_all-IsClean :
      (es : Errs) (w : Walk)
      → any_errs is_nested es ≡ false
      → All IsClean w.causes
      → All IsClean (walk_all es w).causes
  walk_all-IsClean no_errs w h k = k
  walk_all-IsClean (err_and e es) w h k =
      walk_all-IsClean es (walk e w) (ground arith) (walk-IsClean e w (ground arith) k)

errs_of-IsClean :
    (es : List Err) → All IsClean es → any_errs is_subscription_cancel (errs_of es) ≡ false
unfolding any_node
errs_of-IsClean [] h = refl
errs_of-IsClean (e ∷ es) h = ground (arith, h.0, errs_of-IsClean es h.1)

IsCleanOption : Option Err → Type 0
IsCleanOption none = Unit
IsCleanOption (some e) = IsClean e

route_cause-IsClean : (es : List Err) → All IsClean es → IsCleanOption (route_cause es)
unfolding route_cause any_node IsCleanOption
route_cause-IsClean [] h = tt
route_cause-IsClean (x ∷ []) h = h.0
route_cause-IsClean (x ∷ k ∷ es) h = errs_of-IsClean (x ∷ k ∷ es) h

IsCleanOption-some : {o : Option Err} → IsCleanOption o → (r : Err) → o ≡ some r → IsClean r
unfolding IsCleanOption
IsCleanOption-some c r e = subst IsCleanOption e c

route_err-IsClean :
    (e : Err)
    → any_node is_nested e ≡ false
    → (r : Err) → (subscription_cancel_route_err (some e)).0 ≡ some r
    → IsClean r
unfolding subscription_cancel_route_err walk_root
route_err-IsClean e h =
    IsCleanOption-some
      (route_cause-IsClean (walk e nothing_walked).causes (walk-IsClean e nothing_walked h tt))

-- The connection is retired for this error, and its routes see another one.
abbrev pub RetiredFor : ℕ → Err → Retirement → Retirement → Type 0
RetiredFor tr e before after =
    (after.retiring_transport ≡ some tr)
    × (after.closed_transports ≡ tr ∷ before.closed_transports)
    × (after.transport_retire_err ≡ some e)
    × ((any_node is_nested e ≡ true)
        ⊎ ((r : Err)
            → after.transport_route_err ≡ some r
            → any_node is_subscription_cancel r ≡ false))

retire_current-RetiredFor :
    (tr : ℕ) (e : Err) (route_err : Option Err) (before : Retirement)
    → same_transport before.retiring_transport tr ≡ false
    → (any_node is_nested e ≡ true)
      ⊎ ((r : Err) → route_err ≡ some r → any_node is_subscription_cancel r ≡ false)
    → RetiredFor tr e before (retire_current tr (some e) route_err before)
retire_current-RetiredFor tr e route_err before fresh clean = rw fresh (refl, refl, refl, clean)

retire_here :
    (tr : ℕ) (a b : Option Err) (before : Retirement)
    → before.transport ≡ some tr
    → retire_transport_with_route_err a b before ≡ retire_current tr a b before
unfolding retire_transport_with_route_err
retire_here tr a b before here =
    ap (λ t. elim t [ none ↦ before | some n ↦ retire_current n a b before ]) here

retire_if_found-RetiredFor :
    (tr : ℕ) (e : Err) (route : Option Err × Bool) (found : Bool) (before : Retirement)
    → before.transport ≡ some tr
    → same_transport before.retiring_transport tr ≡ false
    → route.1 ≡ found
    → (any_node is_nested e ≡ true)
      ⊎ ((r : Err) → route.0 ≡ some r → any_node is_subscription_cancel r ≡ false)
    → ((found ≡ true) × RetiredFor tr e before (retire_if_found (some e) route before))
      ⊎ ((found ≡ false) × (retire_if_found (some e) route before ≡ before))
retire_if_found-RetiredFor tr e (route_err, true) found before here fresh same clean = inl (
  sym same,
  subst (RetiredFor tr e before) (sym (retire_here tr (some e) route_err before here))
      (retire_current-RetiredFor tr e route_err before fresh clean),
)
retire_if_found-RetiredFor tr e (route_err, false) found before here fresh same clean =
    inr (sym same, refl)

-- Where a connection is not retiring yet, an error whose nodes include a failed cancellation
-- retires it: it is closed, the session ends with this error, and, unless a failed cancellation
-- is the cause of another, what the other routes see has none in it. An error without a failed
-- cancellation changes nothing.
pub retire_subscription_transport-RetiredFor :
    (tr : ℕ) (e : Err) (before : Retirement)
    → before.transport ≡ some tr
    → same_transport before.retiring_transport tr ≡ false
    → ((any_node is_subscription_cancel e ≡ true)
        × RetiredFor tr e before (retire_subscription_transport (some e) before))
      ⊎ ((any_node is_subscription_cancel e ≡ false)
          × (retire_subscription_transport (some e) before ≡ before))
unfolding retire_subscription_transport subscription_cancel_route_err walk_root
retire_subscription_transport-RetiredFor tr e before here fresh =
    retire_if_found-RetiredFor tr e (subscription_cancel_route_err (some e))
      (any_node is_subscription_cancel e) before here fresh (walk-found e nothing_walked)
      (elim (Bool-cases (any_node is_nested e)) [
        | inl y ↦ inl y
        | inr n ↦ inr (route_err-IsClean e n)
      ])
