-- ===== src/Engine/OrderRoutes/Lifecycle.antt =====
-- The lifecycle events of every order in every run.
use ibkr_go.Prelude.{
  ℕ, ℤ, ◌≡◌, refl, ap, ◌∙◌, ◌≢◌, ◌⊎◌, inl, inr, true, false, ◌||◌, none, some, List, [], ◌∷◌, ◌++◌,
  map, arith, if◌then◌else◌, Bool-cases, any, All,
}
use ibkr_go.Errors.Tree.{Sentinel, sentinel}
use ibkr_go.Streams.OrderHandle.{new_order_handle}
use ibkr_go.Engine.OrderRoutes.{
  check_replace, OrderRun, Orders, Input, connectivity_lost, data_lost, data_maintained,
  transport_lost, replaced, ready, written, observed, detached, reads, placed, new_order_run,
  install, no_orders, act_on, act, act_all,
}
use ibkr_go.Engine.OrderRoutes.History.{phase_after, is_recovery, history}
use ibkr_go.Engine.OrderRoutes.Steps.{SoundRun, act_on-SoundRun}

new_order_run-SoundRun :
    (C : Type 0) (id : ℤ) (capacity key : ℕ) → SoundRun {B = C} (new_order_run id capacity key)
unfolding SoundRun new_order_run new_order_handle
new_order_run-SoundRun C id capacity key = record {
  phase = false;
  alternates = refl;
  open_phase = λ h. refl;
  open_recovery = λ h. refl;
}

module _ {B : Type 0} where
  -- What the history of an order says of it: its events alternate; an open order is in a gap exactly
  -- if its history ends in one; and a replacement is refused for a demand for recovery exactly if the
  -- history has one.
  pub record Lifecycle (t : OrderRun B) : Type 0 where
    pub alternates : phase_after false (history t) ≢ none
    pub in_gap : (t.route.closed ≡ true) ⊎ (phase_after false (history t) ≡ some t.route.gapped)
    pub replacement : check_replace t.route ≡ (
        if t.route.closed || t.route.handle.is_done
        then some (sentinel Sentinel.closed)
        else (if any is_recovery (history t)
            then some (sentinel Sentinel.order_recovery_required)
            else none))

  SoundRun-Lifecycle : (t : OrderRun B) → SoundRun t → Lifecycle t
  unfolding SoundRun check_replace
  SoundRun-Lifecycle t i = record {
    alternates = λ h. ground (arith, i.alternates, h);
    in_gap = elim (Bool-cases t.route.closed) [
      | inl c ↦ inl c
      | inr o ↦ inr (i.alternates ∙ ap some (i.open_phase o))
    ];
    replacement = elim (Bool-cases t.route.closed) [
      | inl c ↦ ground (arith, c)
      | inr o ↦ rw (i.open_recovery o) refl
    ];
  }

  map-SoundRun :
      (seq : ℕ) (i : Input B) (ts : List (OrderRun B))
      → All SoundRun ts
      → All SoundRun (map (act_on seq i) ts)
  map-SoundRun seq i [] k = tt
  map-SoundRun seq i (t ∷ ts) k = (act_on-SoundRun seq i t k.0, map-SoundRun seq i ts k.1)

  snoc-SoundRun :
      (ts : List (OrderRun B)) (t : OrderRun B)
      → All SoundRun ts
      → SoundRun t
      → All SoundRun (ts ++ (t ∷ []))
  snoc-SoundRun [] t k l = (l, tt)
  snoc-SoundRun (u ∷ ts) t k l = (k.0, snoc-SoundRun ts t k.1 l)

  install-SoundRun :
      (i : Input B) (ts : List (OrderRun B)) → All SoundRun ts → All SoundRun (install i ts)
  install-SoundRun (placed id capacity key) ts k =
      snoc-SoundRun ts _ k (new_order_run-SoundRun B id capacity key)
  install-SoundRun connectivity_lost ts k = k
  install-SoundRun data_lost ts k = k
  install-SoundRun data_maintained ts k = k
  install-SoundRun (transport_lost reconnects e) ts k = k
  install-SoundRun replaced ts k = k
  install-SoundRun ready ts k = k
  install-SoundRun (written key outcome) ts k = k
  install-SoundRun (observed id b) ts k = k
  install-SoundRun (detached id) ts k = k
  install-SoundRun (reads id) ts k = k

  act_all-SoundRun :
      (is : List (Input B)) (s : Orders B) → All SoundRun s.runs → All SoundRun (act_all is s).runs
  unfolding act_all act
  act_all-SoundRun [] s k = k
  act_all-SoundRun (i ∷ is) s k =
      act_all-SoundRun is (act i s)
        (install-SoundRun i _ (map-SoundRun s.connection_seq i s.runs k))

  All-Lifecycle : (ts : List (OrderRun B)) → All SoundRun ts → All Lifecycle ts
  All-Lifecycle [] k = tt
  All-Lifecycle (t ∷ ts) k = (SoundRun-Lifecycle t k.0, All-Lifecycle ts k.1)

  -- In every run from no orders: the lifecycle events that the reader of an order handle has
  -- received or has waiting alternate, since a gap begins only outside of one, and only a
  -- restoration or a demand for recovery ends one. An open order is marked as in a gap exactly
  -- if its events end in one. A replacement is refused with ErrClosed for an order that is
  -- closed or done, and else with ErrOrderRecoveryRequired exactly if its events have a demand
  -- for recovery.
  pub act_all-Lifecycle : (is : List (Input B)) → All Lifecycle (act_all is no_orders).runs
  act_all-Lifecycle is = All-Lifecycle _ (act_all-SoundRun is no_orders tt)
