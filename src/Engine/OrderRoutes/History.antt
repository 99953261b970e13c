-- ===== src/Engine/OrderRoutes/History.antt =====
-- The lifecycle events that the reader of an order handle sees.
use ibkr_go.Prelude.{
  ◌≡◌, refl, sym, ap, ◌∙◌, ◌⊎◌, inl, inr, Bool, true, false, not, ◌&&◌, ◌||◌, Option, none, some,
  List, [], ◌∷◌, ◌++◌, append_assoc, arith, ltb, if◌then◌else◌, if_both, length, any,
}
use ibkr_go.Errors.Tree.{Err, Sentinel, sentinel}
use ibkr_go.Streams.OrderHandle.{Handle, close_with_err, emit_event}
use ibkr_go.Engine.OrderRoutes.{
  order_started, order_gap, order_restored, order_recovery_required, OrderEvent, lifecycle,
  business, OrderRoute, close_order_route, emit_or_close, OrderRun,
}

some_injective : {g k : Bool} → some g ≡ some k → g ≡ k
some_injective {g} {k} h = cc

same_phase : (o : Option Bool) → elim o as (λ _. Option Bool) [ none ↦ none | some k ↦ some k ] ≡ o
same_phase none = refl
same_phase (some k) = refl

pub both-not : (a b : Bool) → (not a && not b) ≡ true → (a ≡ false) × (b ≡ false)
both-not a b h = ground (arith, h)

pub both-first : (a b : Bool) → (not a && b) ≡ true → (a ≡ false) × (b ≡ true)
both-first a b h = ground (arith, h)

pub neither : (a b : Bool) → (a || not b) ≡ false → (a ≡ false) × (b ≡ true)
neither a b h = ground (arith, h)

pub or-false : (b : Bool) → (b || false) ≡ b
or-false b = ground arith

pub or-true : (b : Bool) → (b || true) ≡ true
or-true b = ground arith

module _ {B : Type 0} where
  -- Whether the reader is in a gap after an event, if the event may come: a gap begins outside of a
  -- gap, and a restoration or a demand for recovery ends one.
  abbrev pub next_phase : OrderEvent B → Bool → Option Bool
  next_phase (lifecycle order_started seq e) g = some g
  next_phase (lifecycle order_gap seq e) g = if g then none else some true
  next_phase (lifecycle order_restored seq e) g = if g then some false else none
  next_phase (lifecycle order_recovery_required seq e) g = if g then some false else none
  next_phase (business b) g = some g

  abbrev pub phase_after : Bool → List (OrderEvent B) → Option Bool
  phase_after g [] = some g
  phase_after g (e ∷ es) = elim (next_phase e g) [ none ↦ none | some k ↦ phase_after k es ]

  abbrev pub is_recovery : OrderEvent B → Bool
  is_recovery (lifecycle order_recovery_required seq e) = true
  is_recovery _ = false

  abbrev pub phase_from : Option Bool → List (OrderEvent B) → Option Bool
  phase_from o es = elim o [ none ↦ none | some k ↦ phase_after k es ]

  -- What was received and what waits in the queue.
  abbrev pub history : OrderRun B → List (OrderEvent B)
  history t = t.received ++ t.route.handle.events

  pub phase_from-snoc :
      (es : List (OrderEvent B)) (o : Option Bool) (e : OrderEvent B) (k : Bool)
      → phase_from o es ≡ some k
      → phase_from o (es ++ (e ∷ [])) ≡ next_phase e k
  phase_from-snoc es none e k h = cc
  phase_from-snoc [] (some g) e k h =
      same_phase (next_phase e g) ∙ ap (next_phase e) (some_injective h)
  phase_from-snoc (x ∷ es) (some g) e k h = phase_from-snoc es (next_phase x g) e k h

  pub any-snoc :
      (es : List (OrderEvent B)) (e : OrderEvent B)
      → any is_recovery (es ++ (e ∷ [])) ≡ any is_recovery es || is_recovery e
  any-snoc [] e = ground arith
  any-snoc (x ∷ es) e = ground (arith, any-snoc es e)

  -- What holds of an order in every run.
  pub record Sound (received : List (OrderEvent B)) (r : OrderRoute B) : Type 0 where
    pub phase : Bool
    pub alternates : phase_after false (received ++ r.handle.events) ≡ some phase
    pub open_phase : r.closed ≡ false → phase ≡ r.gapped
    pub open_recovery :
        r.closed ≡ false → r.recovery_required ≡ any is_recovery (received ++ r.handle.events)

  pub emit_event-cases :
      (e : OrderEvent B) (h : Handle (OrderEvent B))
      → (((emit_event e h).1 ≡ true) × ((emit_event e h).0.events ≡ h.events ++ (e ∷ [])))
        ⊎ (((emit_event e h).1 ≡ false) × ((emit_event e h).0.events ≡ h.events))
  unfolding emit_event close_with_err
  emit_event-cases e h =
      let Cases = λ (p : Handle (OrderEvent B) × Bool).
        ((p.1 ≡ true) × (p.0.events ≡ h.events ++ (e ∷ [])))
        ⊎ ((p.1 ≡ false) × (p.0.events ≡ h.events)) in
      if_both Cases h.is_done (inr (refl, refl)) (
        if_both Cases (ltb (length h.events) h.capacity) (inl (refl, refl))
          (if_both (λ k. Cases (k, false)) h.is_done (inr (refl, refl)) (inr (refl, refl))))

  pub close-events :
      (e : Option Err) (r : OrderRoute B) → (close_order_route e r).handle.events ≡ r.handle.events
  unfolding close_order_route close_with_err
  close-events e r = ground arith

  pub in_phase : (e : OrderEvent B) {g k : Bool} → g ≡ k → next_phase e g ≡ next_phase e k
  in_phase e h = ap (next_phase e) h

  -- A route whose flags say what the next event makes of its history is sound once the event is
  -- emitted, or the route is closed for want of room.
  pub emit_or_close-Sound :
      (received : List (OrderEvent B)) (e : OrderEvent B) (r : OrderRoute B) (g : Bool)
      → phase_after false (received ++ r.handle.events) ≡ some g
      → next_phase e g ≡ some r.gapped
      → r.recovery_required ≡ (any is_recovery (received ++ r.handle.events) || is_recovery e)
      → Sound received (emit_or_close e r)
  unfolding emit_or_close close_order_route
  emit_or_close-Sound received e r g now next recovery = elim (emit_event-cases e r.handle) [
    | inl (sent, events) ↦
        let longer =
          ap (λ q. received ++ q) events ∙ sym (append_assoc received r.handle.events (e ∷ [])) in
        rw sent (record {
          phase = r.gapped;
          alternates =
              ap (phase_after false) longer
              ∙ phase_from-snoc (received ++ r.handle.events) (some false) e g now
              ∙ next;
          open_phase = λ h. refl;
          open_recovery = λ h.
              recovery
              ∙ sym (ap (any is_recovery) longer ∙ any-snoc (received ++ r.handle.events) e);
        })
    | inr (refused, events) ↦ rw refused (record {
      phase = g;
      alternates =
          ap (λ q. phase_after false (received ++ q))
            (close-events (some (sentinel Sentinel.slow_consumer))
                (record r { handle = (emit_event e r.handle).0 })
              ∙ events)
          ∙ now;
      open_phase = λ h. ground (arith, h);
      open_recovery = λ h. ground (arith, h);
    })
  ]
