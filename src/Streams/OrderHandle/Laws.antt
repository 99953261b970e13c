-- ===== src/Streams/OrderHandle/Laws.antt =====
-- What a reader of an order handle sees over any sequence of steps.
use ibkr_go.Prelude.{
  ℕ, ◌≤◌, ℤ, ◌≡◌, refl, sym, ap, ◌∙◌, inl, inr, Bool, true, false, Option, none, some, List, [],
  ◌∷◌, ◌++◌, append_assoc, append-nil, arith, ltb, ltb→lt, Bool-cases, if_both, length,
  length-append,
}
use ibkr_go.Errors.Tree.{Err}
use ibkr_go.Streams.OrderHandle.{
  Handle, new_order_handle, acknowledge, close_with_err, emit_event, receive, wait,
}

-- The engine emits, acknowledges and closes; the reader receives.
pub data Action (E : Type 0) : Type 0 where
  emit : E → Action E
  acknowledge_order : Action E
  close : Option Err → Action E
  read : Action E

-- A handle with what was read from it and what it refused, in order.
pub record Run (E : Type 0) : Type 0 where
  pub handle : Handle E
  pub received : List E
  pub refused : List E

module _ {E : Type 0} where
  abbrev pub start : ℤ → ℕ → Run E
  start id capacity = record { handle = new_order_handle id capacity; received = []; refused = [] }

  unfoldable pub note_read : Run E → Option E × Handle E → Run E
  note_read r (none, h) = record r { handle = h }
  note_read r (some event, h) = record r { handle = h; received = r.received ++ (event ∷ []) }

  unfoldable pub note_emit : Run E → E → Handle E × Bool → Run E
  note_emit r event (h, true) = record r { handle = h }
  note_emit r event (h, false) = record r { handle = h; refused = r.refused ++ (event ∷ []) }

  unfoldable pub act : Action E → Run E → Run E
  unfolding note_read note_emit
  act (emit event) r = note_emit r event (emit_event event r.handle)
  act acknowledge_order r = record r { handle = acknowledge r.handle }
  act (close e) r = record r { handle = close_with_err e r.handle }
  act read r = note_read r (receive r.handle)

  unfoldable pub act_all : List (Action E) → Run E → Run E
  act_all [] r = r
  act_all (a ∷ rest) r = act_all rest (act a r)

  abbrev emission : Action E → List E
  emission (emit event) = event ∷ []
  emission _ = []

  unfoldable pub emitted : List (Action E) → List E
  emitted [] = []
  emitted (a ∷ rest) = emission a ++ emitted rest

  -- The events offered so far are those read, those that wait and those refused, in this order; the
  -- queue is within its bound; and an open handle has refused nothing.
  record Inv (offered : List E) (r : Run E) : Type 0 where
    in_order : (r.received ++ r.handle.events) ++ r.refused ≡ offered
    bounded : length r.handle.events ≤ r.handle.capacity
    open_refused_nothing : r.handle.is_done ≡ false → r.refused ≡ []
    refused_only_after_error : r.handle.is_done ≡ false → r.handle.error ≡ none

  push_in_order :
      (xs ys rs : List E) {offered : List E} (event : E)
      → rs ≡ []
      → (xs ++ ys) ++ rs ≡ offered
      → (xs ++ (ys ++ (event ∷ []))) ++ rs ≡ offered ++ (event ∷ [])
  push_in_order xs ys rs {offered} event none_refused in_order =
      let whole : (xs ++ ys ≡ offered) =
        sym (append-nil (xs ++ ys)) ∙ ap (λ l. (xs ++ ys) ++ l) (sym none_refused) ∙ in_order in
      ap (λ l. (xs ++ (ys ++ (event ∷ []))) ++ l) none_refused
      ∙ append-nil (xs ++ (ys ++ (event ∷ [])))
      ∙ sym (append_assoc xs ys (event ∷ []))
      ∙ ap (λ l. l ++ (event ∷ [])) whole

  -- The head of the queue goes to what was read.
  read_in_order :
      (xs ys rs : List E) {offered : List E} (event : E)
      → (xs ++ (event ∷ ys)) ++ rs ≡ offered
      → ((xs ++ (event ∷ [])) ++ ys) ++ rs ≡ offered
  read_in_order xs ys rs event h = ap (λ l. l ++ rs) (append_assoc xs (event ∷ []) ys) ∙ h

  note_read-Inv :
      {offered : List E} {r : Run E} → Inv offered r → Inv offered (note_read r (receive r.handle))
  unfolding note_read receive
  note_read-Inv {offered} {r} i = go r.handle.events refl
    where
      go : (es : List E) → r.handle.events ≡ es → Inv offered (note_read r (receive r.handle))
      go [] e = rw e (record {
        in_order = rw⁻¹ e i.in_order;
        bounded = omega arith;
        open_refused_nothing = i.open_refused_nothing;
        refused_only_after_error = i.refused_only_after_error;
      })
      go (event ∷ rest) e =
          let in_order = rw e at i.in_order in
          let bounded = rw e at i.bounded in
          rw e (record {
            in_order = read_in_order r.received rest r.refused event in_order;
            bounded = omega arith;
            open_refused_nothing = i.open_refused_nothing;
            refused_only_after_error = i.refused_only_after_error;
          })

  act-Inv :
      (a : Action E) {offered : List E} {r : Run E}
      → Inv offered r
      → Inv (offered ++ emission a) (act a r)
  unfolding act emit_event close_with_err acknowledge receive
  act-Inv (emit event) {offered} {r} i = elim (Bool-cases r.handle.is_done) [
    | inl done ↦ rw done (record {
      in_order =
          sym (append_assoc (r.received ++ r.handle.events) r.refused (event ∷ []))
          ∙ ap (λ l. l ++ (event ∷ [])) i.in_order;
      bounded = i.bounded;
      open_refused_nothing = λ o. ground (arith, done, o);
      refused_only_after_error = λ o. ground (arith, done, o);
    })
    | inr open_now ↦ elim (Bool-cases (ltb (length r.handle.events) r.handle.capacity)) [
      | inl room ↦ rw open_now (
          rw room (record {
            in_order =
                push_in_order _ r.handle.events _ event (i.open_refused_nothing open_now)
                  i.in_order;
            bounded = omega (arith, ltb→lt _ _ room, length-append r.handle.events (event ∷ []));
            open_refused_nothing = λ o. i.open_refused_nothing open_now;
            refused_only_after_error = λ o. i.refused_only_after_error open_now;
          }))
      | inr full ↦ rw open_now (
          rw full (record {
            in_order =
                sym (append_assoc (r.received ++ r.handle.events) r.refused (event ∷ []))
                ∙ ap (λ l. l ++ (event ∷ [])) i.in_order;
            bounded = i.bounded;
            open_refused_nothing = λ o. ground arith;
            refused_only_after_error = λ o. ground arith;
          }))
    ]
  ]
  act-Inv acknowledge_order {offered} {r} i = rw (append-nil offered) (
      if_both (λ h. Inv offered (record r { handle = h })) r.handle.acknowledged i
        (record {
          in_order = i.in_order;
          bounded = i.bounded;
          open_refused_nothing = i.open_refused_nothing;
          refused_only_after_error = i.refused_only_after_error;
        }))
  act-Inv (close e) {offered} {r} i = rw (append-nil offered) (
      if_both (λ h. Inv offered (record r { handle = h })) r.handle.is_done i
        (record {
          in_order = i.in_order;
          bounded = i.bounded;
          open_refused_nothing = λ o. ground arith;
          refused_only_after_error = λ o. ground arith;
        }))
  act-Inv read {offered} {r} i = rw (append-nil offered) (note_read-Inv i)

  act_all-Inv :
      (actions : List (Action E)) {offered : List E} {r : Run E}
      → Inv offered r
      → Inv (offered ++ emitted actions) (act_all actions r)
  unfolding act_all emitted
  act_all-Inv [] {offered} i = rw (append-nil offered) i
  act_all-Inv (a ∷ rest) {offered} {r} i =
      rw⁻¹ (append_assoc offered (emission a) (emitted rest)) (act_all-Inv rest (act-Inv a i))

  -- Whatever the engine and the reader do, the events that were emitted are those read, those
  -- that wait in the queue and those refused, in the order of emission: none is dropped, and
  -- none is refused while the handle is open. The queue stays within its capacity.
  pub act_all-lossless :
      (id : ℤ) (capacity : ℕ) (actions : List (Action E))
      → let r = act_all actions (start id capacity) in
        ((r.received ++ r.handle.events) ++ r.refused ≡ emitted actions)
        × (length r.handle.events ≤ r.handle.capacity)
        × (r.handle.is_done ≡ false → r.refused ≡ [])
  unfolding new_order_handle
  act_all-lossless id capacity actions =
      let i = act_all-Inv actions (record {
        in_order = refl;
        bounded = omega arith;
        open_refused_nothing = λ o. refl;
        refused_only_after_error = λ o. refl;
      }) in
      (i.in_order, i.bounded, i.open_refused_nothing)

  act-is_done :
      (a : Action E) (r : Run E)
      → r.handle.is_done ≡ true
      → ((act a r).handle.is_done ≡ true) × ((act a r).handle.error ≡ r.handle.error)
  unfolding act emit_event note_emit note_read receive close_with_err acknowledge
  act-is_done (emit event) r h = ground arith
  act-is_done acknowledge_order r h = ground arith
  act-is_done (close e) r h = ground arith
  act-is_done read r h = ground arith

  -- A handle that is done stays done, with the error of its first close.
  pub act_all-is_done :
      (actions : List (Action E)) (r : Run E)
      → r.handle.is_done ≡ true
      → wait (act_all actions r).handle ≡ some r.handle.error
  unfolding act_all wait
  act_all-is_done [] r h = rw h refl
  act_all-is_done (a ∷ rest) r h =
      let kept = act-is_done a r h in act_all-is_done rest (act a r) kept.0 ∙ ap some kept.1
