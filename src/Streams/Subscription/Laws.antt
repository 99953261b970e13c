-- ===== src/Streams/Subscription/Laws.antt =====
-- What a stream promises.
use ibkr_go.Prelude.{
  Option-cases, if_both, ℕ, ◌≤◌, ℤ, ◌≡◌, refl, ap, ◌∙◌, ◌↔◌, inl, inr, Bool, true, false, not,
  Option, none, some, List, [], ◌∷◌, arith, Bool-cases, if_cases, length, length-append,
}
use ibkr_go.Errors.Classes.{ApiError}
use ibkr_go.Errors.Tree.{
  Err, Sentinel, sentinel, joined, no_errs, err_and, any_node, errors_is, matches, sentinel_index,
}
use ibkr_go.Errors.Retry.{is_subscription_cancel, is_retryable}
use ibkr_go.Errors.Retry.Laws.{is_final, is_retryable_iff}
use ibkr_go.Streams.Subscription.Route.{
  delete_route, handle_api_err, on_disconnect, disconnect_route, close_route, fail_request,
  end_snapshot,
}
use ibkr_go.Streams.Subscription.{
  snapshot_complete, LifecycleKind, StreamEvent, Subscription, data_event, lifecycle_event,
  notice_event, new_subscription, record_cancel_cause, terminal_error, close_with_err, actor_cancel,
  cancel_from_actor, send_event, note_state, emit, emit_state, emit_notice, wait,
}

-- A turn of the actor, which emits a value, a lifecycle event or a notice (with the answer of the
-- cancellation that an overflow would send), gets an error for the request, loses the connection, fails
-- to send the request, drops the route, reads the end of a list or runs a cancellation; or the first
-- part of a cancellation by the caller or its context, which records the cause before the actor's turn;
-- or the reader.
pub data Action (T : Type 0) : Type 0 where
  emit_value : Option Err → T → Action T
  emit_lifecycle : Option Err → LifecycleKind → ℕ → Option Err → Action T
  emit_note : Option Err → ApiError → ℕ → Action T
  api_error_arrived : Err → Action T
  connection_lost : Option Err → Action T
  send_failed : Err → Action T
  engine_closed : Option Err → Action T
  list_ended : Option Err → ℕ → Action T
  cancel_called : Option Err → Action T
  cancel_run : Option Err → Action T
  actor_cancelled : Option Err → Option Err → Action T
  read : Action T

not_retryable : (e : Err) → any_node is_final e ≡ true → is_retryable (some e) ≡ false
not_retryable e h = let iff = is_retryable_iff e in ground arith

-- The cause that an overflow finds recorded, or records.
abbrev pub first_cause : Option Err → Err
first_cause none = sentinel Sentinel.slow_consumer
first_cause (some c) = c

-- The terminal error of a stream that is cancelled for a cause.
terminal_error-cause :
    (c : Err) (admission : Option Err)
    → (e : Err) × (terminal_error (some c) admission ≡ some e)
      × ((p : Err → Bool) → any_node p c ≡ true → any_node p e ≡ true)
      × ((a : Err)
          → admission ≡ some a
          → any_node is_subscription_cancel a ≡ true
          → any_node is_subscription_cancel e ≡ true)
unfolding terminal_error any_node
terminal_error-cause c none = (c, refl, (λ p h. h), λ a e h. ground arith)
terminal_error-cause c (some a) = elim (Bool-cases (any_node is_subscription_cancel a)) [
  | inl y ↦ (
    joined (err_and c (err_and a no_errs)),
    rw y refl,
    (λ p h. ground arith),
    λ b e h. ground arith,
  )
  | inr n ↦ (c, rw n refl, (λ p h. h), λ b e h. ground arith)
]

slow_kept :
    (e : Err)
    → ((p : Err → Bool) → any_node p (sentinel Sentinel.slow_consumer) ≡ true → any_node p e ≡ true)
    → (errors_is e Sentinel.slow_consumer ≡ true) × (is_retryable (some e) ≡ false)
unfolding errors_is any_node matches sentinel_index is_final
slow_kept e kept =
    (kept (matches Sentinel.slow_consumer) refl, not_retryable e (kept is_final refl))

module _ {T : Type 0} where
  abbrev read_event : Subscription T → Subscription T
  read_event s = elim s.events [ [] ↦ s | event ∷ rest ↦ record s { events = rest } ]

  unfoldable pub act : Action T → Subscription T → Subscription T
  act (emit_value admission value) s = (emit admission value s).0
  act (emit_lifecycle admission kind seq e) s = emit_state admission kind seq e s
  act (emit_note admission notice seq) s = (emit_notice admission notice seq s).0
  act (api_error_arrived e) s = handle_api_err e s
  act (connection_lost cause) s = disconnect_route cause s
  act (send_failed e) s = fail_request e s
  act (engine_closed e) s = close_route e s
  act (list_ended admission seq) s = end_snapshot admission seq s
  act (cancel_called cause) s = record_cancel_cause cause s
  act (cancel_run admission) s = actor_cancel admission s
  act (actor_cancelled admission cause) s = cancel_from_actor admission cause s
  act read s = read_event s

  unfoldable pub act_all : List (Action T) → Subscription T → Subscription T
  act_all [] s = s
  act_all (a ∷ rest) s = act_all rest (act a s)

  -- A stream is done exactly if the engine no longer has its route, and its queue is bounded.
  abbrev pub Inv : Subscription T → Type 0
  Inv s =
      (length s.events ≤ s.buffer)
      × (s.is_owned ≡ not s.is_done)
      × (s.is_done ≡ false → s.error ≡ none)

  emit-terminal_error :
      (admission : Option Err) (value : T) (s : Subscription T)
      → s.is_done ≡ false
      → s.is_owned ≡ true
      → s.collect_snapshot ≡ false
      → s.buffer ≤ length s.events
      → wait (emit admission value s).0
        ≡ some (terminal_error (some (first_cause s.cancel_cause)) admission)
  unfolding wait emit send_event cancel_from_actor record_cancel_cause actor_cancel close_with_err
  emit-terminal_error admission value s open_now owned live full =
      elim (Option-cases s.cancel_cause) [
        | inl e ↦ rw e (ground arith)
        | inr (c, e) ↦ rw e (ground arith)
      ]

  -- The emission of a value on a full queue ends a stream that is open, has its route and does
  -- not collect a snapshot, whatever the cancellation that it sends answers: every test of nodes
  -- that finds one in the first cause recorded, which is ErrSlowConsumer if none was, finds one
  -- in the terminal error; if no cause was recorded before, the terminal error matches
  -- ErrSlowConsumer and may not be retried; and it keeps the error of a cancellation that was
  -- not admitted.
  pub emit-overflow :
      (admission : Option Err) (value : T) (s : Subscription T)
      → s.is_done ≡ false
      → s.is_owned ≡ true
      → s.collect_snapshot ≡ false
      → s.buffer ≤ length s.events
      → (e : Err) × (wait (emit admission value s).0 ≡ some (some e))
        × ((p : Err → Bool) → any_node p (first_cause s.cancel_cause) ≡ true → any_node p e ≡ true)
        × (s.cancel_cause ≡ none
            → (errors_is e Sentinel.slow_consumer ≡ true) × (is_retryable (some e) ≡ false))
        × ((c : Err)
            → admission ≡ some c
            → any_node is_subscription_cancel c ≡ true
            → any_node is_subscription_cancel e ≡ true)
  emit-overflow admission value s open_now owned live full =
      let t = terminal_error-cause (first_cause s.cancel_cause) admission in
      (
        t.0,
        emit-terminal_error admission value s open_now owned live full ∙ ap some t.1,
        t.2,
        (λ clean.
            let lost = ap first_cause clean in
            slow_kept t.0 (λ p h. t.2 p (ap (any_node p) lost ∙ h))),
        t.3,
      )

  send_event-Inv :
      (admission : Option Err) (event : StreamEvent T) (s : Subscription T)
      → s.is_done ≡ false
      → Inv s
      → Inv (send_event admission event s).0
  unfolding send_event cancel_from_actor record_cancel_cause actor_cancel close_with_err
  send_event-Inv admission event s open_now i =
      let l = length-append s.events (event ∷ []) in ground arith

  note_state-Inv :
      (kind : LifecycleKind) (seq : ℕ) (s : Subscription T)
      → Inv s
      → Inv (note_state kind seq s) × ((note_state kind seq s).is_done ≡ s.is_done)
  unfolding note_state
  note_state-Inv kind seq s i = ground arith

  emit_state-queue :
      (admission : Option Err) (kind : LifecycleKind) (seq : ℕ) (s : Subscription T)
      → length s.events ≤ s.buffer
      → s.is_owned ≡ false
      → let r = emit_state admission kind seq none s in
        (length r.events ≤ r.buffer) × (r.is_owned ≡ false)
  unfolding emit_state send_event cancel_from_actor record_cancel_cause actor_cancel note_state
  emit_state-queue admission kind seq s fits gone =
      let l = length-append s.events (lifecycle_event kind seq none ∷ []) in ground arith

  close_with_err-Inv :
      (e : Option Err) (s : Subscription T)
      → length s.events ≤ s.buffer
      → s.is_owned ≡ false
      → Inv (close_with_err e s)
  unfolding close_with_err
  close_with_err-Inv e s fits gone = ground arith

  record_cancel_cause-Inv :
      (cause : Option Err) (s : Subscription T) → Inv s → Inv (record_cancel_cause cause s)
  unfolding record_cancel_cause
  record_cancel_cause-Inv cause s i = ground arith

  act-Inv : (a : Action T) (s : Subscription T) → Inv s → Inv (act a s)
  unfolding act emit emit_notice send_event cancel_from_actor record_cancel_cause actor_cancel
      close_with_err handle_api_err on_disconnect disconnect_route fail_request close_route
      delete_route end_snapshot emit_state
  act-Inv (emit_value admission value) s i =
      let l = length-append s.events (data_event value s.connection_seq ∷ []) in ground arith
  act-Inv (emit_lifecycle admission kind seq e) s i =
      let n = note_state-Inv kind seq s i in
      let sent = send_event-Inv admission (lifecycle_event kind seq e) (note_state kind seq s) in
      if_cases Inv s.is_done (λ d. i)
        (λ o. if_cases Inv s.collect_snapshot (λ c. n.0) (λ c. sent (n.1 ∙ o) n.0))
  act-Inv (emit_note admission notice seq) s i =
      let l = length-append s.events (notice_event notice seq ∷ []) in ground arith
  act-Inv (api_error_arrived e) s i = ground arith
  act-Inv (connection_lost cause) s i = ground arith
  act-Inv (send_failed e) s i = ground arith
  act-Inv (engine_closed e) s i = ground arith
  act-Inv (list_ended admission seq) s i =
      let emitted = emit_state-queue admission snapshot_complete seq (delete_route s) i.0 refl in
      if_both Inv s.is_owned
        (close_with_err-Inv none (emit_state admission snapshot_complete seq none (delete_route s))
          emitted.0 emitted.1)
        i
  act-Inv (cancel_called cause) s i = record_cancel_cause-Inv cause s i
  act-Inv (cancel_run admission) s i = ground arith
  act-Inv (actor_cancelled admission cause) s i = ground (arith, record_cancel_cause-Inv cause s i)
  act-Inv read s i = read_event-Inv s.events refl
    where
      read_event-Inv : (es : List (StreamEvent T)) → s.events ≡ es → Inv (read_event s)
      read_event-Inv [] e = rw e (ground arith)
      read_event-Inv (x ∷ rest) e = rw e (ground arith)

  act_all-Inv : (actions : List (Action T)) (s : Subscription T) → Inv s → Inv (act_all actions s)
  unfolding act_all
  act_all-Inv [] s i = i
  act_all-Inv (a ∷ rest) s i = act_all-Inv rest (act a s) (act-Inv a s i)

  -- For the stream of a keyed route and every sequence, from a new stream on, of emissions, of
  -- API errors, of losses of the connection, of failed sends, of the closing of the engine, of
  -- the ends of lists, of cancellations by the actor, of causes that a caller or its context
  -- records with the later turn of the actor, and of reads: the queue stays within its buffer,
  -- and Wait blocks exactly as long as the engine has the stream's route.
  pub act_all-wait :
      (buffer : ℤ) (collect : Bool) (actions : List (Action T))
      → let s = act_all actions (new_subscription buffer collect) in
        (length s.events ≤ s.buffer) × ((wait s ≡ none) ↔ (s.is_owned ≡ true))
  unfolding new_subscription wait
  act_all-wait buffer collect actions =
      let i = act_all-Inv actions (new_subscription buffer collect) (ground arith) in
      (i.0, (λ h. ground arith, λ h. ground arith))
