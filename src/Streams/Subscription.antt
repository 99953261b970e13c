-- ===== src/Streams/Subscription.antt =====
-- subscription.go: a stream of events with its bounded queue and its snapshot. The time stamps of the
-- events and the two mutexes, which guard single fields, are left out.
pub mod Route
pub mod Laws
use ibkr_go.Prelude.{
  ℕ, zero, suc, ◌+◌, ◌-◌, ◌*◌, ◌/◌, ◌%◌, ◌^◌, ◌≤◌, ◌<◌, max, ℤ, pos, negsuc, ltz, is_negative,
  int_eq, int_eq-eq, String, string_append, ◌≡◌, refl, sym, ap, fun_ext, ◌∙◌, subst, ◌≢◌, ◌↔◌, ◌⊎◌,
  inl, inr, Bool, true, false, not, ◌&&◌, ◌||◌, Option, none, some, List, [], ◌∷◌, ◌++◌, map,
  append_assoc, append-nil, arith, ltb, leb, ◌==◌, if◌then◌else◌, ltb→lt, lt→ltb, le→ltb, ==_iff,
  Bool-cases, Option-cases, if_both, or_else_both, Memᴰ, any-mem, all-mem, length, take, drop,
  length-append, take-append-drop, length-take, length-drop, take-append_left, drop-append_left,
  all, any, All, Result, ok, err, ◌>>◌, reject, is_space, trim_space, is_empty, is_blank, is_one_of,
  is_blank-is_empty, is_one_of-mem, str_eq, eq_iff,
}
use ibkr_go.Errors.Classes.{ApiError}
use ibkr_go.Errors.Tree.{Err, Errs, Sentinel, sentinel, joined, no_errs, err_and, any_node}
use ibkr_go.Errors.Retry.{is_subscription_cancel}

pub data LifecycleKind : Type 0 where
  started : LifecycleKind
  snapshot_complete : LifecycleKind
  gap : LifecycleKind
  restored : LifecycleKind
  resubscribed : LifecycleKind

pub data StreamEvent (T : Type 0) : Type 0 where
  data_event : T → ℕ → StreamEvent T
  lifecycle_event : LifecycleKind → ℕ → Option Err → StreamEvent T
  notice_event : ApiError → ℕ → StreamEvent T

-- `is_done` is that the channels of events and of completion are closed. `is_owned` is that the engine
-- still has the stream's route, which the cancellation callback looks up.
pub record Subscription (T : Type 0) : Type 0 where
  pub buffer : ℕ
  pub collect_snapshot : Bool
  pub events : List (StreamEvent T)
  pub is_done : Bool
  pub error : Option Err
  pub cancel_cause : Option Err
  pub snapshot_closed : Bool
  pub snapshot_want : Bool
  pub snapshot_events : List T
  pub connection_seq : ℕ
  pub is_owned : Bool

-- A size that is not positive counts as one.
unfoldable pub buffer_size : ℤ → ℕ
buffer_size (pos n) = if n == 0 then 1 else n
buffer_size (negsuc n) = 1

-- The error of a close: a recorded cause replaces it, or joins it if it is a failed cancellation.
unfoldable pub terminal_error : Option Err → Option Err → Option Err
terminal_error none e = e
terminal_error (some c) none = some c
terminal_error (some c) (some e) =
    if any_node is_subscription_cancel e
    then some (joined (err_and c (err_and e no_errs)))
    else some c

abbrev pub slow : Option Err
slow = some (sentinel Sentinel.slow_consumer)

abbrev is_snapshot_complete : LifecycleKind → Bool
is_snapshot_complete snapshot_complete = true
is_snapshot_complete _ = false

module _ {T : Type 0} where
  unfoldable pub new_subscription : ℤ → Bool → Subscription T
  unfolding buffer_size
  new_subscription buffer collect = record {
    buffer = buffer_size buffer;
    collect_snapshot = collect;
    events = [];
    is_done = false;
    error = none;
    cancel_cause = none;
    snapshot_closed = false;
    snapshot_want = false;
    snapshot_events = [];
    connection_seq = 0;
    is_owned = true;
  }

  unfoldable pub record_cancel_cause : Option Err → Subscription T → Subscription T
  record_cancel_cause none s = s
  record_cancel_cause (some c) s = elim s.cancel_cause [
    | none ↦ record s { cancel_cause = some c }
    | some first ↦ s
  ]

  unfoldable pub close_with_err : Option Err → Subscription T → Subscription T
  unfolding terminal_error
  close_with_err e s =
      if s.is_done then s else record s { error = terminal_error s.cancel_cause e; is_done = true }

  -- The callback that newKeyedSubscriptionRoute installs; `admission` is the error of the cancellation
  -- request, if it could not be sent.
  unfoldable pub actor_cancel : Option Err → Subscription T → Subscription T
  actor_cancel admission s =
      if s.is_owned then close_with_err admission (record s { is_owned = false }) else s

  unfoldable pub cancel_from_actor : Option Err → Option Err → Subscription T → Subscription T
  cancel_from_actor admission cause s = actor_cancel admission (record_cancel_cause cause s)

  -- The send of an event, which cancels a stream whose queue is full.
  unfoldable pub send_event : Option Err → StreamEvent T → Subscription T → Subscription T × Bool
  unfolding cancel_from_actor
  send_event admission event s =
      if ltb (length s.events) s.buffer
      then (record s { events = s.events ++ (event ∷ []) }, true)
      else (cancel_from_actor admission slow s, false)

  unfoldable pub emit : Option Err → T → Subscription T → Subscription T × Bool
  unfolding send_event
  emit admission value s =
      if s.is_done
      then (s, false)
      else (if s.collect_snapshot
          then (
            if s.snapshot_closed
                then s
                else record s { snapshot_events = s.snapshot_events ++ (value ∷ []) },
            true,
          )
          else send_event admission (data_event value s.connection_seq) s)

  unfoldable pub note_state : LifecycleKind → ℕ → Subscription T → Subscription T
  note_state kind seq s =
      let s1 : Subscription T = if seq == 0 then s else record s { connection_seq = seq } in
      if is_snapshot_complete kind then record s1 { snapshot_closed = true } else s1

  unfoldable pub emit_state :
      Option Err → LifecycleKind → ℕ → Option Err → Subscription T → Subscription T
  unfolding note_state send_event
  emit_state admission kind seq e s =
      if s.is_done
      then s
      else (if s.collect_snapshot
          then note_state kind seq s
          else (send_event admission (lifecycle_event kind seq e) (note_state kind seq s)).0)

  unfoldable pub emit_notice : Option Err → ApiError → ℕ → Subscription T → Subscription T × Bool
  unfolding send_event
  emit_notice admission notice seq s =
      if s.is_done then (s, false) else send_event admission (notice_event notice seq) s

  unfoldable pub expect_snapshot : Subscription T → Subscription T
  expect_snapshot s = record s { snapshot_want = true }

  unfoldable pub take_snapshot_events : Subscription T → List T × Subscription T
  take_snapshot_events s = (s.snapshot_events, record s { snapshot_events = [] })

  -- AwaitSnapshot without the context: nothing while it blocks, else what it returns.
  unfoldable pub await_snapshot : Subscription T → Option (Option Err)
  await_snapshot s =
      if s.snapshot_closed
      then some none
      else (if not s.snapshot_want
          then some (some (sentinel Sentinel.no_snapshot))
          else (if s.is_done
              then elim s.error [
                | none ↦ some (some (sentinel Sentinel.interrupted))
                | some e ↦ some (some e)
              ]
              else none))

  unfoldable pub wait : Subscription T → Option (Option Err)
  wait s = if s.is_done then some s.error else none
