-- ===== src/Tests/HandleTests.antt =====
-- An order handle that overflows.
use ibkr_go.Prelude.{ℕ, ◌≤◌, pos, ◌≡◌, refl, true, false, none, some, List, [], ◌∷◌, ◌++◌, length}
use ibkr_go.Errors.Tree.{Sentinel, sentinel}
use ibkr_go.Streams.OrderHandle.{new_order_handle, emit_event, receive, wait, close_with_err}
use ibkr_go.Streams.OrderHandle.Laws.{
  Action, Run, emit, close, read, start, act, act_all, note_read, note_emit, emitted,
  act_all-lossless, act_all-is_done,
}

-- Room for two events: the fourth is refused.
abbrev four_events : List (Action ℕ)
four_events = emit 1 ∷ emit 2 ∷ read ∷ emit 3 ∷ emit 4 ∷ read ∷ []

act_all-lossless_example :
    let r = act_all four_events (start (pos 7) 2) in
    ((r.received ++ r.handle.events) ++ r.refused ≡ emitted four_events)
    × (length r.handle.events ≤ r.handle.capacity)
    × (r.handle.is_done ≡ false → r.refused ≡ [])
act_all-lossless_example = act_all-lossless (pos 7) 2 four_events

fourth_is_refused : (act_all four_events (start (pos 7) 2)).refused ≡ 4 ∷ []
unfolding act_all act note_read note_emit emit_event receive new_order_handle close_with_err
fourth_is_refused = refl

abbrev slow_run : Run ℕ
slow_run = record {
  handle = record {
    order_id = pos 7;
    capacity = 2;
    events = 3 ∷ [];
    is_done = true;
    acknowledged = false;
    error = some (sentinel Sentinel.slow_consumer);
  };
  received = 1 ∷ 2 ∷ [];
  refused = 4 ∷ [];
}

act_all-is_done_example :
    wait (act_all (close none ∷ emit 5 ∷ []) slow_run).handle
    ≡ some (some (sentinel Sentinel.slow_consumer))
act_all-is_done_example = act_all-is_done (close none ∷ emit 5 ∷ []) slow_run refl
