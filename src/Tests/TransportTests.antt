-- ===== src/Tests/TransportTests.antt =====
-- A connection with two tracked sends, of which the second is given up.
use ibkr_go.Prelude.{◌⊎◌, ℕ, ◌≤◌, ◌≡◌, refl, true, false, none, List, [], ◌∷◌, ◌++◌, length, arith}
use ibkr_go.Transport.{
  new_conn, SocketAnswer, write_complete_local, write_unwritten, enqueue_frame, admit_encoded,
  admit, stop, unwritten_results, finish_writer, wake, writer_wakes, outcome_of, after_write,
  answer, socket_answers,
}
use ibkr_go.Wire.Frame.{encode_frame, put_uint32}
use ibkr_go.Transport.Queue.{tracked_ids, writer_ids, result_ids, up_to}
use ibkr_go.Transport.Results.{
  Event, send, close, writer_runs, socket_takes, act, act_all, started, act_all-results,
}
use ibkr_go.Transport.Shutdown.{work, answers_then_wake, closed-done}

abbrev takes : ℕ → SocketAnswer
takes n = record { count = n; error = none }

-- The first frame has six bytes, of which three are taken; the second waits.
abbrev two_sends : List Event
two_sends =
    send (7 ∷ 8 ∷ []) true
    ∷ send (9 ∷ []) true
    ∷ send (5 ∷ []) false
    ∷ writer_runs
    ∷ socket_takes (takes 3)
    ∷ []

act_all-results_example :
    let r = act_all two_sends started in
    ((rest : List ℕ) × (r.conn.socket ++ rest ≡ r.admitted))
    × (result_ids r.conn.completed ++ (writer_ids r.conn.writer ++ tracked_ids r.conn.outgoing)
        ≡ up_to r.conn.next_write_id)
    × ((r.conn.is_done ≡ false) ⊎ (result_ids r.conn.completed ≡ up_to r.conn.next_write_id))
act_all-results_example = act_all-results two_sends (omega arith)

half_written : (act_all two_sends started).conn.socket ≡ 0 ∷ 0 ∷ 0 ∷ []
unfolding act_all act admit admit_encoded enqueue_frame encode_frame put_uint32 new_conn
    writer_wakes wake socket_answers answer after_write
half_written = refl

abbrev three_left : List SocketAnswer
three_left = takes 1 ∷ takes 1 ∷ takes 1 ∷ takes 0 ∷ []

three_are_enough : work (act_all two_sends started).conn.writer ≤ length three_left
unfolding act_all act admit admit_encoded enqueue_frame encode_frame put_uint32 new_conn
    writer_wakes wake socket_answers answer after_write
three_are_enough = omega arith

closed-done_example :
    let c = (act_all (two_sends ++ (close ∷ answers_then_wake three_left)) started).conn in
    (c.is_done ≡ true) × (result_ids c.completed ≡ up_to c.next_write_id)
closed-done_example = closed-done two_sends three_left three_are_enough (omega arith)

-- The frame that was being written is complete, and the other tracked one unwritten.
outcomes :
    (act_all (two_sends ++ (close ∷ answers_then_wake three_left)) started).conn.completed
    ≡ record { id = 1; outcome = write_complete_local; error = none }
      ∷ record { id = 2; outcome = write_unwritten; error = none }
      ∷ []
unfolding act_all act admit admit_encoded enqueue_frame encode_frame put_uint32 new_conn
    writer_wakes wake socket_answers answer after_write stop finish_writer unwritten_results
    outcome_of
outcomes = refl
