-- ===== src/Transport/Shutdown.antt =====
-- The end of a closed connection.
use ibkr_go.Prelude.{
  ℕ, suc, ◌+◌, ◌≤◌, ◌<◌, ◌≡◌, refl, ap, ◌∙◌, true, false, Option, none, some, List, [], ◌∷◌, ◌++◌,
  arith, ◌==◌, if_both, if_cases, or_else_both, length, take, drop, length-append, length-drop,
}
use ibkr_go.Wire.Fields.{Bytes}
use ibkr_go.Transport.{
  SocketError, OutboundFrame, Writer, waiting, writing, returned, Conn, write_id_limit, new_conn,
  stop, finish_writer, wake, writer_wakes, publish, after_write, SocketAnswer, write_round, answer,
  socket_answers, no_progress,
}
use ibkr_go.Transport.Queue.{Inv, new_conn-Inv, result_ids, up_to, stop-Inv}
use ibkr_go.Transport.Writing.{stop-is_closed}
use ibkr_go.Transport.Results.{
  Event, close, socket_takes, writer_runs, Run, act, act_all, started, act_all-Inv, all_out,
}

-- What a socket answers at most before the writer is back at its queue.
abbrev pub work : Writer → ℕ
work waiting = 0
work (writing item rest) = 1 + length rest
work returned = 0

abbrev pub answers_then_wake : List SocketAnswer → List Event
answers_then_wake [] = writer_runs ∷ []
answers_then_wake (a ∷ answers) = socket_takes a ∷ answers_then_wake answers

positive : {n : ℕ} → (n == 0) ≡ false → 0 < n
positive {n} h = ground (arith, h)

record Closing (n : ℕ) (c : Conn) : Type 0 where
  closed : c.is_closed ≡ true
  bounded : work c.writer ≤ n
  returned_done : c.writer ≡ returned → c.is_done ≡ true

finish_writer-Closing : (n : ℕ) (c : Conn) → c.is_closed ≡ true → Closing n (finish_writer c)
unfolding finish_writer
finish_writer-Closing n c h = record {
  closed = h;
  bounded = omega arith;
  returned_done = λ k. refl;
}

after_write-Closing :
    (n : ℕ) (item : OutboundFrame) (left : Bytes) (e : Option SocketError) (c : Conn)
    → c.is_closed ≡ true
    → Closing n (after_write item left e c)
unfolding after_write
after_write-Closing n item left none c h = record {
  closed = h;
  bounded = omega arith;
  returned_done = λ k. ground (arith, k);
}
after_write-Closing n item left (some e) c h =
    finish_writer-Closing n (publish item left (some e) (stop (some e) c))
      (stop-is_closed (some e) c)

write_round-Closing :
    (n : ℕ) (item : OutboundFrame) (rest : Bytes) (a : SocketAnswer) (c : Conn)
    → c.is_closed ≡ true
    → length rest ≤ n
    → Closing n (write_round item rest a c)
write_round-Closing n item rest a c h b =
    let left = drop a.count rest in
    let c1 = record c { socket = c.socket ++ take a.count rest; writer = writing item left } in
    or_else_both (Closing n) a.error (λ e. after_write-Closing n item left (some e) c1 h)
      (if_cases (Closing n) (a.count == 0)
        (λ z. after_write-Closing n item left (some no_progress) c1 h)
        (λ p.
          if_cases (Closing n) (length left == 0) (λ z. after_write-Closing n item left none c1 h)
            (λ q. record {
              closed = h;
              bounded = omega (arith, length-drop a.count rest, positive p, positive q, b);
              returned_done = λ k. ground (arith, k);
            })))

answer-Closing :
    (n : ℕ) (w : Writer) (a : SocketAnswer) (c : Conn)
    → c.writer ≡ w
    → Closing (suc n) c
    → Closing n (answer w a c)
unfolding answer
answer-Closing n waiting a c e i = record {
  closed = i.closed;
  bounded = omega (arith, ap work e);
  returned_done = i.returned_done;
}
answer-Closing n (writing item rest) a c e i =
    write_round-Closing n item rest a c i.closed (omega (arith, ap work e, i.bounded))
answer-Closing n returned a c e i = record {
  closed = i.closed;
  bounded = omega (arith, ap work e);
  returned_done = i.returned_done;
}

wake-is_done : (w : Writer) (c : Conn) → c.writer ≡ w → Closing 0 c → (wake w c).is_done ≡ true
unfolding wake finish_writer
wake-is_done waiting c e i =
    if_cases (λ (k : Conn). k.is_done ≡ true) c.is_closed (λ h. refl)
      (λ h. ground (arith, i.closed, h))
wake-is_done (writing item rest) c e i = ground (arith, i.bounded, ap work e)
wake-is_done returned c e i = i.returned_done e

Closing-done :
    (answers : List SocketAnswer) (r : Run)
    → Closing (length answers) r.conn
    → (act_all (answers_then_wake answers) r).conn.is_done ≡ true
unfolding act_all act writer_wakes socket_answers
Closing-done [] r i = wake-is_done r.conn.writer r.conn refl i
Closing-done (a ∷ answers) r i =
    Closing-done answers (act (socket_takes a) r)
      (answer-Closing (length answers) r.conn.writer a r.conn refl i)

act_all-append : (es ks : List Event) (r : Run) → act_all (es ++ ks) r ≡ act_all ks (act_all es r)
unfolding act_all
act_all-append [] ks r = refl
act_all-append (e ∷ es) ks r = act_all-append es ks (act e r)

stopped-Closing :
    {n : ℕ} {admitted : Bytes} {c : Conn}
    → work c.writer ≤ n
    → Inv admitted c
    → Closing n (stop none c)
unfolding stop
stopped-Closing {n} {admitted} {c} enough i = record {
  closed = stop-is_closed none c;
  bounded = if_both (λ (k : Conn). work k.writer ≤ n) c.is_closed enough enough;
  returned_done = (stop-Inv none i).returned_done;
}

-- After any events, closing the connection, as many answers of the socket as the frame being
-- written has bytes left and one more, and one step of the writer: the connection is done, and
-- every tracked ID has its one result. The events are fewer than 2^64 in all.
pub closed-done :
    (es : List Event) (answers : List SocketAnswer)
    → work (act_all es started).conn.writer ≤ length answers
    → length (es ++ (close ∷ answers_then_wake answers)) < write_id_limit
    → let c = (act_all (es ++ (close ∷ answers_then_wake answers)) started).conn in
      (c.is_done ≡ true) × (result_ids c.completed ≡ up_to c.next_write_id)
unfolding new_conn act act_all
closed-done es answers enough small =
    let before = act_all es started in
    let i =
      act_all-Inv es started
        (omega (arith, length-append es (close ∷ answers_then_wake answers), small)) new_conn-Inv in
    let all =
      act_all-Inv (es ++ (close ∷ answers_then_wake answers)) started (omega (arith, small))
        new_conn-Inv in
    let done =
      ap (λ (r : Run). r.conn.is_done)
        (act_all-append es (close ∷ answers_then_wake answers) started)
      ∙ Closing-done answers (act close before) (stopped-Closing enough i) in
    (done, all_out _ all done)
