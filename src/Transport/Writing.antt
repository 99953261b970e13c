-- ===== src/Transport/Writing.antt =====
-- The invariant of a connection through the steps of its writer.
use ibkr_go.Prelude.{
  ℕ, ◌≤◌, ◌≡◌, refl, sym, ap, ◌∙◌, inl, inr, true, false, Option, none, some, List, [], ◌∷◌, ◌++◌,
  append_assoc, append-nil, arith, ◌==◌, Bool-cases, if_both, if_cases, or_else_both, length, take,
  drop, take-append-drop,
}
use ibkr_go.Wire.Fields.{Bytes}
use ibkr_go.Transport.{
  SocketError, OutboundFrame, Writer, waiting, writing, returned, Conn, outgoing_queue_cap, stop,
  unwritten_results, finish_writer, take_frame, wake, result_of, publish, after_write, SocketAnswer,
  write_round, answer, no_progress,
}
use ibkr_go.Transport.Queue.{
  tracked, tracked_ids, writer_ids, frames_of, writer_bytes, result_ids, up_to, Inv,
  result_ids-unwritten, result_ids-append,
}

-- The queue is given up once the result of the frame that was being written is out.
finish_writer-Inv :
    {admitted : Bytes} (c : Conn) (lost left : Bytes)
    → c.is_closed ≡ true
    → c.socket ++ (left ++ (frames_of c.outgoing ++ lost)) ≡ admitted
    → result_ids c.completed ++ tracked_ids c.outgoing ≡ up_to c.next_write_id
    → Inv admitted (finish_writer c)
unfolding finish_writer
finish_writer-Inv {admitted} c lost left closed_now in_order once = record {
  lost = left ++ (frames_of c.outgoing ++ lost);
  in_order = in_order;
  once =
      append-nil (result_ids (c.completed ++ unwritten_results c.wait_err c.outgoing))
      ∙ result_ids-append c.completed (unwritten_results c.wait_err c.outgoing)
      ∙ ap (λ l. result_ids c.completed ++ l) (result_ids-unwritten c.wait_err c.outgoing)
      ∙ once;
  bounded = omega arith;
  nothing_lost = λ h. ground arith;
  done_empty = λ h. (refl, refl);
  done_closed = λ h. closed_now;
  returned_done = λ h. refl;
}

take_frame-Inv :
    {admitted : Bytes} {c : Conn} (items : List OutboundFrame)
    → Inv admitted c
    → c.writer ≡ waiting
    → c.is_done ≡ false
    → c.outgoing ≡ items
    → Inv admitted (take_frame items c)
take_frame-Inv [] i idle open_now e = i
take_frame-Inv {admitted} {c} (item ∷ items) i idle open_now e =
    let in_order =
      ap (λ q. c.socket ++ (writer_bytes q ++ (frames_of c.outgoing ++ i.lost))) (sym idle)
      ∙ i.in_order in
    let once =
      ap (λ q. result_ids c.completed ++ (writer_ids q ++ tracked_ids c.outgoing)) (sym idle)
      ∙ i.once in
    record {
      lost = i.lost;
      in_order =
          ap (λ l. c.socket ++ l) (sym (append_assoc item.frame (frames_of items) i.lost))
          ∙ ap (λ q. c.socket ++ (frames_of q ++ i.lost)) (sym e)
          ∙ in_order;
      once = ap (λ q. result_ids c.completed ++ tracked_ids q) (sym e) ∙ once;
      bounded = omega (arith, i.bounded, ap length e);
      nothing_lost = i.nothing_lost;
      done_empty = λ h. ground (arith, open_now, h);
      done_closed = i.done_closed;
      returned_done = λ h. ground (arith, h);
    }

pub wake-Inv :
    {admitted : Bytes} {c : Conn} (w : Writer)
    → c.writer ≡ w
    → Inv admitted c
    → Inv admitted (wake w c)
unfolding wake
wake-Inv {admitted} {c} waiting e i =
    if_cases (Inv admitted) c.is_closed
      (λ closed_now. finish_writer-Inv c i.lost (writer_bytes c.writer) closed_now i.in_order (
        ap (λ q. result_ids c.completed ++ (writer_ids q ++ tracked_ids c.outgoing)) (sym e)
        ∙ i.once))
      (λ live. take_frame-Inv c.outgoing i e (ground (arith, i.done_closed)) refl)
wake-Inv (writing item rest) e i = i
wake-Inv returned e i = i

result_ids-result_of :
    (item : OutboundFrame) (rest : Bytes) (e : Option SocketError)
    → result_ids (result_of item rest e) ≡ tracked item
result_ids-result_of item rest e = ground arith

publish-once :
    (c : Conn) (item : OutboundFrame) (left : Bytes) (e : Option SocketError)
    → result_ids c.completed ++ (tracked item ++ tracked_ids c.outgoing) ≡ up_to c.next_write_id
    → result_ids (publish item left e c).completed ++ tracked_ids c.outgoing ≡ up_to c.next_write_id
publish-once c item left e once =
    ap (λ l. l ++ tracked_ids c.outgoing)
      (result_ids-append c.completed (result_of item left e)
        ∙ ap (λ l. result_ids c.completed ++ l) (result_ids-result_of item left e))
    ∙ append_assoc (result_ids c.completed) (tracked item) (tracked_ids c.outgoing)
    ∙ once

-- What holds while a frame is written, with the bytes that are left of it.
record InWrite (admitted : Bytes) (item : OutboundFrame) (left : Bytes) (c : Conn) : Type 0 where
  lost : Bytes
  in_order : c.socket ++ (left ++ (frames_of c.outgoing ++ lost)) ≡ admitted
  once : result_ids c.completed ++ (tracked item ++ tracked_ids c.outgoing) ≡ up_to c.next_write_id
  bounded : length c.outgoing ≤ outgoing_queue_cap
  nothing_lost : c.is_done ≡ false → lost ≡ []
  not_done : c.is_done ≡ false

after_write_ok-Inv :
    {admitted : Bytes} (item : OutboundFrame) (left : Bytes) (c : Conn)
    → (length left == 0) ≡ true
    → InWrite admitted item left c
    → Inv admitted (after_write item left none c)
unfolding after_write
after_write_ok-Inv item (b ∷ bs) c h i = ground arith
after_write_ok-Inv item [] c h i = record {
  lost = i.lost;
  in_order = i.in_order;
  once = publish-once c item [] none i.once;
  bounded = i.bounded;
  nothing_lost = i.nothing_lost;
  done_empty = λ h. ground (arith, i.not_done, h);
  done_closed = λ h. ground (arith, i.not_done, h);
  returned_done = λ h. ground (arith, h);
}

stop-InWrite :
    {admitted : Bytes} {item : OutboundFrame} {left : Bytes} {c : Conn} (e : Option SocketError)
    → InWrite admitted item left c
    → InWrite admitted item left (stop e c)
unfolding stop
stop-InWrite {admitted} {item} {left} {c} e i =
    if_both (InWrite admitted item left) c.is_closed i (record {
      lost = i.lost;
      in_order = i.in_order;
      once = i.once;
      bounded = i.bounded;
      nothing_lost = i.nothing_lost;
      not_done = i.not_done;
    })

pub stop-is_closed : (e : Option SocketError) (c : Conn) → (stop e c).is_closed ≡ true
unfolding stop
stop-is_closed e c = if_cases (λ (k : Conn). k.is_closed ≡ true) c.is_closed (λ h. h) (λ h. refl)

after_write_failed-Inv :
    {admitted : Bytes} (item : OutboundFrame) (left : Bytes) (e : SocketError) (c : Conn)
    → InWrite admitted item left c
    → Inv admitted (after_write item left (some e) c)
unfolding after_write
after_write_failed-Inv item left e c i =
    let k = stop-InWrite (some e) i in
    finish_writer-Inv (publish item left (some e) (stop (some e) c)) k.lost left
      (stop-is_closed (some e) c) k.in_order
      (publish-once (stop (some e) c) item left (some e) k.once)

-- The socket takes the first bytes of what is left.
took-InWrite :
    {admitted : Bytes} {c : Conn} (item : OutboundFrame) (rest : Bytes) (n : ℕ)
    → c.writer ≡ writing item rest
    → Inv admitted c
    → InWrite admitted item
        (drop n rest)
        (record c { socket = c.socket ++ take n rest; writer = writing item (drop n rest) })
took-InWrite {admitted} {c} item rest n e i = record {
  lost = i.lost;
  in_order =
      append_assoc c.socket (take n rest) (drop n rest ++ (frames_of c.outgoing ++ i.lost))
      ∙ ap (λ l. c.socket ++ l)
          (sym (append_assoc (take n rest) (drop n rest) (frames_of c.outgoing ++ i.lost))
            ∙ ap (λ l. l ++ (frames_of c.outgoing ++ i.lost)) (take-append-drop n rest))
      ∙ ap (λ q. c.socket ++ (writer_bytes q ++ (frames_of c.outgoing ++ i.lost))) (sym e)
      ∙ i.in_order;
  once =
      ap (λ q. result_ids c.completed ++ (writer_ids q ++ tracked_ids c.outgoing)) (sym e) ∙ i.once;
  bounded = i.bounded;
  nothing_lost = i.nothing_lost;
  not_done = elim (Bool-cases c.is_done) [ inl d ↦ ground (arith, i.done_empty d) | inr o ↦ o ];
}

still_writing-Inv :
    {admitted : Bytes} {c : Conn} (item : OutboundFrame) (left : Bytes)
    → c.writer ≡ writing item left
    → InWrite admitted item left c
    → Inv admitted c
still_writing-Inv {admitted} {c} item left e i = record {
  lost = i.lost;
  in_order =
      ap (λ q. c.socket ++ (writer_bytes q ++ (frames_of c.outgoing ++ i.lost))) e ∙ i.in_order;
  once = ap (λ q. result_ids c.completed ++ (writer_ids q ++ tracked_ids c.outgoing)) e ∙ i.once;
  bounded = i.bounded;
  nothing_lost = i.nothing_lost;
  done_empty = λ h. ground (arith, i.not_done, h);
  done_closed = λ h. ground (arith, i.not_done, h);
  returned_done = λ h. ground (arith, e, h);
}

write_round-Inv :
    {admitted : Bytes} {c : Conn} (item : OutboundFrame) (rest : Bytes) (a : SocketAnswer)
    → c.writer ≡ writing item rest
    → Inv admitted c
    → Inv admitted (write_round item rest a c)
write_round-Inv {admitted} {c} item rest a e i =
    let took = took-InWrite item rest a.count e i in
    or_else_both (Inv admitted) a.error
      (λ k. after_write_failed-Inv item (drop a.count rest) k _ took)
      (if_both (Inv admitted) (a.count == 0)
        (after_write_failed-Inv item (drop a.count rest) no_progress _ took)
        (if_cases (Inv admitted) (length (drop a.count rest) == 0)
          (λ h. after_write_ok-Inv item (drop a.count rest) _ h took)
          (λ h. still_writing-Inv item (drop a.count rest) refl took)))

pub answer-Inv :
    {admitted : Bytes} {c : Conn} (w : Writer) (a : SocketAnswer)
    → c.writer ≡ w
    → Inv admitted c
    → Inv admitted (answer w a c)
unfolding answer
answer-Inv waiting a e i = i
answer-Inv (writing item rest) a e i = write_round-Inv item rest a e i
answer-Inv returned a e i = i
