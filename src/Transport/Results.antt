-- ===== src/Transport/Results.antt =====
-- The runs of a connection.
use ibkr_go.Prelude.{
  false, Bool-cases, inl, inr, ◌⊎◌, ℕ, ◌+◌, ◌≤◌, ◌<◌, ◌≡◌, refl, sym, ap, ◌∙◌, Bool, true, Option,
  none, some, List, [], ◌∷◌, ◌++◌, append-nil, arith, ltb, ◌==◌, if_both, or_else_both, length,
  take, drop, Result, ok, err,
}
use ibkr_go.Wire.Fields.{Bytes, WireError}
use ibkr_go.Wire.Frame.{max_frame_size, encode_frame}
use ibkr_go.Transport.{
  SocketError, AdmitError, OutboundFrame, Writer, waiting, writing, returned, Conn, write_id_limit,
  new_conn, enqueue_frame, admit_encoded, admit, stop, finish_writer, take_frame, wake,
  writer_wakes, after_write, SocketAnswer, write_round, answer, socket_answers, no_progress,
}
use ibkr_go.Transport.Queue.{
  tracked_ids, writer_ids, frames_of, writer_bytes, result_ids, up_to, Inv, new_conn-Inv, stop-Inv,
  admitted_frame, Enqueued, unchanged-Inv, enqueue_frame-Inv,
}
use ibkr_go.Transport.Writing.{wake-Inv, answer-Inv}

-- What can happen to a connection: a send, a close, a failed read, and a step of the writer.
pub data Event : Type 0 where
  send : Bytes → Bool → Event
  close : Event
  read_fails : SocketError → Event
  writer_runs : Event
  socket_takes : SocketAnswer → Event

-- A connection with the frames that were admitted to it, one after the other.
pub record Run : Type 0 where
  pub conn : Conn
  pub admitted : Bytes

abbrev pub framed : Result WireError Bytes → Bytes
framed (ok frame) = frame
framed (err e) = []

abbrev pub note_send : Bytes → Run → Result AdmitError ℕ × Conn → Run
note_send payload r (answer_of, c) = record {
  conn = c;
  admitted = r.admitted ++ admitted_frame answer_of (framed (encode_frame payload));
}

unfoldable pub act : Event → Run → Run
act (send payload is_tracked) r = note_send payload r (admit payload is_tracked r.conn)
act close r = record r { conn = stop none r.conn }
act (read_fails e) r = record r { conn = stop (some e) r.conn }
act writer_runs r = record r { conn = writer_wakes r.conn }
act (socket_takes a) r = record r { conn = socket_answers a r.conn }

unfoldable pub act_all : List Event → Run → Run
unfolding act
act_all [] r = r
act_all (e ∷ es) r = act_all es (act e r)

abbrev pub started : Run
started = record { conn = new_conn; admitted = [] }

admit_encoded-Inv :
    {admitted : Bytes} {c : Conn} (frame : Result WireError Bytes) (is_tracked : Bool)
    → c.next_write_id + 1 < write_id_limit
    → Inv admitted c
    → Enqueued admitted (framed frame) (admit_encoded frame is_tracked c)
unfolding admit_encoded Enqueued
admit_encoded-Inv (ok frame) is_tracked small i = enqueue_frame-Inv frame is_tracked small i
admit_encoded-Inv (err e) is_tracked small i = unchanged-Inv i

admit-Inv :
    (payload : Bytes) (is_tracked : Bool) (r : Run)
    → r.conn.next_write_id + 1 < write_id_limit
    → Inv r.admitted r.conn
    → Inv (act (send payload is_tracked) r).admitted (act (send payload is_tracked) r).conn
unfolding act admit Enqueued
admit-Inv payload is_tracked r small i =
    let frame = encode_frame payload in
    let Admitted = Enqueued r.admitted (framed frame) in
    if_both Admitted (length payload == 0) (unchanged-Inv i) (
      if_both Admitted (ltb max_frame_size (length payload)) (unchanged-Inv i)
        (admit_encoded-Inv frame is_tracked small i))

act-Inv :
    (e : Event) (r : Run)
    → r.conn.next_write_id + 1 < write_id_limit
    → Inv r.admitted r.conn
    → Inv (act e r).admitted (act e r).conn
unfolding act writer_wakes socket_answers
act-Inv (send payload is_tracked) r small i = admit-Inv payload is_tracked r small i
act-Inv close r small i = stop-Inv none i
act-Inv (read_fails e) r small i = stop-Inv (some e) i
act-Inv writer_runs r small i = wake-Inv r.conn.writer refl i
act-Inv (socket_takes a) r small i = answer-Inv r.conn.writer a refl i

-- One event takes one tracked ID at most.
next_id-stop : (e : Option SocketError) (c : Conn) → (stop e c).next_write_id ≡ c.next_write_id
unfolding stop
next_id-stop e c = ground arith

next_id-enqueue :
    (frame : Bytes) (is_tracked : Bool) (c : Conn)
    → (enqueue_frame frame is_tracked c).1.next_write_id ≤ c.next_write_id + 1
unfolding enqueue_frame
next_id-enqueue frame is_tracked c = ground arith

next_id-encoded :
    (frame : Result WireError Bytes) (is_tracked : Bool) (c : Conn)
    → (admit_encoded frame is_tracked c).1.next_write_id ≤ c.next_write_id + 1
unfolding admit_encoded
next_id-encoded (ok frame) is_tracked c = next_id-enqueue frame is_tracked c
next_id-encoded (err e) is_tracked c = omega arith

next_id-admit :
    (payload : Bytes) (is_tracked : Bool) (c : Conn)
    → (admit payload is_tracked c).1.next_write_id ≤ c.next_write_id + 1
unfolding admit
next_id-admit payload is_tracked c =
    ground (arith, next_id-encoded (encode_frame payload) is_tracked c)

next_id-take :
    (items : List OutboundFrame) (c : Conn) → (take_frame items c).next_write_id ≡ c.next_write_id
next_id-take [] c = refl
next_id-take (item ∷ items) c = refl

next_id-wake : (w : Writer) (c : Conn) → (wake w c).next_write_id ≡ c.next_write_id
unfolding wake finish_writer
next_id-wake waiting c = ground (arith, next_id-take c.outgoing c)
next_id-wake (writing item rest) c = refl
next_id-wake returned c = refl

next_id-after :
    (item : OutboundFrame) (left : Bytes) (e : Option SocketError) (c : Conn)
    → (after_write item left e c).next_write_id ≡ c.next_write_id
unfolding after_write finish_writer
next_id-after item left none c = refl
next_id-after item left (some e) c = next_id-stop (some e) c

next_id-round :
    (item : OutboundFrame) (rest : Bytes) (a : SocketAnswer) (c : Conn)
    → (write_round item rest a c).next_write_id ≡ c.next_write_id
next_id-round item rest a c =
    let left = drop a.count rest in
    let c1 = record c { socket = c.socket ++ take a.count rest; writer = writing item left } in
    let Same = λ (k : Conn). k.next_write_id ≡ c.next_write_id in
    or_else_both Same a.error (λ e. next_id-after item left (some e) c1)
      (if_both Same (a.count == 0) (next_id-after item left (some no_progress) c1)
        (if_both Same (length left == 0) (next_id-after item left none c1) refl))

next_id-answer :
    (w : Writer) (a : SocketAnswer) (c : Conn) → (answer w a c).next_write_id ≡ c.next_write_id
unfolding answer
next_id-answer waiting a c = refl
next_id-answer (writing item rest) a c = next_id-round item rest a c
next_id-answer returned a c = refl

next_id-act : (e : Event) (r : Run) → (act e r).conn.next_write_id ≤ r.conn.next_write_id + 1
unfolding act writer_wakes socket_answers
next_id-act (send payload is_tracked) r = next_id-admit payload is_tracked r.conn
next_id-act close r = omega (arith, next_id-stop none r.conn)
next_id-act (read_fails e) r = omega (arith, next_id-stop (some e) r.conn)
next_id-act writer_runs r = omega (arith, next_id-wake r.conn.writer r.conn)
next_id-act (socket_takes a) r = omega (arith, next_id-answer r.conn.writer a r.conn)

pub act_all-Inv :
    (es : List Event) (r : Run)
    → r.conn.next_write_id + length es < write_id_limit
    → Inv r.admitted r.conn
    → Inv (act_all es r).admitted (act_all es r).conn
unfolding act_all
act_all-Inv [] r small i = i
act_all-Inv (e ∷ es) r small i =
    act_all-Inv es (act e r) (omega (arith, next_id-act e r, small))
      (act-Inv e r (omega (arith, small)) i)

pub all_out :
    {admitted : Bytes} (c : Conn)
    → Inv admitted c
    → c.is_done ≡ true
    → result_ids c.completed ≡ up_to c.next_write_id
all_out c i d =
    let (idle, drained) = i.done_empty d in
    sym (append-nil (result_ids c.completed))
    ∙ ap (λ q. result_ids c.completed ++ (writer_ids q ++ [])) (sym idle)
    ∙ ap (λ q. result_ids c.completed ++ (writer_ids c.writer ++ tracked_ids q)) (sym drained)
    ∙ i.once

-- Over every run of a connection with fewer than 2^64 events: what the socket took is a
-- beginning of the admitted frames in the order of their admission; the results that were
-- published, the frame being written and the queue have the tracked IDs 1, 2, ... in this order,
-- each once; and once the connection is done, every tracked ID has its one result.
pub act_all-results :
    (es : List Event)
    → length es < write_id_limit
    → let r = act_all es started in
      ((rest : Bytes) × (r.conn.socket ++ rest ≡ r.admitted))
      × (result_ids r.conn.completed ++ (writer_ids r.conn.writer ++ tracked_ids r.conn.outgoing)
          ≡ up_to r.conn.next_write_id)
      × ((r.conn.is_done ≡ false) ⊎ (result_ids r.conn.completed ≡ up_to r.conn.next_write_id))
unfolding new_conn
act_all-results es small =
    let r = act_all es started in
    let i = act_all-Inv es started (omega (arith, small)) new_conn-Inv in
    (
      (writer_bytes r.conn.writer ++ (frames_of r.conn.outgoing ++ i.lost), i.in_order),
      i.once,
      elim (Bool-cases r.conn.is_done) [ inl d ↦ inr (all_out r.conn i d) | inr o ↦ inl o ],
    )
