-- ===== src/Transport.antt =====
-- internal/transport/transport.go: the outbound queue and its writer. The mutex makes the body of each
-- function one step; a Write of the socket is a step of its own, with the answer that it gives. The
-- pacing only delays the writer's step, and the consumer of results is taken to keep draining them.
pub mod Queue
pub mod Writing
pub mod Results
pub mod Shutdown
use ibkr_go.Prelude.{
  ℕ, zero, suc, ◌+◌, ◌-◌, ◌*◌, ◌/◌, ◌%◌, ◌^◌, ◌≤◌, ◌<◌, max, ℤ, pos, negsuc, ltz, is_negative,
  int_eq, int_eq-eq, String, string_append, ◌≡◌, refl, sym, ap, fun_ext, ◌∙◌, subst, ◌≢◌, ◌↔◌, ◌⊎◌,
  inl, inr, Bool, true, false, not, ◌&&◌, ◌||◌, Option, none, some, List, [], ◌∷◌, ◌++◌, map,
  append_assoc, append-nil, arith, ltb, leb, ◌==◌, if◌then◌else◌, ltb→lt, lt→ltb, le→ltb, ==_iff,
  Bool-cases, Option-cases, if_both, if_cases, or_else_both, Memᴰ, any-mem, all-mem, length, take,
  drop, length-append, take-append-drop, length-take, length-drop, take-append_left,
  drop-append_left, all, any, All, Result, ok, err, ◌>>◌, reject, is_space, trim_space, is_empty,
  is_blank, is_one_of, is_blank-is_empty, is_one_of-mem, str_eq, eq_iff,
}
use ibkr_go.Wire.Fields.{Bytes, WireError, empty_message, frame_too_large}
use ibkr_go.Wire.Frame.{max_frame_size, encode_frame}

pub data SocketError : Type 0 where
  net_closed : SocketError
  closed_pipe : SocketError
  no_progress : SocketError
  socket_failure : String → SocketError

pub data AdmitError : Type 0 where
  refused_payload : WireError → AdmitError
  transport_closed : AdmitError
  terminated : SocketError → AdmitError
  send_queue_full : AdmitError

-- An ID of zero is that of an ordinary send.
pub record OutboundFrame : Type 0 where
  pub id : ℕ
  pub frame : Bytes

pub data WriteOutcome : Type 0 where
  write_unwritten : WriteOutcome
  write_incomplete : WriteOutcome
  write_complete_local : WriteOutcome

pub record WriteResult : Type 0 where
  pub id : ℕ
  pub outcome : WriteOutcome
  pub error : Option SocketError

-- Where the goroutine of writeLoop stands: before the queue, inside writeAll with the bytes that are
-- left, or returned.
pub data Writer : Type 0 where
  waiting : Writer
  writing : OutboundFrame → Bytes → Writer
  returned : Writer

-- `socket` is what the connection has taken. `is_closed` is outgoingClosed, which stop alone sets,
-- together with closing `stopping`.
pub record Conn : Type 0 where
  pub outgoing : List OutboundFrame
  pub is_closed : Bool
  pub next_write_id : ℕ
  pub wait_err : Option SocketError
  pub writer : Writer
  pub socket : Bytes
  pub completed : List WriteResult
  pub is_done : Bool

-- A WriteID is a uint64.
abbrev pub write_id_limit : ℕ
write_id_limit = 2 ^ 64

abbrev pub outgoing_queue_cap : ℕ
outgoing_queue_cap = 256

unfoldable pub new_conn : Conn
new_conn = record {
  outgoing = [];
  is_closed = false;
  next_write_id = 0;
  wait_err = none;
  writer = waiting;
  socket = [];
  completed = [];
  is_done = false;
}

unfoldable pub terminal_error : Conn → AdmitError
terminal_error c = elim c.wait_err [ none ↦ transport_closed | some e ↦ terminated e ]

-- The part of admit under the mutex. A context that is not done is left out.
unfoldable pub enqueue_frame : Bytes → Bool → Conn → Result AdmitError ℕ × Conn
unfolding terminal_error
enqueue_frame frame tracked c =
    let next_id = (c.next_write_id + 1) % write_id_limit in
    let id = if tracked then next_id else 0 in
    let next = if tracked then next_id else c.next_write_id in
    if c.is_done
    then (err (terminal_error c), c)
    else (if c.is_closed
        then (err (terminal_error c), c)
        else (if leb outgoing_queue_cap (length c.outgoing) then (err send_queue_full, c) else (
          ok id,
          record c {
            outgoing = c.outgoing ++ (record { id = id; frame = frame } ∷ []);
            next_write_id = next;
          },
        )))

unfoldable pub admit_encoded : Result WireError Bytes → Bool → Conn → Result AdmitError ℕ × Conn
unfolding enqueue_frame
admit_encoded (err e) tracked c = (err (refused_payload e), c)
admit_encoded (ok frame) tracked c = enqueue_frame frame tracked c

unfoldable pub admit : Bytes → Bool → Conn → Result AdmitError ℕ × Conn
unfolding admit_encoded
admit payload tracked c =
    if length payload == 0
    then (err (refused_payload empty_message), c)
    else (if ltb max_frame_size (length payload)
        then (err (refused_payload frame_too_large), c)
        else admit_encoded (encode_frame payload) tracked c)

-- The error that stop keeps.
abbrev pub logged : Option SocketError → Option SocketError
logged none = none
logged (some net_closed) = none
logged (some closed_pipe) = none
logged (some e) = some e

unfoldable pub stop : Option SocketError → Conn → Conn
stop e c = if c.is_closed then c else record c {
  wait_err = elim (logged e) [ none ↦ c.wait_err | some k ↦ some k ];
  is_closed = true;
}

-- The results of frames that no byte was written of.
unfoldable pub unwritten_results : Option SocketError → List OutboundFrame → List WriteResult
unwritten_results e [] = []
unwritten_results e (item ∷ items) =
    if item.id == 0
    then unwritten_results e items
    else record { id = item.id; outcome = write_unwritten; error = e } ∷ unwritten_results e items

-- takeQueuedLocked, reportUnwritten and finishWriter.
unfoldable pub finish_writer : Conn → Conn
unfolding unwritten_results
finish_writer c = record c {
  outgoing = [];
  completed = c.completed ++ unwritten_results c.wait_err c.outgoing;
  writer = returned;
  is_done = true;
}

-- One round of the loop up to its call of writeAll; with an empty open queue the writer waits.
abbrev pub take_frame : List OutboundFrame → Conn → Conn
take_frame [] c = c
take_frame (item ∷ items) c = record c { outgoing = items; writer = writing item item.frame }

unfoldable pub wake : Writer → Conn → Conn
unfolding finish_writer
wake waiting c = if c.is_closed then finish_writer c else take_frame c.outgoing c
wake (writing item rest) c = c
wake returned c = c

unfoldable pub writer_wakes : Conn → Conn
unfolding wake
writer_wakes c = wake c.writer c

unfoldable pub outcome_of : OutboundFrame → Bytes → WriteOutcome
outcome_of item rest =
    if length rest == 0
    then write_complete_local
    else (if length rest == length item.frame then write_unwritten else write_incomplete)

-- The result of a tracked frame, and none of another.
abbrev pub result_of : OutboundFrame → Bytes → Option SocketError → List WriteResult
result_of item rest e =
    if item.id == 0
    then []
    else record { id = item.id; outcome = outcome_of item rest; error = e } ∷ []

abbrev pub publish : OutboundFrame → Bytes → Option SocketError → Conn → Conn
publish item rest e c = record c { completed = c.completed ++ result_of item rest e }

-- What follows the return of writeAll, with the bytes that it left.
unfoldable pub after_write : OutboundFrame → Bytes → Option SocketError → Conn → Conn
unfolding stop finish_writer outcome_of
after_write item rest none c = publish item rest none (record c { writer = waiting })
after_write item rest (some e) c = finish_writer (publish item rest (some e) (stop (some e) c))

-- An answer of the socket's Write: the bytes it took, which io.Writer bounds by the slice, and its error.
pub record SocketAnswer : Type 0 where
  pub count : ℕ
  pub error : Option SocketError

-- The body of the loop of writeAll.
abbrev pub write_round : OutboundFrame → Bytes → SocketAnswer → Conn → Conn
write_round item rest a c =
    let left = drop a.count rest in
    let c1 = record c { socket = c.socket ++ take a.count rest; writer = writing item left } in
    elim a.error [
      | some e ↦ after_write item left (some e) c1
      | none ↦
          if a.count == 0
          then after_write item left (some no_progress) c1
          else (if length left == 0 then after_write item left none c1 else c1)
    ]

unfoldable pub answer : Writer → SocketAnswer → Conn → Conn
unfolding after_write
answer waiting a c = c
answer (writing item rest) a c = write_round item rest a c
answer returned a c = c

unfoldable pub socket_answers : SocketAnswer → Conn → Conn
unfolding answer
socket_answers a c = answer c.writer a c
