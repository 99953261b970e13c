-- ===== src/Transport/Queue.antt =====
-- The invariant of a connection, and its preservation where frames are queued.
use ibkr_go.Prelude.{
  ℕ, zero, suc, ◌+◌, ◌%◌, ◌≤◌, ◌<◌, ◌≡◌, refl, sym, ap, ◌∙◌, subst, Bool, true, false, Option, List,
  [], ◌∷◌, ◌++◌, map, append_assoc, append-nil, arith, leb, ◌==◌, if◌then◌else◌, if_both, if_cases,
  length, length-append, Result, ok, err,
}
use ibkr_go.Wire.Fields.{Bytes}
use ibkr_go.Transport.{
  SocketError, AdmitError, OutboundFrame, WriteResult, Writer, waiting, writing, returned, Conn,
  outgoing_queue_cap, write_id_limit, new_conn, enqueue_frame, stop, unwritten_results,
}

abbrev pub tracked : OutboundFrame → List ℕ
tracked item = if item.id == 0 then [] else item.id ∷ []

abbrev pub tracked_ids : List OutboundFrame → List ℕ
tracked_ids [] = []
tracked_ids (item ∷ items) = tracked item ++ tracked_ids items

abbrev pub writer_ids : Writer → List ℕ
writer_ids waiting = []
writer_ids (writing item rest) = tracked item
writer_ids returned = []

abbrev pub frames_of : List OutboundFrame → Bytes
frames_of [] = []
frames_of (item ∷ items) = item.frame ++ frames_of items

abbrev pub writer_bytes : Writer → Bytes
writer_bytes waiting = []
writer_bytes (writing item rest) = rest
writer_bytes returned = []

abbrev pub result_ids : List WriteResult → List ℕ
result_ids rs = map (λ r. r.id) rs

-- 1, 2, ..., n
abbrev pub up_to : ℕ → List ℕ
up_to zero = []
up_to (suc n) = up_to n ++ (suc n ∷ [])

-- `admitted` is what was put on the queue, and `lost` what a stop took from it.
pub record Inv (admitted : Bytes) (c : Conn) : Type 0 where
  pub lost : Bytes
  pub in_order : c.socket ++ (writer_bytes c.writer ++ (frames_of c.outgoing ++ lost)) ≡ admitted
  pub once :
      result_ids c.completed ++ (writer_ids c.writer ++ tracked_ids c.outgoing)
      ≡ up_to c.next_write_id
  pub bounded : length c.outgoing ≤ outgoing_queue_cap
  pub nothing_lost : c.is_done ≡ false → lost ≡ []
  pub done_empty : c.is_done ≡ true → (c.writer ≡ returned) × (c.outgoing ≡ [])
  pub done_closed : c.is_done ≡ true → c.is_closed ≡ true
  pub returned_done : c.writer ≡ returned → c.is_done ≡ true

pub new_conn-Inv : Inv [] new_conn
unfolding new_conn
new_conn-Inv = record {
  lost = [];
  in_order = refl;
  once = refl;
  bounded = omega arith;
  nothing_lost = λ h. refl;
  done_empty = λ h. ground arith;
  done_closed = λ h. ground arith;
  returned_done = λ h. ground (arith, h);
}

frames_of-append :
    (xs : List OutboundFrame) (item : OutboundFrame)
    → frames_of (xs ++ (item ∷ [])) ≡ frames_of xs ++ item.frame
frames_of-append [] item = append-nil item.frame
frames_of-append (x ∷ xs) item =
    ap (λ l. x.frame ++ l) (frames_of-append xs item)
    ∙ sym (append_assoc x.frame (frames_of xs) item.frame)

tracked_ids-append :
    (xs : List OutboundFrame) (item : OutboundFrame)
    → tracked_ids (xs ++ (item ∷ [])) ≡ tracked_ids xs ++ tracked item
tracked_ids-append [] item = append-nil (tracked item)
tracked_ids-append (x ∷ xs) item =
    ap (λ l. tracked x ++ l) (tracked_ids-append xs item)
    ∙ sym (append_assoc (tracked x) (tracked_ids xs) (tracked item))

-- An item at the end of the queue is at the end of everything before it too.
append_last {ℓ} :
    {A : Type ℓ} (a b xs ys : List A) → a ++ (b ++ (xs ++ ys)) ≡ (a ++ (b ++ xs)) ++ ys
append_last a b xs ys =
    ap (λ l. a ++ l) (sym (append_assoc b xs ys)) ∙ sym (append_assoc a (b ++ xs) ys)

pub stop-Inv :
    {admitted : Bytes} {c : Conn} (e : Option SocketError)
    → Inv admitted c
    → Inv admitted (stop e c)
unfolding stop
stop-Inv {admitted} {c} e i = if_both (Inv admitted) c.is_closed i (record {
  lost = i.lost;
  in_order = i.in_order;
  once = i.once;
  bounded = i.bounded;
  nothing_lost = i.nothing_lost;
  done_empty = i.done_empty;
  done_closed = λ h. refl;
  returned_done = i.returned_done;
})

pub result_ids-unwritten :
    (e : Option SocketError) (items : List OutboundFrame)
    → result_ids (unwritten_results e items) ≡ tracked_ids items
unfolding unwritten_results
result_ids-unwritten e [] = refl
result_ids-unwritten e (item ∷ items) = ground (arith, result_ids-unwritten e items)

pub result_ids-append :
    (xs ys : List WriteResult) → result_ids (xs ++ ys) ≡ result_ids xs ++ result_ids ys
result_ids-append [] ys = refl
result_ids-append (x ∷ xs) ys = ap (◌∷◌ x.id) (result_ids-append xs ys)

-- The frame of a successful admission.
abbrev pub admitted_frame : Result AdmitError ℕ → Bytes → Bytes
admitted_frame (ok id) frame = frame
admitted_frame (err e) frame = []

unfoldable pub Enqueued : Bytes → Bytes → Result AdmitError ℕ × Conn → Type 0
Enqueued admitted frame (r, c) = Inv (admitted ++ admitted_frame r frame) c

pub unchanged-Inv : {admitted : Bytes} {c : Conn} → Inv admitted c → Inv (admitted ++ []) c
unchanged-Inv {admitted} {c} i = subst (λ l. Inv l c) (sym (append-nil admitted)) i

push-Inv :
    {admitted : Bytes} {c : Conn} (item : OutboundFrame) (next : ℕ)
    → Inv admitted c
    → c.is_done ≡ false
    → length c.outgoing < outgoing_queue_cap
    → up_to next ≡ up_to c.next_write_id ++ tracked item
    → Inv
        (admitted ++ item.frame)
        (record c { outgoing = c.outgoing ++ (item ∷ []); next_write_id = next })
push-Inv {admitted} {c} item next i open_now room ids = record {
  lost = [];
  in_order =
      ap (λ l. c.socket ++ (writer_bytes c.writer ++ l))
        (append-nil _ ∙ frames_of-append c.outgoing item)
      ∙ append_last c.socket (writer_bytes c.writer) (frames_of c.outgoing) item.frame
      ∙ ap (λ l. l ++ item.frame)
          (ap (λ l. c.socket ++ (writer_bytes c.writer ++ l))
              (sym (append-nil (frames_of c.outgoing))
                ∙ ap (λ l. frames_of c.outgoing ++ l) (sym (i.nothing_lost open_now)))
            ∙ i.in_order);
  once =
      ap (λ l. result_ids c.completed ++ (writer_ids c.writer ++ l))
        (tracked_ids-append c.outgoing item)
      ∙ append_last (result_ids c.completed) (writer_ids c.writer) (tracked_ids c.outgoing)
          (tracked item)
      ∙ ap (λ l. l ++ tracked item) i.once
      ∙ sym ids;
  bounded = omega (arith, length-append c.outgoing (item ∷ []));
  nothing_lost = λ h. refl;
  done_empty = λ h. ground arith;
  done_closed = λ h. ground arith;
  returned_done = i.returned_done;
}

up_to-next :
    (is_tracked : Bool) (n : ℕ) (frame : Bytes)
    → n + 1 < write_id_limit
    → up_to (if is_tracked then (n + 1) % write_id_limit else n)
      ≡ up_to n
        ++ tracked
            (record { id = if is_tracked then (n + 1) % write_id_limit else 0; frame = frame })
up_to-next true n frame small =
    let e : (n + 1) % write_id_limit ≡ suc n = omega (arith, small) in rw e (ground arith)
up_to-next false n frame small = sym (append-nil (up_to n))

pub enqueue_frame-Inv :
    {admitted : Bytes} {c : Conn} (frame : Bytes) (is_tracked : Bool)
    → c.next_write_id + 1 < write_id_limit
    → Inv admitted c
    → Enqueued admitted frame (enqueue_frame frame is_tracked c)
unfolding enqueue_frame Enqueued
enqueue_frame-Inv {admitted} {c} frame is_tracked small i =
    if_cases (Enqueued admitted frame) c.is_done (λ d. unchanged-Inv i)
      (λ open_now.
        if_cases (Enqueued admitted frame) c.is_closed (λ d. unchanged-Inv i)
          (λ live.
            if_cases (Enqueued admitted frame) (leb outgoing_queue_cap (length c.outgoing))
              (λ full. unchanged-Inv i)
              (λ room.
                push-Inv _ _ i open_now (ground arith)
                  (up_to-next is_tracked c.next_write_id frame small))))
