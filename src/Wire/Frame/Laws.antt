-- ===== src/Wire/Frame/Laws.antt =====
-- What a frame promises: round trips on any stream, and complete writes.
use ibkr_go.Prelude.{
  sym, All, length-take, ℕ, ◌%◌, ◌^◌, ◌≤◌, ◌<◌, ℤ, pos, ◌≡◌, refl, ◌≢◌, ◌∙◌, List, [], ◌∷◌, ◌++◌,
  ◌==◌, ltb, append_assoc, ok, none, length, take, drop, arith, length-append, take-append_left,
  drop-append_left, take-append-drop, length-drop, ap, if_both, or_else_both,
}
use ibkr_go.Wire.Fields.{Bytes}
use ibkr_go.Wire.Frame.{
  max_frame_size, put_uint32, uint32, read_full, read_payload, after_header, read_frame_with_limit,
  read_frame, encode_frame, WriteAnswer, WriteStatus, returned, pending, write_loop, write_encoded,
  write_frame,
}

pub uint32-put_uint32 : (n : ℕ) → n < 2 ^ 32 → uint32 (put_uint32 n) ≡ n
unfolding uint32 put_uint32
uint32-put_uint32 n h = omega arith

read_full-append : (xs ys : Bytes) → read_full (length xs) (xs ++ ys) ≡ (ok xs, ys)
unfolding read_full
read_full-append xs ys =
    ground (arith, length-append xs ys, take-append_left xs ys, drop-append_left xs ys)

read_header-append :
    (n : ℕ) (ys : Bytes) → read_full 4 (put_uint32 n ++ ys) ≡ (ok (put_uint32 n), ys)
unfolding put_uint32
read_header-append n ys = read_full-append (put_uint32 n) ys

-- The header decides: what follows it is read as a payload of the size it states.
read_frame_with_limit-header :
    (n : ℕ) (r : Bytes) (limit : ℤ)
    → n < 2 ^ 32
    → read_frame_with_limit (put_uint32 n ++ r) limit ≡ read_payload limit n r
unfolding read_frame_with_limit
read_frame_with_limit-header n r limit h =
    rw (read_header-append n r, after_header, uint32-put_uint32 n h) refl

read_payload-append :
    (m : ℕ) (payload rest : Bytes)
    → 0 < length payload
    → length payload ≤ m
    → read_payload (pos m) (length payload) (payload ++ rest) ≡ (ok payload, rest)
unfolding read_payload
read_payload-append m payload rest h k = ground (arith, read_full-append payload rest)

encode_frame-eq-ok :
    (payload : Bytes) {frame : Bytes}
    → encode_frame payload ≡ ok frame
    → (0 < length payload)
      × (length payload ≤ max_frame_size)
      × (frame ≡ put_uint32 (length payload) ++ payload)
unfolding encode_frame
encode_frame-eq-ok payload h =
    let small : length payload ≤ max_frame_size → length payload % 2 ^ 32 ≡ length payload =
      λ k. omega arith in
    ground (arith, small)

-- Reading any stream that begins with an encoded frame gives the payload and leaves the rest.
pub read_frame-encode_frame :
    (payload rest : Bytes) {frame : Bytes}
    → encode_frame payload ≡ ok frame
    → read_frame (frame ++ rest) ≡ (ok payload, rest)
unfolding read_frame
read_frame-encode_frame payload rest {frame} h =
    let (some_bytes, fits, e) = encode_frame-eq-ok payload h in
    rw (e, append_assoc (put_uint32 (length payload)) payload rest)
      (read_frame_with_limit-header (length payload) (payload ++ rest) (pos max_frame_size)
          (omega arith)
        ∙ read_payload-append max_frame_size payload rest some_bytes fits)

abbrev pub AreBytes : Bytes → Type 0
AreBytes bs = All (λ b. b < 256) bs

put_uint32-uint32 :
    (a b c d : ℕ)
    → AreBytes (a ∷ b ∷ c ∷ d ∷ [])
    → put_uint32 (uint32 (a ∷ b ∷ c ∷ d ∷ [])) ≡ a ∷ b ∷ c ∷ d ∷ []
unfolding uint32 put_uint32
put_uint32-uint32 a b c d h = ground (arith, h)

read_payload-eq-ok :
    (m n : ℕ) (body : Bytes) {payload rest : Bytes}
    → read_payload (pos m) n body ≡ (ok payload, rest)
    → (0 < n) × (n ≤ m) × (length payload ≡ n) × (payload ++ rest ≡ body)
unfolding read_payload read_full
read_payload-eq-ok m n body h = ground (arith, h, length-take n body, take-append-drop n body)

encode_frame-payload :
    (payload : Bytes)
    → 0 < length payload
    → length payload ≤ max_frame_size
    → encode_frame payload ≡ ok (put_uint32 (length payload) ++ payload)
unfolding encode_frame
encode_frame-payload payload h k =
    let small : length payload % 2 ^ 32 ≡ length payload = omega arith in ground (arith, small)

-- Whatever payload ReadFrame returns of a stream of bytes, the payload can be encoded, and its
-- frame with the rest that is left is the stream: only encoded frames are read, and nothing is
-- lost or read twice.
pub encode_frame-read_frame :
    (stream : Bytes) {payload rest : Bytes}
    → AreBytes stream
    → read_frame stream ≡ (ok payload, rest)
    → (frame : Bytes) × (encode_frame payload ≡ ok frame) × (frame ++ rest ≡ stream)
unfolding read_frame read_frame_with_limit read_full after_header
encode_frame-read_frame [] h e = ground (arith, e)
encode_frame-read_frame (a ∷ []) h e = ground (arith, e)
encode_frame-read_frame (a ∷ b ∷ []) h e = ground (arith, e)
encode_frame-read_frame (a ∷ b ∷ c ∷ []) h e = ground (arith, e)
encode_frame-read_frame (a ∷ b ∷ c ∷ d ∷ body) {payload} {rest} h e =
    let header : Bytes = a ∷ b ∷ c ∷ d ∷ [] in
    let whole = sym (ap (after_header (pos max_frame_size)) (read_full-append header body)) ∙ e in
    let read = read_payload-eq-ok max_frame_size (uint32 header) body whole in
    let size : put_uint32 (length payload) ≡ header =
      ap put_uint32 read.2 ∙ put_uint32-uint32 a b c d (h.0, (h.1.0, (h.1.1.0, (h.1.1.1.0, tt)))) in
    (
      put_uint32 (length payload) ++ payload,
      encode_frame-payload payload (omega (arith, read.0, read.2)) (omega (arith, read.1, read.2)),
      rw size (ap (λ (t : Bytes). a ∷ b ∷ c ∷ d ∷ t) read.3),
    )

-- What the writer has taken is the beginning of `whole`, and all of it after a return without error.
abbrev pub Begins : Bytes → WriteStatus × Bytes → Type 0
Begins whole r = (rest : Bytes) × (r.1 ++ rest ≡ whole) × (r.0 ≡ returned none → rest ≡ [])

write_loop-Begins :
    (frame : Bytes) (answers : List WriteAnswer) (written : Bytes)
    → Begins (written ++ frame) (write_loop frame answers written)
unfolding write_loop
write_loop-Begins [] answers written = ([], refl, λ _. refl)
write_loop-Begins (b ∷ bs) [] written = (b ∷ bs, refl, λ h. cc)
write_loop-Begins (b ∷ bs) (a ∷ answers) written =
    let frame : Bytes = b ∷ bs in
    let cut : (written ++ take a.count frame) ++ drop a.count frame ≡ written ++ frame =
      append_assoc written (take a.count frame) (drop a.count frame)
      ∙ ap (◌++◌ written) (take-append-drop a.count frame) in
    let (rest, eq, done) =
      write_loop-Begins (drop a.count frame) answers (written ++ take a.count frame) in
    if_both (Begins (written ++ frame)) (ltb (length frame) a.count)
      (drop a.count frame, cut, λ h. cc)
      (or_else_both (Begins (written ++ frame)) a.error (λ e. (drop a.count frame, cut, λ h. cc))
        (if_both (Begins (written ++ frame)) (a.count == 0) (drop a.count frame, cut, λ h. cc)
          (rest, eq ∙ cut, done)))

-- Each Write takes a byte or ends the loop, so as many calls as there are bytes suffice.
write_loop_ends :
    (frame : Bytes) (answers : List WriteAnswer) (written : Bytes)
    → length frame ≤ length answers
    → (write_loop frame answers written).0 ≢ pending
unfolding write_loop
write_loop_ends [] answers written h e = cc
write_loop_ends (b ∷ bs) [] written h e = omega arith
write_loop_ends (b ∷ bs) (a ∷ answers) written h e = ground (
  arith,
  write_loop_ends (drop a.count (b ∷ bs)) answers (written ++ take a.count (b ∷ bs)),
  length-drop a.count (b ∷ bs),
)

-- However the writer splits a frame, what it has taken at any time is the beginning of the
-- frame, and WriteFrame returns without error only after the whole frame was taken; with as many
-- Write calls as the frame has bytes it has returned (or panicked on a count above the slice).
pub write_frame_complete :
    (payload : Bytes) (answers : List WriteAnswer) {frame : Bytes}
    → encode_frame payload ≡ ok frame
    → Begins frame (write_frame payload answers)
      × (length frame ≤ length answers → (write_frame payload answers).0 ≢ pending)
unfolding write_frame
write_frame_complete payload answers {frame} h =
    rw (h, write_encoded) (write_loop-Begins frame answers [], write_loop_ends frame answers [])
