-- ===== src/Wire/Frame.antt =====
-- internal/wire/frame.go: length-prefixed frames. A reader is the list of bytes that it still
-- holds, and a call that reads returns what is left; a writer is the list of its answers.
pub mod Laws
use ibkr_go.Prelude.{
  ℕ, suc, ◌*◌, ◌+◌, ◌/◌, ◌%◌, ◌^◌, ℤ, pos, ltz, Bool, ◌||◌, List, [], ◌∷◌, ◌++◌, ◌==◌, ltb, leb,
  if◌then◌else◌, Result, ok, err, Option, none, some, length, take, drop,
}
use ibkr_go.Wire.Fields.{
  Bytes, WireError, empty_message, frame_too_large, eof, unexpected_eof, no_progress,
  frame_too_large_error,
}

-- 64 << 20
abbrev pub max_frame_size : ℕ
max_frame_size = 67108864

-- binary.BigEndian.PutUint32
unfoldable pub put_uint32 : ℕ → Bytes
put_uint32 n = (n / 2 ^ 24 % 256) ∷ (n / 2 ^ 16 % 256) ∷ (n / 2 ^ 8 % 256) ∷ (n % 256) ∷ []

-- binary.BigEndian.Uint32 of the four bytes of a header
unfoldable pub uint32 : Bytes → ℕ
uint32 (a ∷ b ∷ c ∷ d ∷ r) = a * 2 ^ 24 + b * 2 ^ 16 + c * 2 ^ 8 + d
uint32 _ = 0

-- io.ReadFull of n bytes: end of file if none were there, an unexpected end if too few were.
unfoldable pub read_full : ℕ → Bytes → Result WireError Bytes × Bytes
read_full n r =
    if leb n (length r)
    then (ok (take n r), drop n r)
    else (err (if length r == 0 then eof else unexpected_eof), [])

read_payload : ℤ → ℕ → Bytes → Result WireError Bytes × Bytes
read_payload limit size r =
    if size == 0
    then (err empty_message, r)
    else (if ltz limit (pos 1) || ltz limit (pos size)
        then (err (frame_too_large_error size limit), r)
        else read_full size r)

after_header : ℤ → Result WireError Bytes × Bytes → Result WireError Bytes × Bytes
unfolding read_payload
after_header limit (ok header, r) = read_payload limit (uint32 header) r
after_header limit (err e, r) = (err e, r)

unfoldable pub read_frame_with_limit : Bytes → ℤ → Result WireError Bytes × Bytes
unfolding after_header
read_frame_with_limit r limit = after_header limit (read_full 4 r)

unfoldable pub read_frame : Bytes → Result WireError Bytes × Bytes
unfolding read_frame_with_limit
read_frame r = read_frame_with_limit r (pos max_frame_size)

unfoldable pub encode_frame : Bytes → Result WireError Bytes
encode_frame payload =
    if length payload == 0
    then err empty_message
    else (if ltb max_frame_size (length payload)
        then err frame_too_large
        else ok (put_uint32 (length payload % 2 ^ 32) ++ payload))

-- One answer of io.Writer.Write: the bytes it took, and its error.
pub record WriteAnswer : Type 0 where
  pub count : ℕ
  pub error : Option WireError

-- How WriteFrame stands: returned, panicked on a count above the slice, or inside the next Write.
pub data WriteStatus : Type 0 where
  returned : Option WireError → WriteStatus
  panicked pending : WriteStatus

-- The loop of WriteFrame. `written` is what the writer has taken so far.
unfoldable pub write_loop : Bytes → List WriteAnswer → Bytes → WriteStatus × Bytes
write_loop [] answers written = (returned none, written)
write_loop (b ∷ bs) [] written = (pending, written)
write_loop (b ∷ bs) (a ∷ answers) written =
    let frame = b ∷ bs in
    let written' = written ++ take a.count frame in
    let rest = write_loop (drop a.count frame) answers written' in
    if ltb (length frame) a.count then (panicked, written') else elim a.error [
      | some e ↦ (returned (some e), written')
      | none ↦ if a.count == 0 then (returned (some no_progress), written') else rest
    ]

write_encoded : Result WireError Bytes → List WriteAnswer → WriteStatus × Bytes
write_encoded (ok frame) answers = write_loop frame answers []
write_encoded (err e) answers = (returned (some e), [])

unfoldable pub write_frame : Bytes → List WriteAnswer → WriteStatus × Bytes
unfolding write_encoded
write_frame payload answers = write_encoded (encode_frame payload) answers
