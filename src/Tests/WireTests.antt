-- ===== src/Tests/WireTests.antt =====
-- Frames and fields at concrete bytes.
use ibkr_go.Prelude.{◌≤◌, ◌≡◌, refl, ◌≢◌, false, none, List, [], ◌∷◌, ◌++◌, arith, length, All, ok}
use ibkr_go.Wire.Fields.{
  Bytes, encode_fields, parse_fields, ends_in_nul, drop_last, split_nul, head_is_empty,
}
use ibkr_go.Wire.Fields.RoundTrip.{NulFree, parse_fields-encode_fields, encode_fields-parse_fields}
use ibkr_go.Wire.Frame.{put_uint32, read_frame, encode_frame, write_frame, WriteAnswer, pending}
use ibkr_go.Wire.Frame.Laws.{
  read_frame-encode_frame, encode_frame-read_frame, write_frame_complete, Begins,
}

-- "ab" and an empty field
abbrev two_fields : List Bytes
two_fields = (97 ∷ 98 ∷ []) ∷ [] ∷ []

parse_fields-encode_fields_example : parse_fields (encode_fields two_fields) ≡ ok two_fields
parse_fields-encode_fields_example =
    parse_fields-encode_fields (97 ∷ 98 ∷ []) ([] ∷ []) (λ e. cc) (omega arith) (omega arith)

encode_fields-parse_fields_example :
    (encode_fields two_fields ≡ 97 ∷ 98 ∷ 0 ∷ 0 ∷ [])
    × All NulFree two_fields
    × (head_is_empty two_fields ≡ false)
unfolding parse_fields ends_in_nul drop_last split_nul
encode_fields-parse_fields_example =
    encode_fields-parse_fields (97 ∷ 98 ∷ 0 ∷ 0 ∷ []) two_fields refl

abbrev small_frame : Bytes
small_frame = 0 ∷ 0 ∷ 0 ∷ 2 ∷ 7 ∷ 9 ∷ []

small_frame_encodes : encode_frame (7 ∷ 9 ∷ []) ≡ ok small_frame
unfolding encode_frame put_uint32
small_frame_encodes = refl

read_frame-encode_frame_example : read_frame (small_frame ++ 5 ∷ []) ≡ (ok (7 ∷ 9 ∷ []), 5 ∷ [])
read_frame-encode_frame_example =
    read_frame-encode_frame (7 ∷ 9 ∷ []) (5 ∷ []) {frame = small_frame} small_frame_encodes

small_frame_reads : read_frame (small_frame ++ 5 ∷ []) ≡ (ok (7 ∷ 9 ∷ []), 5 ∷ [])
small_frame_reads =
    read_frame-encode_frame (7 ∷ 9 ∷ []) (5 ∷ []) {frame = small_frame} small_frame_encodes

encode_frame-read_frame_example :
    (frame : Bytes) × (encode_frame (7 ∷ 9 ∷ []) ≡ ok frame)
    × (frame ++ 5 ∷ [] ≡ small_frame ++ 5 ∷ [])
encode_frame-read_frame_example =
    encode_frame-read_frame (small_frame ++ 5 ∷ []) (ground arith) small_frame_reads

-- The writer takes four bytes, then two.
abbrev two_writes : List WriteAnswer
two_writes = record { count = 4; error = none } ∷ record { count = 2; error = none } ∷ []

write_frame_complete_example :
    Begins small_frame (write_frame (7 ∷ 9 ∷ []) two_writes)
    × (length small_frame ≤ length two_writes → (write_frame (7 ∷ 9 ∷ []) two_writes).0 ≢ pending)
write_frame_complete_example =
    write_frame_complete (7 ∷ 9 ∷ []) two_writes {frame = small_frame} small_frame_encodes
