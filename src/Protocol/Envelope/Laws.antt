-- ===== src/Protocol/Envelope/Laws.antt =====
-- Envelopes decode to what was encoded, and the body encoding is told by the message ID.
use ibkr_go.Prelude.{
  ℕ, ◌+◌, ◌%◌, ◌^◌, ◌≤◌, ◌<◌, pos, ◌≡◌, refl, ◌∙◌, List, ◌++◌, arith, length, take, drop, ok,
}
use ibkr_go.Wire.Fields.{Bytes, encode_fields}
use ibkr_go.Wire.Frame.{put_uint32}
use ibkr_go.Wire.Frame.Laws.{uint32-put_uint32}
use ibkr_go.Protocol.Envelope.{
  protobuf_message_id, max_int32, classic_body, protobuf_body, envelope, decode_envelope,
  encode_classic_envelope, encode_protobuf_envelope,
}

length-put_uint32 : (n : ℕ) (body : Bytes) → length (put_uint32 n ++ body) ≡ 4 + length body
unfolding put_uint32
length-put_uint32 n body = omega arith

take-put_uint32 : (n : ℕ) (body : Bytes) → take 4 (put_uint32 n ++ body) ≡ put_uint32 n
unfolding put_uint32
take-put_uint32 n body = refl

drop-put_uint32 : (n : ℕ) (body : Bytes) → drop 4 (put_uint32 n ++ body) ≡ body
unfolding put_uint32
drop-put_uint32 n body = refl

decode_envelope-raw :
    (n : ℕ) (body : Bytes)
    → 0 < n
    → n ≤ max_int32
    → decode_envelope (put_uint32 n ++ body) ≡ ok (envelope n body)
unfolding decode_envelope
decode_envelope-raw n body h k = ground (
  arith,
  length-put_uint32 n body,
  take-put_uint32 n body,
  drop-put_uint32 n body,
  uint32-put_uint32 n (omega arith),
)

encode_classic-eq-ok :
    (id : ℕ) (fields : List Bytes) {payload : Bytes}
    → encode_classic_envelope (pos id) fields ≡ ok payload
    → (0 < id) × (id ≤ max_int32) × (payload ≡ put_uint32 id ++ encode_fields fields)
unfolding encode_classic_envelope
encode_classic-eq-ok id fields h =
    let wrap : id ≤ max_int32 → id % 2 ^ 32 ≡ id = λ k. omega arith in ground (arith, wrap)

encode_protobuf-eq-ok :
    (id : ℕ) (body : Bytes) {payload : Bytes}
    → encode_protobuf_envelope (pos id) body ≡ ok payload
    → (0 < id)
      × (id + protobuf_message_id ≤ max_int32)
      × (payload ≡ put_uint32 (id + protobuf_message_id) ++ body)
unfolding encode_protobuf_envelope
encode_protobuf-eq-ok id body h =
    let wrap : id + protobuf_message_id ≤ max_int32
        → (id + protobuf_message_id) % 2 ^ 32 ≡ id + protobuf_message_id =
      λ k. omega arith in
    ground (arith, wrap)

-- A classic envelope whose ID lies below the protobuf range decodes to that ID and its fields'
-- body.
pub decode_envelope-encode_classic :
    (id : ℕ) (fields : List Bytes) {payload : Bytes}
    → id ≤ protobuf_message_id
    → encode_classic_envelope (pos id) fields ≡ ok payload
    → decode_envelope payload
      ≡ ok (record {
        msg_id = id;
        wire_id = id;
        encoding = classic_body;
        body = encode_fields fields;
      })
unfolding envelope
decode_envelope-encode_classic id fields small h =
    let (low, high, e) = encode_classic-eq-ok id fields h in
    rw e (decode_envelope-raw id (encode_fields fields) low (omega arith) ∙ ground arith)

-- A protobuf envelope decodes to the base ID and the body it was made of, on the wire as ID +
-- 200.
pub decode_envelope-encode_protobuf :
    (id : ℕ) (body : Bytes) {payload : Bytes}
    → encode_protobuf_envelope (pos id) body ≡ ok payload
    → decode_envelope payload
      ≡ ok (record {
        msg_id = id;
        wire_id = id + protobuf_message_id;
        encoding = protobuf_body;
        body = body;
      })
unfolding envelope
decode_envelope-encode_protobuf id body h =
    let (low, high, e) = encode_protobuf-eq-ok id body h in
    rw e (
      decode_envelope-raw (id + protobuf_message_id) body (omega arith) (omega arith)
      ∙ ground arith)
