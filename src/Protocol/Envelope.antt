-- ===== src/Protocol/Envelope.antt =====
-- internal/protocol/envelope.go: a four-byte message ID in front of a classic or protobuf body.
pub mod Laws
use ibkr_go.Prelude.{
  ℕ, ◌+◌, ◌-◌, ◌%◌, ◌^◌, ◌*◌, ℤ, pos, negsuc, ltz, Bool, ◌||◌, List, [], ◌∷◌, ◌++◌, ◌==◌, ltb, true,
  false, if◌then◌else◌, Result, ok, err, length, take, drop, any,
}
use ibkr_go.Wire.Fields.{Bytes, encode_fields}
use ibkr_go.Wire.Frame.{put_uint32, uint32}

abbrev pub protobuf_message_id : ℕ
protobuf_message_id = 200

-- math.MaxInt32
abbrev pub max_int32 : ℕ
max_int32 = 2147483647

pub data BodyEncoding : Type 0 where
  classic_body protobuf_body : BodyEncoding

pub data EnvelopeError : Type 0 where
  empty_message short_message invalid_raw_id : EnvelopeError
  invalid_classic_id contains_nul invalid_protobuf_id : EnvelopeError

pub record Envelope : Type 0 where
  pub msg_id : ℕ
  pub wire_id : ℕ
  pub encoding : BodyEncoding
  pub body : Bytes

unfoldable pub envelope : ℕ → Bytes → Envelope
envelope wire_id body =
    if ltb protobuf_message_id wire_id
    then record {
      msg_id = wire_id - protobuf_message_id;
      wire_id = wire_id;
      encoding = protobuf_body;
      body = body;
    }
    else record { msg_id = wire_id; wire_id = wire_id; encoding = classic_body; body = body }

unfoldable pub decode_envelope : Bytes → Result EnvelopeError Envelope
decode_envelope payload =
    let raw = uint32 (take 4 payload) in
    if length payload == 0
    then err empty_message
    else (if ltb (length payload) 4
        then err short_message
        else (if (raw == 0) || ltb max_int32 raw
            then err invalid_raw_id
            else ok (envelope raw (drop 4 payload))))

-- uint32(id) of a signed number
unfoldable pub to_uint32 : ℤ → ℕ
to_uint32 (pos n) = n % 2 ^ 32
to_uint32 (negsuc n) = 2 ^ 32 - 1 - n % 2 ^ 32

abbrev pub has_nul : Bytes → Bool
has_nul = any (λ b. b == 0)

unfoldable pub encode_classic_envelope : ℤ → List Bytes → Result EnvelopeError Bytes
unfolding to_uint32
encode_classic_envelope msg_id fields =
    if ltz msg_id (pos 1) || ltz (pos max_int32) msg_id
    then err invalid_classic_id
    else (if any has_nul fields
        then err contains_nul
        else ok (put_uint32 (to_uint32 msg_id) ++ encode_fields fields))

-- msgID > math.MaxInt32-ProtobufMessageID, so that the sum below stays an int32.
unfoldable pub encode_protobuf_envelope : ℤ → Bytes → Result EnvelopeError Bytes
unfolding to_uint32
encode_protobuf_envelope (negsuc n) body = err invalid_protobuf_id
encode_protobuf_envelope (pos n) body =
    if (n == 0) || ltb (max_int32 - protobuf_message_id) n
    then err invalid_protobuf_id
    else ok (put_uint32 (to_uint32 (pos (n + protobuf_message_id))) ++ body)
