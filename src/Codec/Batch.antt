-- ===== src/Codec/Batch.antt =====
-- internal/codec/codec.go: DecodeBatch and Decode. `protobuf` is the table inboundProtobufDecoders.
use ibkr_go.Prelude.{
  ℕ, ◌+◌, not, ◌&&◌, Option, none, some, List, [], ◌∷◌, ltb, if◌then◌else◌, length, Result, ok, err,
}
use ibkr_go.Wire.Fields.{Bytes, split_nul, drop_last, ends_in_nul}
use ibkr_go.Protocol.Envelope.{
  BodyEncoding, classic_body, protobuf_body, EnvelopeError, Envelope, decode_envelope,
}
use ibkr_go.Codec.Messages.{
  Message, unknown_inbound, malformed_inbound, BodyError, malformed_body, in_body,
}
use ibkr_go.Codec.Reader.{FieldError, FieldReader, new_field_reader_bytes}
use ibkr_go.Codec.Decoder.{Decoder}
use ibkr_go.Codec.Decoders.{inbound_decoders, entry_at, decode_by_msg_id}

unfoldable pub copy_classic_fields : Bytes → List Bytes
copy_classic_fields [] = []
copy_classic_fields (b ∷ body) =
    if ends_in_nul (b ∷ body) then split_nul (drop_last (b ∷ body)) else split_nul (b ∷ body)

abbrev pub ProtobufDecoder : Type 0
ProtobufDecoder = Bytes → Result FieldError (List Message)

abbrev pub unknown_classic : Envelope → Message
unknown_classic e = unknown_inbound (record {
  msg_id = e.msg_id;
  encoding = classic_body;
  fields = copy_classic_fields e.body;
  payload = e.body;
})

abbrev pub malformed_classic : Envelope → BodyError → Message
malformed_classic e cause = malformed_inbound (record {
  msg_id = e.msg_id;
  encoding = classic_body;
  fields = copy_classic_fields e.body;
  payload = [];
  error = cause;
})

-- The message ID is field 0 of the positions and of the count.
abbrev pub body_reader : Bytes → FieldReader
body_reader body = let r = new_field_reader_bytes body in record r { pos = 1; total = r.total + 1 }

abbrev pub messages_of : Envelope → Result FieldError (List Message) → List Message
messages_of e (ok msgs) = msgs
messages_of e (err cause) = malformed_classic e (in_body cause) ∷ []

unfoldable pub decode_classic : Envelope → Option (Decoder (List Message)) → List Message
unfolding decode_by_msg_id copy_classic_fields new_field_reader_bytes
decode_classic e none = unknown_classic e ∷ []
decode_classic e (some decoder) =
    if ltb 0 (length e.body) && not (ends_in_nul e.body)
    then malformed_classic e malformed_body ∷ []
    else messages_of e (decode_by_msg_id decoder (body_reader e.body))

abbrev pub protobuf_messages_of : Envelope → Result FieldError (List Message) → List Message
protobuf_messages_of e (ok msgs) = msgs
protobuf_messages_of e (err cause) =
    malformed_inbound (record {
      msg_id = e.msg_id;
      encoding = protobuf_body;
      fields = [];
      payload = e.body;
      error = in_body cause;
    })
    ∷ []

unfoldable pub decode_protobuf : Envelope → Option ProtobufDecoder → List Message
decode_protobuf e none =
    unknown_inbound
      (record { msg_id = e.msg_id; encoding = protobuf_body; fields = []; payload = e.body })
    ∷ []
decode_protobuf e (some decoder) = protobuf_messages_of e (decoder e.body)

unfoldable pub decode_body : (ℕ → Option ProtobufDecoder) → Envelope → BodyEncoding → List Message
unfolding decode_classic decode_protobuf
decode_body protobuf e classic_body = decode_classic e (entry_at e.msg_id inbound_decoders)
decode_body protobuf e protobuf_body = decode_protobuf e (protobuf e.msg_id)

unfoldable pub decode_enveloped :
    (ℕ → Option ProtobufDecoder)
    → Result EnvelopeError Envelope
    → Result EnvelopeError (List Message)
unfolding decode_body
decode_enveloped protobuf (err e) = err e
decode_enveloped protobuf (ok e) = ok (decode_body protobuf e e.encoding)

unfoldable pub decode_batch :
    (ℕ → Option ProtobufDecoder) → Bytes → Result EnvelopeError (List Message)
unfolding decode_enveloped
decode_batch protobuf payload = decode_enveloped protobuf (decode_envelope payload)

-- The errors of Decode: of the envelope, of the number of messages, of a malformed body.
pub data DecodeError : Type 0 where
  bad_envelope : EnvelopeError → DecodeError
  not_one_message : ℕ → DecodeError
  bad_body : BodyError → DecodeError

abbrev pub unless_malformed : Message → Result DecodeError Message
unless_malformed (malformed_inbound m) = err (bad_body m.error)
unless_malformed m = ok m

abbrev pub only_message : Result EnvelopeError (List Message) → Result DecodeError Message
only_message (err e) = err (bad_envelope e)
only_message (ok []) = err (not_one_message 0)
only_message (ok (m ∷ [])) = unless_malformed m
only_message (ok (m ∷ n ∷ ms)) = err (not_one_message (2 + length ms))

unfoldable pub decode : (ℕ → Option ProtobufDecoder) → Bytes → Result DecodeError Message
unfolding decode_batch
decode protobuf payload = only_message (decode_batch protobuf payload)
