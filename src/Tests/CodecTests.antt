-- ===== src/Tests/CodecTests.antt =====
-- A list of news providers, a scan row, and counts that lie.
use ibkr_go.Prelude.{ℕ, pos, ◌≡◌, refl, none, Option, [], ◌∷◌, ok, arith}
use ibkr_go.Wire.Fields.{Bytes, encode_fields, drop_last, ends_in_nul, split_nul}
use ibkr_go.Wire.Frame.{put_uint32, uint32}
use ibkr_go.Protocol.Inbound.{inbound_id}
use ibkr_go.Protocol.Envelope.{
  encode_classic_envelope, to_uint32, decode_envelope, envelope, classic_body,
}
use ibkr_go.Codec.Numbers.{itoa, digits, parse_int, parse_uint, parse_digits}
use ibkr_go.Codec.Messages.{Message, news_providers, malformed_inbound, in_body}
use ibkr_go.Codec.Reader.{
  FieldReader, excess_count, new_field_reader_bytes, count_nul, field, index_nul, set_err,
  read_count, read_optional_count, count_field, count_value, remaining,
}
use ibkr_go.Codec.Reader.Bounds.{Counted, read_count-Counted}
use ibkr_go.Codec.Decoder.{◌>>=◌, checked}
use ibkr_go.Codec.Decoders.{inbound_decoders, entry_at, decode_by_msg_id}
use ibkr_go.Codec.Decoders.News.{decode_news_providers}
use ibkr_go.Codec.Layouts.{wire_id, wire_fields}
use ibkr_go.Codec.Batch.{
  ProtobufDecoder, decode_batch, decode_enveloped, decode_body, decode_classic, copy_classic_fields,
}
use ibkr_go.Codec.RoundTrip.{decode_batch-wire_fields}

abbrev no_protobuf : ℕ → Option ProtobufDecoder
no_protobuf id = none

-- BZ with the name A, and FLY without a name.
abbrev two_providers : Message
two_providers = news_providers (record {
  providers =
      record { code = 66 ∷ 90 ∷ []; name = 65 ∷ [] }
      ∷ record { code = 70 ∷ 76 ∷ 89 ∷ []; name = [] }
      ∷ [];
})

abbrev providers_payload : Bytes
providers_payload = 0 ∷ 0 ∷ 0 ∷ 85 ∷ 50 ∷ 0 ∷ 66 ∷ 90 ∷ 0 ∷ 65 ∷ 0 ∷ 70 ∷ 76 ∷ 89 ∷ 0 ∷ 0 ∷ []

framed :
    encode_classic_envelope (pos (wire_id two_providers)) (wire_fields [] two_providers)
    ≡ ok providers_payload
unfolding encode_classic_envelope to_uint32 put_uint32 encode_fields itoa digits wire_id inbound_id
framed = refl

decode_batch-wire_fields_example :
    decode_batch no_protobuf providers_payload ≡ ok (two_providers ∷ [])
decode_batch-wire_fields_example =
    decode_batch-wire_fields no_protobuf [] two_providers (omega arith) framed

-- Nine providers are announced, and two fields are there.
abbrev short_payload : Bytes
short_payload = 0 ∷ 0 ∷ 0 ∷ 85 ∷ 57 ∷ 0 ∷ 66 ∷ 90 ∷ 0 ∷ 65 ∷ 0 ∷ []

short_is_malformed :
    decode_batch no_protobuf short_payload
    ≡ ok (
        malformed_inbound (record {
          msg_id = 85;
          encoding = classic_body;
          fields = (57 ∷ []) ∷ (66 ∷ 90 ∷ []) ∷ (65 ∷ []) ∷ [];
          payload = [];
          error = in_body (excess_count 1 "news provider count" (pos 9) 2);
        })
        ∷ [])
unfolding decode_batch decode_enveloped decode_body decode_classic copy_classic_fields
    decode_envelope envelope inbound_decoders inbound_id entry_at uint32 decode_by_msg_id
    decode_news_providers ◌>>=◌ checked read_count field index_nul count_field count_value parse_int
    parse_uint parse_digits remaining set_err new_field_reader_bytes count_nul split_nul drop_last
    ends_in_nul
short_is_malformed = refl

abbrev at_count : FieldReader
at_count = record { buf = 53 ∷ 0 ∷ 65 ∷ 0 ∷ []; off = 0; pos = 1; total = 3; err = none }

read_count-Counted_example :
    Counted (read_count "entries" at_count) × Counted (read_optional_count "entries" at_count)
read_count-Counted_example = read_count-Counted "entries" at_count
