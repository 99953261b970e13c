-- ===== src/Tests/ProtocolTests.antt =====
-- Messages, gates and envelopes at concrete IDs.
use ibkr_go.Prelude.{◌≤◌, ◌≡◌, refl, ◌↔◌, some, [], ◌∷◌, arith, Memᴰ, ok}
use ibkr_go.Wire.Fields.{encode_fields}
use ibkr_go.Wire.Frame.{put_uint32}
use ibkr_go.Protocol.Outbound
use ibkr_go.Protocol.Outbound.{outbound_id}
use ibkr_go.Protocol.Registry.{
  client_to_server, Message, messages, lookup, supported_min_server_version,
  supported_max_server_version,
}
use ibkr_go.Protocol.Registry.Laws.{lookup_iff}
use ibkr_go.Protocol.Gates.{
  outbound_protobuf_version, outbound_protobuf_versions, find_version, min_server_version,
}
use ibkr_go.Protocol.Gates.Laws.{
  IsSupported, outbound_protobuf_version-IsSupported, outbound_protobuf_version-registered,
}
use ibkr_go.Protocol.Envelope.{
  classic_body, protobuf_body, decode_envelope, encode_classic_envelope, encode_protobuf_envelope,
}
use ibkr_go.Protocol.Envelope.Laws.{decode_envelope-encode_classic, decode_envelope-encode_protobuf}

abbrev start_api : Message
start_api = record { name = "OutStartAPI"; id = 71; direction = client_to_server }

lookup_iff_example :
    (lookup client_to_server 71 ≡ some start_api)
    ↔ (Memᴰ start_api messages × (start_api.direction ≡ client_to_server) × (start_api.id ≡ 71))
lookup_iff_example = lookup_iff client_to_server 71 start_api

outbound_protobuf_version-IsSupported_example :
    IsSupported (outbound_protobuf_version (outbound_id Outbound.start_api))
outbound_protobuf_version-IsSupported_example =
    outbound_protobuf_version-IsSupported Outbound.start_api

outbound_protobuf_version-registered_example :
    (m : Message) × Memᴰ m messages
    × (m.direction ≡ client_to_server)
    × (m.id ≡ 71)
    × (supported_min_server_version ≤ 213)
    × (213 ≤ supported_max_server_version)
unfolding outbound_protobuf_version outbound_protobuf_versions find_version outbound_id
    min_server_version
outbound_protobuf_version-registered_example = outbound_protobuf_version-registered 71 213 refl

-- START_API with the fields "2" and "92"
decode_envelope-encode_classic_example :
    decode_envelope (0 ∷ 0 ∷ 0 ∷ 71 ∷ 50 ∷ 0 ∷ 57 ∷ 50 ∷ 0 ∷ [])
    ≡ ok (record {
      msg_id = 71;
      wire_id = 71;
      encoding = classic_body;
      body = encode_fields ((50 ∷ []) ∷ (57 ∷ 50 ∷ []) ∷ []);
    })
unfolding encode_classic_envelope put_uint32 encode_fields
decode_envelope-encode_classic_example =
    decode_envelope-encode_classic 71 ((50 ∷ []) ∷ (57 ∷ 50 ∷ []) ∷ [])
      {payload = 0 ∷ 0 ∷ 0 ∷ 71 ∷ 50 ∷ 0 ∷ 57 ∷ 50 ∷ 0 ∷ []} (omega arith) refl

decode_envelope-encode_protobuf_example :
    decode_envelope (0 ∷ 0 ∷ 0 ∷ 207 ∷ 8 ∷ [])
    ≡ ok (record { msg_id = 7; wire_id = 207; encoding = protobuf_body; body = 8 ∷ [] })
unfolding encode_protobuf_envelope put_uint32
decode_envelope-encode_protobuf_example =
    decode_envelope-encode_protobuf 7 (8 ∷ []) {payload = 0 ∷ 0 ∷ 0 ∷ 207 ∷ 8 ∷ []} refl
