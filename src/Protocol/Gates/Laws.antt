-- ===== src/Protocol/Gates/Laws.antt =====
-- Every outbound message has a protobuf gate within the supported versions, and nothing else has.
use ibkr_go.Prelude.{
  ℕ, ◌≤◌, ◌≡◌, refl, inl, inr, Bool, true, false, ◌&&◌, Option, none, some, List, [], ◌∷◌, arith,
  leb, ◌==◌, Bool-cases, Option-cases, Memᴰ, all-mem, all,
}
use ibkr_go.Protocol.Registry.{
  supported_min_server_version, supported_max_server_version, client_to_server, Message, messages,
  direction_eq, lookup, find_message, outbound_messages, inbound_messages,
}
use ibkr_go.Protocol.Registry.Laws.{lookup_iff}
use ibkr_go.Protocol.Outbound.{Outbound, outbound_id}
use ibkr_go.Protocol.Gates.{
  min_server_version, outbound_protobuf_versions, find_version, outbound_protobuf_version,
}

-- A gate that the client can negotiate to.
abbrev pub IsSupported : Option ℕ → Type 0
IsSupported none = ⊥
IsSupported (some v) = (supported_min_server_version ≤ v) × (v ≤ supported_max_server_version)

-- Every outbound message ID has a protobuf gate, and the gate is a supported server version.
pub outbound_protobuf_version-IsSupported :
    (m : Outbound) → IsSupported (outbound_protobuf_version (outbound_id m))
unfolding outbound_protobuf_version find_version outbound_protobuf_versions outbound_id
    min_server_version
outbound_protobuf_version-IsSupported Outbound.req_mkt_data = omega arith
outbound_protobuf_version-IsSupported _ = omega arith

find_version-mem : (i v : ℕ) (es : List (ℕ × ℕ)) → find_version i es ≡ some v → Memᴰ (i, v) es
unfolding find_version
find_version-mem i v [] h = cc
find_version-mem i v ((j, w) ∷ es) h = elim (Bool-cases (j == i)) [
  | inl e ↦ Memᴰ.head (ground arith)
  | inr e ↦ Memᴰ.tail (find_version-mem i v es (ground arith))
]

is_some {ℓ} : {A : Type ℓ} → Option A → Bool
is_some none = false
is_some (some a) = true

entry_ok : ℕ × ℕ → Bool
unfolding is_some
entry_ok (i, v) =
    is_some (lookup client_to_server i)
    && (leb supported_min_server_version v && leb v supported_max_server_version)

entries_ok : all entry_ok outbound_protobuf_versions ≡ true
unfolding entry_ok outbound_protobuf_versions outbound_id min_server_version lookup find_message
    direction_eq messages outbound_messages inbound_messages
entries_ok = refl

entry_ok-found :
    (i v : ℕ)
    → entry_ok (i, v) ≡ true
    → (m : Message) × (lookup client_to_server i ≡ some m)
      × (supported_min_server_version ≤ v)
      × (v ≤ supported_max_server_version)
unfolding entry_ok
entry_ok-found i v h = elim (Option-cases (lookup client_to_server i)) [
  | inl e ↦ absurd (ground arith)
  | inr (m, e) ↦ (m, e, ground arith, ground arith)
]

-- An ID with a gate is the ID of a message in the table of messages from client to server, and
-- the gate is a supported server version.
pub outbound_protobuf_version-registered :
    (i v : ℕ)
    → outbound_protobuf_version i ≡ some v
    → (m : Message) × Memᴰ m messages
      × (m.direction ≡ client_to_server)
      × (m.id ≡ i)
      × (supported_min_server_version ≤ v)
      × (v ≤ supported_max_server_version)
unfolding outbound_protobuf_version
outbound_protobuf_version-registered i v h =
    let (m, found, low, high) =
      entry_ok-found i v
        (all-mem entry_ok entries_ok (find_version-mem i v outbound_protobuf_versions h)) in
    let (member, dir, id) = (lookup_iff client_to_server i m).0 found in
    (m, member, dir, id, low, high)
