-- ===== src/Protocol/Registry/Laws.antt =====
-- The registry answers each message's key with that message, and nothing else.
use ibkr_go.Prelude.{
  ℕ, ◌≡◌, refl, ◌↔◌, inl, inr, Bool, true, not, ◌&&◌, some, List, [], ◌∷◌, arith, ◌==◌, Bool-cases,
  Memᴰ, any-mem, any,
}
use ibkr_go.Protocol.Registry.{Direction, direction_eq, Message, messages, find_message, lookup}
use ibkr_go.Protocol.Outbound.{outbound_id}
use ibkr_go.Protocol.Inbound.{inbound_id}

direction_eq_iff : (c d : Direction) → (direction_eq c d ≡ true) ↔ (c ≡ d)
unfolding direction_eq
direction_eq_iff c d = (λ h. ground arith, λ h. ground arith)

same_key : Message → Message → Bool
unfolding direction_eq
same_key m n = direction_eq m.direction n.direction && (m.id == n.id)

-- No two entries have the same direction and ID.
distinct : List Message → Bool
unfolding same_key
distinct [] = true
distinct (m ∷ ms) = not (any (same_key m) ms) && distinct ms

messages-distinct : distinct messages ≡ true
unfolding distinct messages outbound_id inbound_id
messages-distinct = refl

same_key_self : (m n : Message) → m ≡ n → same_key n m ≡ true
unfolding same_key
same_key_self m n h = ground (arith, direction_eq_iff n.direction m.direction)

find_message-member :
    (ms : List Message) (m : Message)
    → distinct ms ≡ true
    → Memᴰ m ms
    → find_message m.direction m.id ms ≡ some m
unfolding find_message distinct
find_message-member [] m h t = elim t [ ]
find_message-member (n ∷ ms) m h (Memᴰ.head e) =
    ground (arith, direction_eq_iff n.direction m.direction)
find_message-member (n ∷ ms) m h (Memᴰ.tail t) = ground (
  arith,
  direction_eq_iff n.direction m.direction,
  any-mem (same_key n) t,
  find_message-member ms m,
)

find_message-some :
    (ms : List Message) (d : Direction) (i : ℕ) (m : Message)
    → find_message d i ms ≡ some m
    → Memᴰ m ms × (m.direction ≡ d) × (m.id ≡ i)
unfolding find_message
find_message-some [] d i m h = cc
find_message-some (n ∷ ms) d i m h = elim (Bool-cases (direction_eq n.direction d && (n.id == i))) [
  | inl e ↦ (Memᴰ.head (ground arith), ground (arith, direction_eq_iff n.direction d), ground arith)
  | inr e ↦ let (t, dir, id) = find_message-some ms d i m (ground arith) in (Memᴰ.tail t, dir, id)
]

-- Lookup of a direction and an ID finds a message exactly if that message is in the table under
-- that direction and ID: the keys are unique, so no entry hides another.
pub lookup_iff :
    (d : Direction) (i : ℕ) (m : Message)
    → (lookup d i ≡ some m) ↔ (Memᴰ m messages × (m.direction ≡ d) × (m.id ≡ i))
unfolding lookup
lookup_iff d i m = (
  find_message-some messages d i m,
  λ h. rw (← h.1, ← h.2) (find_message-member messages m messages-distinct h.0),
)
