-- ===== src/Wire/Fields.antt =====
-- internal/wire/fields.go: null-delimited text fields. A text is the list of its bytes.
pub mod RoundTrip
use ibkr_go.Prelude.{
  ℕ, ℤ, Bool, true, false, ◌||◌, List, [], ◌∷◌, ◌++◌, ◌==◌, if◌then◌else◌, Result, ok, err,
}

abbrev pub Bytes : Type 0
Bytes = List ℕ

-- The package's errors and those of package io that it passes on. FrameTooLargeError carries the
-- size and the limit.
pub data WireError : Type 0 where
  malformed_frame empty_message frame_too_large eof unexpected_eof no_progress : WireError
  frame_too_large_error : ℕ → ℤ → WireError

-- The loop that appends each field and its terminator.
unfoldable pub encode_fields : List Bytes → Bytes
encode_fields [] = []
encode_fields (f ∷ fs) = f ++ (0 ∷ encode_fields fs)

-- payload[len(payload)-1] != 0, for a payload that is not empty.
unfoldable pub ends_in_nul : Bytes → Bool
ends_in_nul [] = false
ends_in_nul (b ∷ []) = b == 0
ends_in_nul (b ∷ c ∷ bs) = ends_in_nul (c ∷ bs)

-- payload[:len(payload)-1]
unfoldable pub drop_last : Bytes → Bytes
drop_last [] = []
drop_last (b ∷ []) = []
drop_last (b ∷ c ∷ bs) = b ∷ drop_last (c ∷ bs)

abbrev pub cons_head : ℕ → List Bytes → List Bytes
cons_head b [] = (b ∷ []) ∷ []
cons_head b (p ∷ ps) = (b ∷ p) ∷ ps

-- strings.Split(s, "\x00"): one part more than there are separators.
unfoldable pub split_nul : Bytes → List Bytes
split_nul [] = [] ∷ []
split_nul (b ∷ bs) = if b == 0 then [] ∷ split_nul bs else cons_head b (split_nul bs)

abbrev pub head_is_empty : List Bytes → Bool
head_is_empty [] = true
head_is_empty ([] ∷ ps) = true
head_is_empty ((b ∷ p) ∷ ps) = false

parse_body : Bytes → Result WireError (List Bytes)
parse_body payload =
    let parts = split_nul (drop_last payload) in
    if head_is_empty parts then err malformed_frame else ok parts

unfoldable pub parse_fields : Bytes → Result WireError (List Bytes)
unfolding parse_body
parse_fields [] = err empty_message
parse_fields (b ∷ bs) = if ends_in_nul (b ∷ bs) then parse_body (b ∷ bs) else err malformed_frame
