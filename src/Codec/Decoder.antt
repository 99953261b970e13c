-- ===== src/Codec/Decoder.antt =====
-- internal/codec/codec.go: the type decodeFunc, as a state monad over the reader. No decoder reads
-- the server version.
use ibkr_go.Prelude.{
  ℕ, zero, suc, ◌/◌, ℤ, String, Bool, Option, none, some, List, [], ◌∷◌, ltb, if◌then◌else◌, Result,
  ok, err,
}
use ibkr_go.Wire.Fields.{Bytes}
use ibkr_go.Codec.Reader.{
  FieldError, excess_list, FieldReader, read_int, read_string, read_bool, skip, remaining,
  require_fixed_entry_fields,
}

abbrev pub Decoder : Type 0 → Type 0
Decoder A = FieldReader → Result FieldError A × FieldReader

abbrev pub continue :
    {A B : Type 0}
    → (A → Decoder B)
    → Result FieldError A
    → FieldReader
    → Result FieldError B × FieldReader
continue f (ok a) r = f a r
continue f (err e) r = (err e, r)

infixl 5 ◌>>=◌ ◌>>◌
unfoldable pub ◌>>=◌ : {A B : Type 0} → Decoder A → (A → Decoder B) → Decoder B
◌>>=◌ m f r = continue f (m r).0 (m r).1

abbrev pub ◌>>◌ : {B : Type 0} → Decoder (Unit {0}) → Decoder B → Decoder B
m >> k = m >>= λ _. k

unfoldable pub pure : {A : Type 0} → A → Decoder A
pure a r = (ok a, r)

abbrev pub ignored :
    {A : Type 0} → (A × Option FieldError) × FieldReader → Result FieldError A × FieldReader
ignored ((a, e), r) = (ok a, r)

-- `v, _ := r.ReadInt()`
unfoldable pub int : Decoder ℤ
unfolding read_int
int r = ignored (read_int r)

-- `v, _ := r.ReadBool()`
unfoldable pub bool : Decoder Bool
unfolding read_bool
bool r = ignored (read_bool r)

unfoldable pub string : Decoder Bytes
unfolding read_string
string r = let (f, next) = read_string r in (ok f, next)

abbrev pub or_error :
    {A : Type 0} → (A × Option FieldError) × FieldReader → Result FieldError A × FieldReader
or_error ((a, none), r) = (ok a, r)
or_error ((a, some e), r) = (err e, r)

-- A read whose error is returned.
unfoldable pub checked :
    {A : Type 0} → (FieldReader → (A × Option FieldError) × FieldReader) → Decoder A
checked read r = or_error (read r)

unfoldable pub skipped : ℕ → Decoder (Unit {0})
unfolding skip
skipped n r = (ok tt, skip n r)

unfoldable pub require : String → ℕ → ℕ → ℕ → Decoder (Unit {0})
unfolding require_fixed_entry_fields
require label count width trailer r =
    elim (require_fixed_entry_fields label count width trailer r) [
      | none ↦ (ok tt, r)
      | some e ↦ (err e, r)
    ]

-- `if count > r.Remaining()`
unfoldable pub within : String → ℕ → Decoder (Unit {0})
unfolding remaining
within label count r =
    if ltb (remaining r) count then (err (excess_list label count (remaining r)), r) else (ok tt, r)

-- `if count > r.Remaining()/6`
unfoldable pub within_sixth : String → ℕ → Decoder (Unit {0})
unfolding remaining
within_sixth label count r =
    if ltb (remaining r / 6) count
    then (err (excess_list label count (remaining r)), r)
    else (ok tt, r)

-- The loop over the entries of a slice.
unfoldable pub repeated : {A : Type 0} → ℕ → Decoder A → Decoder (List A)
unfolding ◌>>=◌ pure
repeated zero d = pure []
repeated (suc n) d = d >>= λ a. repeated n d >>= λ rest. pure (a ∷ rest)
