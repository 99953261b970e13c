-- ===== src/Codec/Reader/Bounds.antt =====
-- Counts that bodies announce.
use ibkr_go.Prelude.{
  inl, inr, ◌⊎◌, ℕ, ◌≤◌, ℤ, pos, negsuc, String, ◌≡◌, refl, ◌≢◌, Option, none, some, [], ◌∷◌, arith,
  ltb, leb, if_both, if_cases, length,
}
use ibkr_go.Wire.Fields.{Bytes}
use ibkr_go.Codec.Numbers.{parse_int}
use ibkr_go.Codec.Reader.{
  FieldError, FieldReader, set_err, field, remaining, count_value, count_field,
  optional_count_field, read_count, read_optional_count,
}

-- The result of a read of a count: either no error, and the fields left are at least as many, or a
-- count of zero with an error, and the reader keeps an error.
pub record Counted (p : (ℕ × Option FieldError) × FieldReader) : Type 0 where
  pub within : p.0.0 ≤ remaining p.1
  pub failed : (p.0.1 ≡ none) ⊎ ((p.0.0 ≡ 0) × (p.1.err ≢ none))

set_err-err : (e : FieldError) (r : FieldReader) → (set_err e r).err ≢ none
unfolding set_err
set_err-err e r = ground arith

refuse-Counted : (e : FieldError) (r : FieldReader) → Counted ((0, some e), set_err e r)
refuse-Counted e r = record { within = omega arith; failed = inr (refl, set_err-err e r) }

count_value-Counted :
    (label : String) (f : Bytes) (v : Option ℤ) (r : FieldReader)
    → Counted (count_value label f v r)
unfolding count_value
count_value-Counted label f none r = refuse-Counted _ r
count_value-Counted label f (some (negsuc n)) r = refuse-Counted _ r
count_value-Counted label f (some (pos n)) r =
    if_cases Counted (ltb (remaining r) n) (λ big. refuse-Counted _ r)
      (λ fits. record { within = ground (arith, fits); failed = inl refl })

count_field-Counted :
    (label : String) (f : Option Bytes) (r : FieldReader) → Counted (count_field label (f, r))
unfolding count_field
count_field-Counted label none r = refuse-Counted _ r
count_field-Counted label (some []) r = refuse-Counted _ r
count_field-Counted label (some (b ∷ f)) r =
    count_value-Counted label (b ∷ f) (parse_int 64 (b ∷ f)) r

optional-Counted :
    (label : String) (f : Option Bytes) (r : FieldReader)
    → Counted (optional_count_field label (f, r))
unfolding optional_count_field
optional-Counted label none r = record { within = omega arith; failed = inl refl }
optional-Counted label (some []) r = record { within = omega arith; failed = inl refl }
optional-Counted label (some (b ∷ f)) r = count_value-Counted label (b ∷ f) (parse_int 64 (b ∷ f)) r

-- For every reader, whatever its bytes: a count that is read, required or optional, is at most
-- the number of fields that are left, and with an error it is zero and the reader keeps an
-- error.
pub read_count-Counted :
    (label : String) (r : FieldReader)
    → Counted (read_count label r) × Counted (read_optional_count label r)
unfolding read_count read_optional_count
read_count-Counted label r = (
  if_both Counted (leb (length r.buf) r.off) (refuse-Counted _ r)
      (count_field-Counted label (field r).0 (field r).1),
  if_both Counted (leb (length r.buf) r.off) (record { within = omega arith; failed = inl refl })
      (optional-Counted label (field r).0 (field r).1),
)
