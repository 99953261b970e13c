-- ===== src/Codec/Reader/Refine.antt =====
-- A reader over encoded fields is the list of the fields that are left.
use ibkr_go.Prelude.{
  ℕ, zero, suc, ◌+◌, ◌≡◌, refl, sym, ap, ◌∙◌, false, none, some, List, [], ◌∷◌, ◌++◌, arith, leb,
  length, drop, length-drop, take-append_left, drop-append_left, All,
}
use ibkr_go.Wire.Fields.{Bytes, encode_fields}
use ibkr_go.Wire.Fields.RoundTrip.{NulFree}
use ibkr_go.Codec.Reader.{
  FieldReader, new_field_reader_bytes, count_nul, index_nul, set_err, field, remaining,
  missing_field,
}

-- The fields that are left of a reader.
pub record Reads (r : FieldReader) (fs : List Bytes) : Type 0 where
  pub at_rest : drop r.off r.buf ≡ encode_fields fs
  pub counted : r.total ≡ r.pos + length fs
  pub free : All NulFree fs

abbrev pub advance : FieldReader → Bytes → FieldReader
advance r f = record r { off = r.off + (length f + 1); pos = r.pos + 1 }

index_nul-field : (f bs : Bytes) → NulFree f → index_nul (f ++ (0 ∷ bs)) ≡ some (length f)
unfolding index_nul
index_nul-field [] bs h = refl
index_nul-field (b ∷ f) bs h = ground (arith, h, index_nul-field f bs h.1)

drop-nil : (n : ℕ) → drop {A = ℕ} n [] ≡ []
drop-nil zero = refl
drop-nil (suc n) = refl

drop-drop : (m n : ℕ) (bs : Bytes) → drop (m + n) bs ≡ drop n (drop m bs)
drop-drop zero n bs = let e : 0 + n ≡ n = omega arith in rw e refl
drop-drop (suc m) n [] = let e : suc m + n ≡ suc (m + n) = omega arith in rw e (sym (drop-nil n))
drop-drop (suc m) n (b ∷ bs) =
    let e : suc m + n ≡ suc (m + n) = omega arith in rw e (drop-drop m n bs)

in_bytes :
    (r : FieldReader) (b : ℕ) (bs : Bytes)
    → drop r.off r.buf ≡ b ∷ bs
    → leb (length r.buf) r.off ≡ false
in_bytes r b bs e = ground (arith, length-drop r.off r.buf, ap length e)

drop-field : (f bs : Bytes) → drop (length f + 1) (f ++ (0 ∷ bs)) ≡ bs
drop-field f bs = drop-drop (length f) 1 (f ++ (0 ∷ bs)) ∙ ap (drop 1) (drop-append_left f (0 ∷ bs))

-- The bytes of a field and its terminator are not empty.
starts : (f bs : Bytes) → (b : ℕ) × (cs : Bytes) × (f ++ (0 ∷ bs) ≡ b ∷ cs)
starts [] bs = (0, bs, refl)
starts (b ∷ f) bs = (b, f ++ (0 ∷ bs), refl)

pub field-Reads :
    {r : FieldReader} {f : Bytes} {fs : List Bytes}
    → Reads r (f ∷ fs)
    → field r ≡ (some f, advance r f)
unfolding field encode_fields
field-Reads {r} {f} {fs} i =
    let (b, cs, e) = starts f (encode_fields fs) in
    rw (in_bytes r b cs (i.at_rest ∙ e)) (
      rw (i.at_rest) (
        rw (index_nul-field f (encode_fields fs) i.free.0) (
          rw i.at_rest
            (ap (λ t. (some t, advance r f)) (take-append_left f (0 ∷ encode_fields fs))))))

-- There are bytes left while there are fields.
pub more-Reads :
    {r : FieldReader} {f : Bytes} {fs : List Bytes}
    → Reads r (f ∷ fs)
    → leb (length r.buf) r.off ≡ false
unfolding encode_fields
more-Reads {r} {f} {fs} i =
    let (b, cs, e) = starts f (encode_fields fs) in in_bytes r b cs (i.at_rest ∙ e)

pub advance-Reads :
    {r : FieldReader} {f : Bytes} {fs : List Bytes} → Reads r (f ∷ fs) → Reads (advance r f) fs
unfolding encode_fields
advance-Reads {r} {f} {fs} i = record {
  at_rest =
      drop-drop r.off (length f + 1) r.buf
      ∙ ap (drop (length f + 1)) i.at_rest
      ∙ drop-field f (encode_fields fs);
  counted = omega (arith, i.counted);
  free = i.free.1;
}

pub remaining-Reads : {r : FieldReader} {fs : List Bytes} → Reads r fs → remaining r ≡ length fs
unfolding remaining
remaining-Reads {r} {fs} i = ground (arith, i.counted)

-- Past the last field there is an error, which stays the first one.
pub field-Reads_end :
    {r : FieldReader} → Reads r [] → field r ≡ (none, set_err (missing_field r.pos) r)
unfolding field encode_fields
field-Reads_end {r} i = ground (arith, length-drop r.off r.buf, ap length i.at_rest)

count_nul-append : (front bs : Bytes) → count_nul (front ++ bs) ≡ count_nul front + count_nul bs
unfolding count_nul
count_nul-append [] bs = omega arith
count_nul-append (a ∷ front) bs = ground (arith, count_nul-append front bs)

count_nul-free : (f : Bytes) → NulFree f → count_nul f ≡ 0
unfolding count_nul
count_nul-free [] h = refl
count_nul-free (b ∷ f) h = ground (arith, h, count_nul-free f h.1)

count_nul-encode_fields :
    (fs : List Bytes) → All NulFree fs → count_nul (encode_fields fs) ≡ length fs
unfolding encode_fields count_nul
count_nul-encode_fields [] h = refl
count_nul-encode_fields (f ∷ fs) h =
    let rest : count_nul (0 ∷ encode_fields fs) ≡ 1 + count_nul (encode_fields fs) = refl in
    omega (
      arith,
      rest,
      count_nul-append f (0 ∷ encode_fields fs),
      count_nul-free f h.0,
      count_nul-encode_fields fs h.1,
    )

-- A reader on the encoding of NUL-free fields.
pub new_field_reader_bytes-Reads :
    (fs : List Bytes) → All NulFree fs → Reads (new_field_reader_bytes (encode_fields fs)) fs
unfolding new_field_reader_bytes
new_field_reader_bytes-Reads fs h = record {
  at_rest = refl;
  counted = omega (arith, count_nul-encode_fields fs h);
  free = h;
}
