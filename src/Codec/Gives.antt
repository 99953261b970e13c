-- ===== src/Codec/Gives.antt =====
-- What a decoder makes of the fields of its message, for proofs that follow its reads.
pub mod Counts
use ibkr_go.Prelude.{
  ℕ, ◌-◌, ◌*◌, ◌/◌, ◌≤◌, ℤ, pos, String, ◌≡◌, refl, sym, ap, ◌∙◌, subst, inl, inr, Bool, true,
  false, none, some, List, [], ◌∷◌, ◌++◌, append_assoc, arith, ltb, leb, ◌==◌, length,
  length-append, All, Result, ok, err,
}
use ibkr_go.Wire.Fields.{Bytes}
use ibkr_go.Codec.Numbers.{itoa, parse_int}
use ibkr_go.Codec.Numbers.RoundTrip.{Fits, parse_int-itoa}
use ibkr_go.Codec.Reader.{
  FieldError, bad_int, bad_int64, FieldReader, field, read_int, read_int64, read_bool, read_string,
  read_count, skip, remaining, require_fixed_entry_fields, int_field, string_field, count_field,
  count_value, one_text, zero_text,
}
use ibkr_go.Codec.Reader.Refine.{Reads, field-Reads, advance-Reads, remaining-Reads, more-Reads}
use ibkr_go.Codec.Decoder.{
  Decoder, ◌>>=◌, ◌>>◌, pure, int, bool, string, ignored, or_error, checked, skipped, require,
  within, within_sixth, repeated,
}

-- A read that gave a value and left the fields of rest.
pub record Got {A : Type 0} (a : A) (rest : List Bytes) (p : Result FieldError A × FieldReader)
    : Type 0 where
  pub value : p.0 ≡ ok a
  pub reads : Reads p.1 rest
  pub no_err : p.1.err ≡ none

-- In front of any fields, the decoder reads these as the value.
pub record Gives {A : Type 0} (d : Decoder A) (fs : List Bytes) (a : A) : Type 0 where
  pub run :
      (r : FieldReader) (rest : List Bytes) → Reads r (fs ++ rest) → r.err ≡ none → Got a rest (d r)

pub bind_Got :
    {A B : Type 0} (m : Decoder A) (k : A → Decoder B) {a : A} {b : B} {gs rest : List Bytes}
    (r : FieldReader)
    → Got a gs (m r)
    → ((next : FieldReader) → Reads next gs → next.err ≡ none → Got b rest (k a next))
    → Got b rest ((m >>= k) r)
unfolding ◌>>=◌
bind_Got m k r g h = rw g.value (h _ g.reads g.no_err)

pub Gives-bind :
    {A B : Type 0} (m : Decoder A) (k : A → Decoder B) {a : A} {b : B} {fs gs : List Bytes}
    → ((r : FieldReader) (rest : List Bytes)
        → Reads r (fs ++ rest)
        → r.err ≡ none
        → Got a (gs ++ rest) (m r))
    → Gives (k a) gs b
    → Gives (m >>= k) fs b
Gives-bind m k first tail = record {
  run = λ r rest i h. bind_Got m k r (first r rest i h) (λ next j e. tail.run next rest j e);
}

pub Gives-pure : {A : Type 0} {a : A} → Gives (pure a) [] a
unfolding pure
Gives-pure = record { run = λ r rest i h. record { value = refl; reads = i; no_err = h } }

int_field-some :
    (bits : ℕ) (bad : ℕ → Bytes → FieldError) (f : Bytes) (r : FieldReader) (v : ℤ)
    → parse_int bits f ≡ some v
    → int_field bits bad (some f, r) ≡ ((v, none), r)
unfolding parse_int
int_field-some bits bad [] r v e = cc
int_field-some bits bad (b ∷ f) r v e = rw e refl

int-Got :
    {r : FieldReader} {gs : List Bytes} (v : ℤ)
    → Fits 32 v
    → Reads r (itoa v ∷ gs)
    → r.err ≡ none
    → Got v gs (int r)
unfolding int read_int
int-Got {r} {gs} v fits i h =
    let e =
      ap (int_field 32 bad_int) (field-Reads i)
      ∙ int_field-some 32 bad_int (itoa v) _ v (parse_int-itoa 32 v (inl refl) fits) in
    subst (λ p. Got v gs (ignored p)) (sym e)
      (record { value = refl; reads = advance-Reads i; no_err = h })

pub Gives-int :
    {B : Type 0} (k : ℤ → Decoder B) {b : B} {fs : List Bytes} {v : ℤ}
    → Fits 32 v
    → Gives (k v) fs b
    → Gives (int >>= k) (itoa v ∷ fs) b
Gives-int k {v = v} fits tail = Gives-bind int k (λ r rest i h. int-Got v fits i h) tail

pub string-Got :
    {r : FieldReader} {gs : List Bytes} (f : Bytes)
    → Reads r (f ∷ gs)
    → r.err ≡ none
    → Got f gs (string r)
unfolding string read_string
string-Got {r} {gs} f i h =
    let e = ap string_field (field-Reads i) in
    subst (λ (p : Bytes × FieldReader). Got f gs (ok p.0, p.1)) (sym e)
      (record { value = refl; reads = advance-Reads i; no_err = h })

pub Gives-string :
    {B : Type 0} (k : Bytes → Decoder B) {b : B} {fs : List Bytes} {f : Bytes}
    → Gives (k f) fs b
    → Gives (string >>= k) (f ∷ fs) b
Gives-string k {f = f} tail = Gives-bind string k (λ r rest i h. string-Got f i h) tail

skip-field :
    (r : FieldReader) {next : FieldReader} {f : Bytes} → field r ≡ (some f, next) → skip 1 r ≡ next
unfolding skip
skip-field r {next} {f} e =
    subst (λ p. elim p.0 as (λ _. FieldReader) [ none ↦ p.1 | some g ↦ p.1 ] ≡ next) (sym e) refl

skip-Got :
    {r : FieldReader} {gs : List Bytes} (f : Bytes)
    → Reads r (f ∷ gs)
    → r.err ≡ none
    → Got tt gs (skipped 1 r)
unfolding skipped
skip-Got {r} {gs} f i h =
    subst (λ next. Got tt gs (ok tt, next)) (sym (skip-field r (field-Reads i)))
      (record { value = refl; reads = advance-Reads i; no_err = h })

pub Gives-skip :
    {B : Type 0} (d : Decoder B) {b : B} {fs : List Bytes} {f : Bytes}
    → Gives d fs b
    → Gives (skipped 1 >> d) (f ∷ fs) b
Gives-skip d {f = f} tail = Gives-bind (skipped 1) (λ _. d) (λ r rest i h. skip-Got f i h) tail

abbrev pub btoa : Bool → Bytes
btoa true = one_text
btoa false = zero_text

bool-Got :
    {r : FieldReader} {gs : List Bytes} (b : Bool)
    → Reads r (btoa b ∷ gs)
    → r.err ≡ none
    → Got b gs (bool r)
unfolding bool read_bool
bool-Got {r} {gs} true i h =
    rw (field-Reads i) (record { value = refl; reads = advance-Reads i; no_err = h })
bool-Got {r} {gs} false i h =
    rw (field-Reads i) (record { value = refl; reads = advance-Reads i; no_err = h })

pub Gives-bool :
    {B : Type 0} (k : Bool → Decoder B) {b : B} {fs : List Bytes} {v : Bool}
    → Gives (k v) fs b
    → Gives (bool >>= k) (btoa v ∷ fs) b
Gives-bool k {v = v} tail = Gives-bind bool k (λ r rest i h. bool-Got v i h) tail

int64-Got :
    {r : FieldReader} {gs : List Bytes} (v : ℤ)
    → Fits 64 v
    → Reads r (itoa v ∷ gs)
    → r.err ≡ none
    → Got v gs (checked read_int64 r)
unfolding checked read_int64
int64-Got {r} {gs} v fits i h =
    let e =
      ap (int_field 64 bad_int64) (field-Reads i)
      ∙ int_field-some 64 bad_int64 (itoa v) _ v (parse_int-itoa 64 v (inr refl) fits) in
    subst (λ p. Got v gs (or_error p)) (sym e)
      (record { value = refl; reads = advance-Reads i; no_err = h })

pub Gives-int64 :
    {B : Type 0} (k : ℤ → Decoder B) {b : B} {fs : List Bytes} {v : ℤ}
    → Fits 64 v
    → Gives (k v) fs b
    → Gives (checked read_int64 >>= k) (itoa v ∷ fs) b
Gives-int64 k {v = v} fits tail =
    Gives-bind (checked read_int64) k (λ r rest i h. int64-Got v fits i h) tail

-- A decoder of an entry among other reads.
pub Gives-entry :
    {A B : Type 0} (d : Decoder A) (k : A → Decoder B) {b : B} {gs fs : List Bytes} {a : A}
    → Gives d gs a
    → Gives (k a) fs b
    → Gives (d >>= k) (gs ++ fs) b
Gives-entry d k {gs = gs} {fs = fs} g tail =
    Gives-bind d k
      (λ r rest i h. g.run r (fs ++ rest) (subst (Reads r) (append_assoc gs fs rest) i) h) tail
