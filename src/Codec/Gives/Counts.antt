-- ===== src/Codec/Gives/Counts.antt =====
-- Counts and the lists that they announce.
use ibkr_go.Prelude.{
  ℕ, ◌-◌, ◌*◌, ◌/◌, ◌≤◌, pos, String, ◌≡◌, refl, sym, ap, ◌∙◌, subst, inr, false, none, some, List,
  [], ◌∷◌, ◌++◌, append_assoc, arith, ltb, leb, ◌==◌, length, length-append, All, Result, ok, err,
}
pub use native.Mathlib.Nat.{suc-mul}
use ibkr_go.Wire.Fields.{Bytes}
use ibkr_go.Codec.Numbers.{itoa, parse_int}
use ibkr_go.Codec.Numbers.RoundTrip.{Fits, parse_int-itoa}
use ibkr_go.Codec.Reader.{
  FieldError, FieldReader, field, read_count, remaining, require_fixed_entry_fields, count_field,
  count_value,
}
use ibkr_go.Codec.Reader.Refine.{Reads, field-Reads, advance-Reads, remaining-Reads, more-Reads}
use ibkr_go.Codec.Decoder.{
  Decoder, ◌>>=◌, ◌>>◌, pure, string, or_error, checked, require, within, within_sixth, repeated,
}
use ibkr_go.Codec.Gives.{Got, Gives, bind_Got, Gives-bind, string-Got}

count_field-some :
    (label : String) (f : Bytes) (r : FieldReader) (n : ℕ)
    → parse_int 64 f ≡ some (pos n)
    → n ≤ remaining r
    → count_field label (some f, r) ≡ ((n, none), r)
unfolding parse_int count_field count_value
count_field-some label [] r n e h = cc
count_field-some label (b ∷ f) r n e h = rw e (ground (arith, h))

read_count-field :
    (label : String) (r : FieldReader)
    → leb (length r.buf) r.off ≡ false
    → read_count label r ≡ count_field label (field r)
unfolding read_count
read_count-field label r h = rw h refl

count-Got :
    {r : FieldReader} {gs : List Bytes} (label : String) (n : ℕ)
    → Fits 64 (pos n)
    → n ≤ length gs
    → Reads r (itoa (pos n) ∷ gs)
    → r.err ≡ none
    → Got n gs (checked (read_count label) r)
unfolding checked
count-Got {r} {gs} label n fits enough i h =
    let after = advance-Reads i in
    let e =
      read_count-field label r (more-Reads i)
      ∙ ap (count_field label) (field-Reads i)
      ∙ count_field-some label (itoa (pos n)) _ n (parse_int-itoa 64 (pos n) (inr refl) fits)
          (omega (arith, enough, remaining-Reads after)) in
    subst (λ p. Got n gs (or_error p)) (sym e) (record { value = refl; reads = after; no_err = h })

pub Gives-count :
    {B : Type 0} (label : String) (k : ℕ → Decoder B) {b : B} {fs : List Bytes} {n : ℕ}
    → Fits 64 (pos n)
    → n ≤ length fs
    → Gives (k n) fs b
    → Gives (checked (read_count label) >>= k) (itoa (pos n) ∷ fs) b
Gives-count label k {fs = fs} {n = n} fits enough tail =
    Gives-bind (checked (read_count label)) k
      (λ r rest i h. count-Got label n fits (omega (arith, enough, length-append fs rest)) i h) tail

-- A check that lets the count pass reads nothing.
passed-Got :
    {r : FieldReader} {gs : List Bytes} (d : Decoder (Unit {0}))
    → d r ≡ (ok tt, r)
    → Reads r gs
    → r.err ≡ none
    → Got tt gs (d r)
passed-Got {r} {gs} d e i h =
    subst (Got tt gs) (sym e) (record { value = refl; reads = i; no_err = h })

require_fixed-none :
    (label : String) (n width : ℕ) (r : FieldReader)
    → (width == 0) ≡ false
    → n ≤ remaining r / width
    → require_fixed_entry_fields label n width 0 r ≡ none
unfolding require_fixed_entry_fields
require_fixed-none label n width r w h =
    let none_short : ltb (remaining r) 0 ≡ false = ground arith in
    let same : remaining r - 0 ≡ remaining r = omega arith in
    let fits : ltb (remaining r / width) n ≡ false = ground (arith, h) in
    rw (w, none_short, same, fits) refl

require-passes :
    (label : String) (n width : ℕ) (r : FieldReader)
    → (width == 0) ≡ false
    → n ≤ remaining r / width
    → require label n width 0 r ≡ (ok tt, r)
unfolding require
require-passes label n width r w h =
    let e = require_fixed-none label n width r w h in
    subst
      (λ c.
        elim c as (λ _. Result FieldError (Unit {0}) × FieldReader) [
          | none ↦ (ok tt, r)
          | some k ↦ (err k, r)
        ]
        ≡ (ok tt, r))
      (sym e) refl

pub Gives-require :
    {B : Type 0} (label : String) (n width : ℕ) (d : Decoder B) {b : B} {fs : List Bytes}
    → (width == 0) ≡ false
    → ((left : ℕ) → length fs ≤ left → n ≤ left / width)
    → Gives d fs b
    → Gives (require label n width 0 >> d) fs b
Gives-require label n width d {fs = fs} w enough tail =
    Gives-bind (require label n width 0) (λ _. d)
      (λ r rest i h.
        passed-Got (require label n width 0)
          (require-passes label n width r w
            (enough (remaining r) (omega (arith, remaining-Reads i, length-append fs rest))))
          i h)
      tail

within-passes :
    (label : String) (n : ℕ) (r : FieldReader) → n ≤ remaining r → within label n r ≡ (ok tt, r)
unfolding within
within-passes label n r h =
    let fits : ltb (remaining r) n ≡ false = ground (arith, h) in rw fits refl

pub Gives-within :
    {B : Type 0} (label : String) (n : ℕ) (d : Decoder B) {b : B} {fs : List Bytes}
    → n ≤ length fs
    → Gives d fs b
    → Gives (within label n >> d) fs b
Gives-within label n d {fs = fs} enough tail =
    Gives-bind (within label n) (λ _. d)
      (λ r rest i h.
        passed-Got (within label n)
          (within-passes label n r
            (omega (arith, enough, remaining-Reads i, length-append fs rest)))
          i h)
      tail

within_sixth-passes :
    (label : String) (n : ℕ) (r : FieldReader)
    → n ≤ remaining r / 6
    → within_sixth label n r ≡ (ok tt, r)
unfolding within_sixth
within_sixth-passes label n r h =
    let fits : ltb (remaining r / 6) n ≡ false = ground (arith, h) in rw fits refl

pub Gives-within_sixth :
    {B : Type 0} (label : String) (n : ℕ) (d : Decoder B) {b : B} {fs : List Bytes}
    → n * 6 ≤ length fs
    → Gives d fs b
    → Gives (within_sixth label n >> d) fs b
Gives-within_sixth label n d {fs = fs} enough tail =
    Gives-bind (within_sixth label n) (λ _. d)
      (λ r rest i h.
        passed-Got (within_sixth label n)
          (within_sixth-passes label n r
            (omega (arith, enough, remaining-Reads i, length-append fs rest)))
          i h)
      tail

-- The fields of a list of entries.
abbrev pub entries_fields : {A : Type 0} → (A → List Bytes) → List A → List Bytes
entries_fields fields_of [] = []
entries_fields fields_of (x ∷ xs) = fields_of x ++ entries_fields fields_of xs

repeated-Got :
    {A : Type 0} (d : Decoder A) (fields_of : A → List Bytes) (xs : List A) {gs : List Bytes}
    (r : FieldReader)
    → All (λ x. Gives d (fields_of x) x) xs
    → Reads r (entries_fields fields_of xs ++ gs)
    → r.err ≡ none
    → Got xs gs (repeated (length xs) d r)
unfolding repeated pure
repeated-Got d fields_of [] r g i h = record { value = refl; reads = i; no_err = h }
repeated-Got d fields_of (x ∷ xs) {gs} r g i h =
    bind_Got d _ r
      (g.0.run r (entries_fields fields_of xs ++ gs)
        (subst (Reads r) (append_assoc (fields_of x) (entries_fields fields_of xs) gs) i) h)
      (λ next j e.
        bind_Got (repeated (length xs) d) _ next (repeated-Got d fields_of xs next g.1 j e)
          (λ last k l. record { value = refl; reads = k; no_err = l }))

pub Gives-repeated :
    {A B : Type 0} (d : Decoder A) (fields_of : A → List Bytes) (k : List A → Decoder B) {b : B}
    {fs : List Bytes} {xs : List A}
    → All (λ x. Gives d (fields_of x) x) xs
    → Gives (k xs) fs b
    → Gives (repeated (length xs) d >>= k) (entries_fields fields_of xs ++ fs) b
Gives-repeated d fields_of k {fs = fs} {xs = xs} g tail =
    Gives-bind (repeated (length xs) d) k
      (λ r rest i h.
        repeated-Got d fields_of xs r g
          (subst (Reads r) (append_assoc (entries_fields fields_of xs) fs rest) i) h)
      tail

pub All-map {ℓ κ μ} :
    {A : Type ℓ} {P : A → Type κ} {Q : A → Type μ}
    → ((x : A) → P x → Q x)
    → (xs : List A) → All P xs
    → All Q xs
All-map f [] h = tt
All-map f (x ∷ xs) h = (f x h.0, All-map f xs h.1)

pub All-of_each {ℓ κ} : {A : Type ℓ} {P : A → Type κ} → ((x : A) → P x) → (xs : List A) → All P xs
All-of_each f [] = tt
All-of_each f (x ∷ xs) = (f x, All-of_each f xs)

-- A list of texts has one field for each.
pub texts-Gives : (fs : List Bytes) → All (λ f. Gives string (f ∷ []) f) fs
texts-Gives fs = All-of_each (λ f. record { run = λ r rest i h. string-Got f i h }) fs

pub length-texts : (fs : List Bytes) → length (entries_fields (λ f. f ∷ []) fs) ≡ length fs
length-texts [] = refl
length-texts (f ∷ fs) = omega (arith, length-texts fs)
