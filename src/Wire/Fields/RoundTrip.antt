-- ===== src/Wire/Fields/RoundTrip.antt =====
-- Encoding and parsing of fields are inverse to one another.
use ibkr_go.Prelude.{
  ℕ, ◌≡◌, ◌≢◌, refl, sym, ap, ◌∙◌, inl, inr, true, false, List, [], ◌∷◌, ◌++◌, ◌==◌, if◌then◌else◌,
  ok, err, arith, All, append_assoc, Bool-cases,
}
use ibkr_go.Wire.Fields.{
  Bytes, malformed_frame, encode_fields, ends_in_nul, drop_last, split_nul, cons_head,
  head_is_empty, parse_fields,
}

-- A field holds no terminator.
abbrev pub NulFree : Bytes → Type 0
NulFree = All (λ (b : ℕ). b ≢ 0)

-- The part of `encode_fields` in front of its last terminator.
join_nul : Bytes → List Bytes → Bytes
join_nul f [] = f
join_nul f (g ∷ gs) = f ++ (0 ∷ join_nul g gs)

encode_fields-join :
    (f : Bytes) (fs : List Bytes) → encode_fields (f ∷ fs) ≡ join_nul f fs ++ (0 ∷ [])
unfolding encode_fields join_nul
encode_fields-join f [] = refl
encode_fields-join f (g ∷ gs) =
    ap (λ t. f ++ (0 ∷ t)) (encode_fields-join g gs)
    ∙ sym (append_assoc f (0 ∷ join_nul g gs) (0 ∷ []))

ends_in_nul-snoc : (bs : Bytes) → ends_in_nul (bs ++ (0 ∷ [])) ≡ true
unfolding ends_in_nul
ends_in_nul-snoc [] = refl
ends_in_nul-snoc (b ∷ []) = refl
ends_in_nul-snoc (b ∷ c ∷ bs) = ends_in_nul-snoc (c ∷ bs)

ends_in_nul-nil : ¬ (ends_in_nul [] ≡ true)
unfolding ends_in_nul
ends_in_nul-nil h = cc

drop_last-snoc : (bs : Bytes) → drop_last (bs ++ (0 ∷ [])) ≡ bs
unfolding drop_last
drop_last-snoc [] = refl
drop_last-snoc (b ∷ []) = refl
drop_last-snoc (b ∷ c ∷ bs) = ap (◌∷◌ b) (drop_last-snoc (c ∷ bs))

split_nul-free : (f : Bytes) → NulFree f → split_nul f ≡ f ∷ []
unfolding split_nul
split_nul-free [] h = refl
split_nul-free (b ∷ f) h = ground (arith, split_nul-free f h.1)

split_nul-append : (f bs : Bytes) → NulFree f → split_nul (f ++ (0 ∷ bs)) ≡ f ∷ split_nul bs
unfolding split_nul
split_nul-append [] bs h = refl
split_nul-append (b ∷ f) bs h = ground (arith, split_nul-append f bs h.1)

split_nul-join :
    (f : Bytes) (fs : List Bytes) → NulFree f → All NulFree fs → split_nul (join_nul f fs) ≡ f ∷ fs
unfolding join_nul
split_nul-join f [] h hs = split_nul-free f h
split_nul-join f (g ∷ gs) h hs =
    split_nul-append f (join_nul g gs) h ∙ ap (◌∷◌ f) (split_nul-join g gs hs.0 hs.1)

parse_fields-ends :
    (p : Bytes)
    → ends_in_nul p ≡ true
    → parse_fields p ≡ (
        if head_is_empty (split_nul (drop_last p))
        then err malformed_frame
        else ok (split_nul (drop_last p)))
unfolding parse_fields
parse_fields-ends [] h = absurd (ends_in_nul-nil h)
parse_fields-ends (b ∷ bs) h = rw h

-- A list of NUL-free fields whose first field is not empty is what its encoding parses to.
pub parse_fields-encode_fields :
    (f : Bytes) (fs : List Bytes)
    → f ≢ []
    → NulFree f
    → All NulFree fs
    → parse_fields (encode_fields (f ∷ fs)) ≡ ok (f ∷ fs)
parse_fields-encode_fields [] fs ne h hs = absurd (ne refl)
parse_fields-encode_fields (b ∷ f) fs ne h hs =
    let p = join_nul (b ∷ f) fs in
    rw (encode_fields-join (b ∷ f) fs) (
      parse_fields-ends (p ++ (0 ∷ [])) (ends_in_nul-snoc p)
      ∙ rw (drop_last-snoc p, split_nul-join (b ∷ f) fs h hs) refl)

encode_fields-cons_head :
    (b : ℕ) (ps : List Bytes) → ps ≢ [] → encode_fields (cons_head b ps) ≡ b ∷ encode_fields ps
unfolding encode_fields
encode_fields-cons_head b [] h = absurd (h refl)
encode_fields-cons_head b (p ∷ ps) h = refl

split_nul-ne-nil : (bs : Bytes) → split_nul bs ≢ []
unfolding split_nul
split_nul-ne-nil [] e = cc
split_nul-ne-nil (b ∷ bs) e = ground arith

encode_fields-split_nul : (bs : Bytes) → encode_fields (split_nul bs) ≡ bs ++ (0 ∷ [])
unfolding split_nul encode_fields
encode_fields-split_nul [] = refl
encode_fields-split_nul (b ∷ bs) = ground (
  arith,
  encode_fields-split_nul bs,
  encode_fields-cons_head b (split_nul bs) (split_nul-ne-nil bs),
)

cons_head-NulFree :
    (b : ℕ) (ps : List Bytes) → b ≢ 0 → All NulFree ps → All NulFree (cons_head b ps)
cons_head-NulFree b [] h hs = ((h, tt), tt)
cons_head-NulFree b (p ∷ ps) h hs = ((h, hs.0), hs.1)

split_nul-NulFree : (bs : Bytes) → All NulFree (split_nul bs)
unfolding split_nul
split_nul-NulFree [] = (tt, tt)
split_nul-NulFree (b ∷ bs) = elim (Bool-cases (b == 0)) [
  | inl e ↦ rw e (tt, split_nul-NulFree bs)
  | inr e ↦ rw e (cons_head-NulFree b (split_nul bs) (ground arith) (split_nul-NulFree bs))
]

drop_last-append : (p : Bytes) → ends_in_nul p ≡ true → drop_last p ++ (0 ∷ []) ≡ p
unfolding drop_last ends_in_nul
drop_last-append [] h = cc
drop_last-append (b ∷ []) h = ground arith
drop_last-append (b ∷ c ∷ bs) h = ap (◌∷◌ b) (drop_last-append (c ∷ bs) h)

parse_fields-eq-ok :
    (p : Bytes) (fs : List Bytes)
    → parse_fields p ≡ ok fs
    → (ends_in_nul p ≡ true) × (split_nul (drop_last p) ≡ fs) × (head_is_empty fs ≡ false)
unfolding parse_fields
parse_fields-eq-ok [] fs h = cc
parse_fields-eq-ok (b ∷ bs) fs h = ground arith

-- What parses is the encoding of the fields it parses to, so no two payloads parse alike; the
-- fields are NUL-free and the first is not empty.
pub encode_fields-parse_fields :
    (p : Bytes) (fs : List Bytes)
    → parse_fields p ≡ ok fs
    → (encode_fields fs ≡ p) × All NulFree fs × (head_is_empty fs ≡ false)
encode_fields-parse_fields p fs h =
    let (ends, parts, first) = parse_fields-eq-ok p fs h in
    rw (← parts) (
      encode_fields-split_nul (drop_last p) ∙ drop_last-append p ends,
      split_nul-NulFree (drop_last p),
      rw parts first,
    )

-- An encoding with a field ends in a terminator.
pub ends_in_nul-encode_fields :
    (f : Bytes) (fs : List Bytes) → ends_in_nul (encode_fields (f ∷ fs)) ≡ true
ends_in_nul-encode_fields f fs =
    ap ends_in_nul (encode_fields-join f fs) ∙ ends_in_nul-snoc (join_nul f fs)
