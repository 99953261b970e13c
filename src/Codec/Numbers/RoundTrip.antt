-- ===== src/Codec/Numbers/RoundTrip.antt =====
-- Parsing what was printed.
use ibkr_go.Prelude.{
  ℕ, zero, suc, ◌+◌, ◌-◌, ◌*◌, ◌/◌, ◌%◌, ◌^◌, ◌≤◌, ◌<◌, ℤ, pos, negsuc, ◌≡◌, refl, sym, ap, ◌∙◌,
  subst, ◌≢◌, ◌⊎◌, inl, inr, true, false, some, [], ◌∷◌, ◌++◌, append_assoc, append-nil, arith, ltb,
  ◌==◌, lt→ltb, if_both, if_cases, length, length-append,
}
use ibkr_go.Wire.Fields.{Bytes}
use ibkr_go.Wire.Fields.RoundTrip.{NulFree}
use ibkr_go.Codec.Numbers.{parse_digits, parse_uint, signed, parse_int, digits, itoa}

-- 10 to the power of k
abbrev bound : ℕ → ℕ
bound zero = 1
bound (suc k) = 10 * bound k

parse_digits-snoc :
    (n : ℕ) (bs : Bytes) (d v : ℕ)
    → d < 10
    → parse_digits n bs ≡ some v
    → parse_digits n (bs ++ ((48 + d) ∷ [])) ≡ some (v * 10 + d)
unfolding parse_digits
parse_digits-snoc n [] d v h e = ground (arith, h, e)
parse_digits-snoc n (b ∷ bs) d v h e =
    ground (arith, h, e, parse_digits-snoc (n * 10 + (b - 48)) bs d v h)

parse_digits-digits : (k n : ℕ) → n < bound k → parse_digits 0 (digits k n) ≡ some n
unfolding parse_digits digits
parse_digits-digits zero n h = ap some (omega (arith, h))
parse_digits-digits (suc k) n h =
    let up =
      parse_digits-snoc 0 (digits k (n / 10)) (n % 10) (n / 10) (omega arith)
        (parse_digits-digits k (n / 10) (omega (arith, h))) in
    if_cases (λ bs. parse_digits 0 bs ≡ some n) (ltb n 10) (λ e. ground (arith, e))
      (λ e. up ∙ ap some (omega arith))

pub length-digits : (k n : ℕ) → (length (digits (suc k) n) == 0) ≡ false
unfolding digits
length-digits k n =
    if_cases (λ (bs : Bytes). (length bs == 0) ≡ false) (ltb n 10) (λ e. refl)
      (λ e. ground (arith, length-append (digits k (n / 10)) ((48 + n % 10) ∷ [])))

parse_uint-digits : (n : ℕ) → n < bound 20 → parse_uint (digits 20 n) ≡ some n
unfolding parse_uint
parse_uint-digits n h = rw (length-digits 19 n) (parse_digits-digits 20 n h)

-- The first byte of a number is a digit.
StartsWithDigit : Bytes → Type 0
StartsWithDigit [] = Unit
StartsWithDigit (b ∷ bs) = 48 ≤ b

-- The numbers of so many bits.
abbrev pub Fits : ℕ → ℤ → Type 0
Fits bits (pos n) = n < 2 ^ (bits - 1)
Fits bits (negsuc n) = n < 2 ^ (bits - 1)

StartsWithDigit-digits : (k n : ℕ) (bs : Bytes) → StartsWithDigit (digits (suc k) n ++ bs)
unfolding digits StartsWithDigit
StartsWithDigit-digits zero n bs =
    if_both (λ (ds : Bytes). StartsWithDigit (ds ++ bs)) (ltb n 10) (omega arith) (omega arith)
StartsWithDigit-digits (suc k) n bs =
    if_both (λ (ds : Bytes). StartsWithDigit (ds ++ bs)) (ltb n 10) (omega arith)
      (let e = append_assoc (digits (suc k) (n / 10)) ((48 + n % 10) ∷ []) bs in
        subst StartsWithDigit (sym e) (StartsWithDigit-digits k (n / 10) ((48 + n % 10) ∷ bs)))

parse_int-digit :
    (bits : ℕ) (bs : Bytes)
    → StartsWithDigit bs
    → parse_int bits bs ≡ signed bits false (parse_uint bs)
unfolding parse_int parse_uint StartsWithDigit
parse_int-digit bits [] h = refl
parse_int-digit bits (b ∷ bs) h = ground (arith, h)

parse_int-minus :
    (bits : ℕ) (bs : Bytes) → parse_int bits (45 ∷ bs) ≡ signed bits true (parse_uint bs)
unfolding parse_int
parse_int-minus bits bs = refl

Fits_pos : (bits n : ℕ) → (bits ≡ 32) ⊎ (bits ≡ 64) → n < 2 ^ (bits - 1) → n + 1 < bound 20
Fits_pos bits n (inl e) h = let h' = rw e at h in omega (arith, h')
Fits_pos bits n (inr e) h = let h' = rw e at h in omega (arith, h')

signed_pos : (bits n : ℕ) → n < 2 ^ (bits - 1) → signed bits false (some n) ≡ some (pos n)
signed_pos bits n h = rw (lt→ltb n (2 ^ (bits - 1)) h) refl

signed_negsuc :
    (bits n : ℕ) → n < 2 ^ (bits - 1) → signed bits true (some (n + 1)) ≡ some (negsuc n)
signed_negsuc bits n h = let e : n + 1 ≡ suc n = omega arith in rw e (ground (arith, h))

-- A number of 32 or 64 bits is what its decimal text parses to, in the range of as many bits.
pub parse_int-itoa :
    (bits : ℕ) (v : ℤ) → (bits ≡ 32) ⊎ (bits ≡ 64) → Fits bits v → parse_int bits (itoa v) ≡ some v
unfolding itoa
parse_int-itoa bits (pos n) b h =
    let small = Fits_pos bits n b h in
    parse_int-digit bits (digits 20 n)
      (subst StartsWithDigit (append-nil (digits 20 n)) (StartsWithDigit-digits 19 n []))
    ∙ ap (signed bits false) (parse_uint-digits n (omega (arith, small)))
    ∙ signed_pos bits n h
parse_int-itoa bits (negsuc n) b h =
    parse_int-minus bits (digits 20 (n + 1))
    ∙ ap (signed bits true) (parse_uint-digits (n + 1) (Fits_pos bits n b h))
    ∙ signed_negsuc bits n h

NulFree-snoc : (bs : Bytes) (b : ℕ) → NulFree bs → b ≢ 0 → NulFree (bs ++ (b ∷ []))
NulFree-snoc [] b h k = (k, tt)
NulFree-snoc (c ∷ bs) b h k = (h.0, NulFree-snoc bs b h.1 k)

NulFree-digits : (k n : ℕ) → NulFree (digits k n)
unfolding digits
NulFree-digits zero n = tt
NulFree-digits (suc k) n =
    if_both NulFree (ltb n 10) (ground arith, tt)
      (NulFree-snoc (digits k (n / 10)) (48 + n % 10) (NulFree-digits k (n / 10)) (ground arith))

pub NulFree-itoa : (v : ℤ) → NulFree (itoa v)
unfolding itoa
NulFree-itoa (pos n) = NulFree-digits 20 n
NulFree-itoa (negsuc n) = (ground arith, NulFree-digits 20 (n + 1))
