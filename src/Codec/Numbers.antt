-- ===== src/Codec/Numbers.antt =====
-- strconv.Itoa, FormatInt and ParseInt in base 10, as internal/codec uses them. Atoi is ParseInt
-- of 64 bits. An error is `none`.
pub mod RoundTrip
use ibkr_go.Prelude.{
  ℕ, zero, suc, ◌+◌, ◌-◌, ◌*◌, ◌/◌, ◌%◌, ◌^◌, ◌≤◌, ◌<◌, max, ℤ, pos, negsuc, ltz, is_negative,
  int_eq, int_eq-eq, String, string_append, ◌≡◌, refl, sym, ap, fun_ext, ◌∙◌, subst, ◌≢◌, ◌↔◌, ◌⊎◌,
  inl, inr, Bool, true, false, not, ◌&&◌, ◌||◌, Option, none, some, List, [], ◌∷◌, ◌++◌, map,
  append_assoc, append-nil, arith, ltb, leb, ◌==◌, if◌then◌else◌, ltb→lt, lt→ltb, le→ltb, ==_iff,
  Bool-cases, Option-cases, if_both, if_cases, or_else_both, Memᴰ, any-mem, all-mem, length, take,
  drop, length-append, take-append-drop, length-take, length-drop, take-append_left,
  drop-append_left, all, any, All, Result, ok, err, ◌>>◌, reject, is_space, trim_space, is_empty,
  is_blank, is_one_of, is_blank-is_empty, is_one_of-mem, str_eq, eq_iff,
}
use ibkr_go.Wire.Fields.{Bytes}

abbrev pub is_digit : ℕ → Bool
is_digit b = leb 48 b && leb b 57

-- The loop over the digits, with the number read so far.
unfoldable pub parse_digits : ℕ → Bytes → Option ℕ
parse_digits n [] = some n
parse_digits n (b ∷ bs) =
    let rest = parse_digits (n * 10 + (b - 48)) bs in if is_digit b then rest else none

unfoldable pub parse_uint : Bytes → Option ℕ
unfolding parse_digits
parse_uint bs = if length bs == 0 then none else parse_digits 0 bs

abbrev pub negated : ℕ → ℤ
negated zero = pos zero
negated (suc n) = negsuc n

-- The range of a number of so many bits.
abbrev pub signed : ℕ → Bool → Option ℕ → Option ℤ
signed bits is_minus none = none
signed bits false (some n) = if ltb n (2 ^ (bits - 1)) then some (pos n) else none
signed bits true (some n) = if leb n (2 ^ (bits - 1)) then some (negated n) else none

unfoldable pub parse_int : ℕ → Bytes → Option ℤ
unfolding parse_uint
parse_int bits [] = none
parse_int bits (b ∷ bs) =
    if b == 45
    then signed bits true (parse_uint bs)
    else (if b == 43
        then signed bits false (parse_uint bs)
        else signed bits false (parse_uint (b ∷ bs)))

-- The digits of a number of at most so many digits.
unfoldable pub digits : ℕ → ℕ → Bytes
digits zero n = []
digits (suc k) n =
    let front = digits k (n / 10) in
    if ltb n 10 then (48 + n) ∷ [] else front ++ ((48 + n % 10) ∷ [])

-- A 64-bit number has 19 digits at most.
unfoldable pub itoa : ℤ → Bytes
itoa (pos n) = digits 20 n
itoa (negsuc n) = 45 ∷ digits 20 (n + 1)
