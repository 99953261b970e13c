-- ===== src/Requests/Durations/Laws.antt =====
-- The durations that the constructors make, and the check of a request.
use ibkr_go.Prelude.{
  ℕ, zero, suc, ◌+◌, ◌-◌, ◌*◌, ◌/◌, ◌%◌, ◌^◌, ◌<◌, ℤ, pos, negsuc, ◌≡◌, refl, sym, ap, ◌∙◌, subst,
  inr, true, false, ◌&&◌, none, some, List, [], ◌∷◌, ◌++◌, append_assoc, append-nil, arith, ltb,
  ◌==◌, if◌then◌else◌, if_cases, length, all, is_space,
}
use ibkr_go.Codec.Numbers.{digits, itoa}
use ibkr_go.Codec.Numbers.RoundTrip.{Fits, length-digits, parse_int-itoa}
use ibkr_go.Requests.Durations.{
  HistoricalDuration, is_positive, times, historical_duration, seconds, minutes, hours, days, weeks,
  months, years, fields_from, is_unit, is_positive_count, valid_parts, is_valid,
  validate_historical_duration, from_word,
}

-- A text without white space.
Solid : List ℕ → Type 0
Solid [] = Unit
Solid (c ∷ cs) = (is_space c ≡ false) × Solid cs

Solid-snoc : (w : List ℕ) (c : ℕ) → Solid w → is_space c ≡ false → Solid (w ++ (c ∷ []))
unfolding Solid
Solid-snoc [] c h k = (k, tt)
Solid-snoc (b ∷ w) c h k = (h.0, Solid-snoc w c h.1 k)

is_space-digit : (d : ℕ) → d < 10 → is_space (48 + d) ≡ false
unfolding is_space
is_space-digit d h = ground (arith, h)

Solid-digits : (k n : ℕ) → Solid (digits k n)
unfolding digits Solid
Solid-digits zero n = tt
Solid-digits (suc k) n =
    if_cases Solid (ltb n 10) (λ e. (is_space-digit n (ground (arith, e)), tt))
      (λ e.
        Solid-snoc (digits k (n / 10)) (48 + n % 10) (Solid-digits k (n / 10))
          (is_space-digit (n % 10) (omega arith)))

fields_from-unit :
    (w s : List ℕ) (u : ℕ)
    → Solid s
    → is_space u ≡ false
    → (length (w ++ s) == 0) ≡ false
    → fields_from w (s ++ (32 ∷ u ∷ [])) ≡ (w ++ s) ∷ (u ∷ []) ∷ []
unfolding fields_from Solid is_space
fields_from-unit w [] u h k e =
    let e' = rw (append-nil w) at e in rw k (rw e' (rw (append-nil w) refl))
fields_from-unit w (c ∷ s) u h k e =
    let joined = append_assoc w (c ∷ []) s in
    let full = subst (λ (t : List ℕ). (length t == 0) ≡ false) (sym joined) e in
    rw h.0 (
      fields_from-unit (w ++ (c ∷ [])) s u h.1 k full
      ∙ ap (λ (t : List ℕ). t ∷ (u ∷ []) ∷ []) joined)

all-Solid : (w r : List ℕ) → Solid w → (length w == 0) ≡ false → all is_space (w ++ r) ≡ false
unfolding Solid
all-Solid [] r h k = ground (arith, k)
all-Solid (c ∷ w) r h k = rw h.0 refl

is_space-is_unit : (u : ℕ) → is_unit (u ∷ []) ≡ true → is_space u ≡ false
unfolding is_space
is_space-is_unit u h = ground (arith, h)

historical_duration-is_valid :
    (n u : ℕ)
    → Fits 64 (pos (suc n))
    → is_unit (u ∷ []) ≡ true
    → is_valid (historical_duration (pos (suc n)) u) ≡ true
unfolding is_valid historical_duration itoa
historical_duration-is_valid n u fits unit =
    let parts =
      fields_from-unit [] (digits 20 (suc n)) u (Solid-digits 20 (suc n)) (is_space-is_unit u unit)
        (length-digits 19 (suc n)) in
    let count = parse_int-itoa 64 (pos (suc n)) (inr refl) fits in
    ap valid_parts parts ∙ ap (λ c. is_positive_count c && is_unit (u ∷ [])) count ∙ unit

validate_historical_duration-none :
    (d : HistoricalDuration)
    → all is_space d ≡ false
    → is_valid d ≡ true
    → validate_historical_duration d ≡ none
unfolding validate_historical_duration
validate_historical_duration-none d h k = rw h (rw k refl)

-- The answer to a duration of n units.
abbrev pub CheckedAs : ℤ → HistoricalDuration → Type 0
CheckedAs n d = validate_historical_duration d ≡ (
    if is_positive n
    then none
    else some (record { field = "Duration"; value = []; message = "must be positive" }))

historical_duration-CheckedAs :
    (n : ℤ) (u : ℕ) → Fits 64 n → is_unit (u ∷ []) ≡ true → CheckedAs n (historical_duration n u)
unfolding validate_historical_duration historical_duration is_valid itoa
historical_duration-CheckedAs (pos zero) u fits unit = refl
historical_duration-CheckedAs (negsuc n) u fits unit = refl
historical_duration-CheckedAs (pos (suc n)) u fits unit =
    validate_historical_duration-none (digits 20 (suc n) ++ (32 ∷ u ∷ []))
      (all-Solid (digits 20 (suc n)) (32 ∷ u ∷ []) (Solid-digits 20 (suc n))
        (length-digits 19 (suc n)))
      (historical_duration-is_valid n u fits unit)

from_word-Fits : (r : ℕ) → r < 2 ^ 64 → Fits 64 (from_word r)
from_word-Fits r h =
    if_cases (Fits 64) (ltb r (2 ^ 63)) (λ e. ground (arith, e)) (λ e. ground (arith, h, e))

times-Fits : (k : ℕ) (n : ℤ) → Fits 64 (times k n)
unfolding times
times-Fits k (pos n) = from_word-Fits (n * k % 2 ^ 64) (omega arith)
times-Fits k (negsuc n) = from_word-Fits ((2 ^ 64 - (n + 1) * k % 2 ^ 64) % 2 ^ 64) (omega arith)

-- For every 64-bit count: a duration that Seconds, Days, Weeks, Months or Years makes of it
-- passes the check of a request exactly if the count is positive, and so do those of Minutes and
-- Hours, of the number of seconds in 64 bits, which wraps around; every other one is the empty
-- duration, refused as not positive.
pub durations_checked :
    (n : ℤ)
    → Fits 64 n
    → CheckedAs n (seconds n)
      × (CheckedAs (times 60 n) (minutes n)
          × (CheckedAs (times 60 (times 60 n)) (hours n)
              × (CheckedAs n (days n)
                  × (CheckedAs n (weeks n) × (CheckedAs n (months n) × CheckedAs n (years n))))))
unfolding seconds minutes hours days weeks months years
durations_checked n h =
    let checked = λ (m : ℤ) (f : Fits 64 m). historical_duration-CheckedAs m 83 f refl in
    (
      checked n h,
      (
        checked (times 60 n) (times-Fits 60 n),
        (
          checked (times 60 (times 60 n)) (times-Fits 60 (times 60 n)),
          (
            historical_duration-CheckedAs n 68 h refl,
            (
              historical_duration-CheckedAs n 87 h refl,
              (
                historical_duration-CheckedAs n 77 h refl,
                historical_duration-CheckedAs n 89 h refl,
              ),
            ),
          ),
        ),
      ),
    )
