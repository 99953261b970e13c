-- ===== src/Requests/Durations.antt =====
-- types_marketdata.go, historical_validation.go and requests.go: the look-back window of a request for
-- historical data. A text is the list of its code points, `unit` the one letter of a time unit. An int
-- has 64 bits.
pub mod Laws
use ibkr_go.Prelude.{
  ℕ, zero, suc, ◌+◌, ◌-◌, ◌*◌, ◌%◌, ◌^◌, ℤ, pos, negsuc, String, Bool, true, false, not, ◌&&◌, ◌||◌,
  Option, none, some, List, [], ◌∷◌, ◌++◌, ltb, ◌==◌, if◌then◌else◌, length, all, ◌>>◌, reject,
  is_space,
}
use ibkr_go.Codec.Numbers.{parse_int, itoa}

abbrev pub HistoricalDuration : Type 0
HistoricalDuration = List ℕ

abbrev pub is_positive : ℤ → Bool
is_positive (pos zero) = false
is_positive (pos (suc n)) = true
is_positive (negsuc n) = false

-- The int with these 64 bits.
abbrev pub from_word : ℕ → ℤ
from_word r = if ltb r (2 ^ 63) then pos r else negsuc (2 ^ 64 - 1 - r)

-- n * k, which wraps around
unfoldable pub times : ℕ → ℤ → ℤ
times k (pos n) = from_word (n * k % 2 ^ 64)
times k (negsuc n) = from_word ((2 ^ 64 - (n + 1) * k % 2 ^ 64) % 2 ^ 64)

-- fmt.Sprintf("%d %s", n, unit)
unfoldable pub historical_duration : ℤ → ℕ → HistoricalDuration
historical_duration n unit = if is_positive n then itoa n ++ (32 ∷ unit ∷ []) else []

unfoldable pub seconds : ℤ → HistoricalDuration
seconds n = historical_duration n 83

unfoldable pub minutes : ℤ → HistoricalDuration
unfolding seconds
minutes n = seconds (times 60 n)

unfoldable pub hours : ℤ → HistoricalDuration
unfolding seconds
hours n = seconds (times 60 (times 60 n))

unfoldable pub days : ℤ → HistoricalDuration
days n = historical_duration n 68

unfoldable pub weeks : ℤ → HistoricalDuration
weeks n = historical_duration n 87

unfoldable pub months : ℤ → HistoricalDuration
months n = historical_duration n 77

unfoldable pub years : ℤ → HistoricalDuration
years n = historical_duration n 89

-- strings.Fields, with the word that is being read
unfoldable pub fields_from : List ℕ → List ℕ → List (List ℕ)
unfolding is_space
fields_from word [] = if length word == 0 then [] else word ∷ []
fields_from word (c ∷ cs) =
    let next = fields_from [] cs in
    let longer = fields_from (word ++ (c ∷ [])) cs in
    if is_space c then (if length word == 0 then next else word ∷ next) else longer

abbrev pub is_unit : List ℕ → Bool
is_unit (c ∷ []) = (c == 83) || ((c == 68) || ((c == 87) || ((c == 77) || (c == 89))))
is_unit _ = false

abbrev pub is_positive_count : Option ℤ → Bool
is_positive_count none = false
is_positive_count (some n) = is_positive n

abbrev pub valid_parts : List (List ℕ) → Bool
valid_parts (count ∷ unit ∷ []) = is_positive_count (parse_int 64 count) && is_unit unit
valid_parts _ = false

unfoldable pub is_valid : HistoricalDuration → Bool
unfolding fields_from
is_valid d = valid_parts (fields_from [] d)

pub record DurationError : Type 0 where
  pub field : String
  pub value : HistoricalDuration
  pub message : String

unfoldable pub validate_historical_duration : HistoricalDuration → Option DurationError
unfolding is_valid
validate_historical_duration d =
    reject (all is_space d) (record { field = "Duration"; value = d; message = "must be positive" })
    >> reject (not (is_valid d))
        (record { field = "Duration"; value = d; message = "must match N S|D|W|M|Y" })
