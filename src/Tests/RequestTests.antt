-- ===== src/Tests/RequestTests.antt =====
-- Durations of requests for historical data.
use ibkr_go.Prelude.{is_space, ℕ, pos, negsuc, ◌≡◌, refl, true, none, List, [], ◌∷◌, arith}
use ibkr_go.Requests.Durations.{
  historical_duration, seconds, minutes, hours, days, weeks, months, years, times, fields_from,
  is_valid, validate_historical_duration,
}
use ibkr_go.Requests.Durations.Laws.{CheckedAs, durations_checked}
use ibkr_go.Codec.Numbers.{digits, itoa, parse_int, parse_uint, parse_digits}

padded : is_valid (32 ∷ 43 ∷ 55 ∷ 9 ∷ 87 ∷ []) ≡ true
unfolding is_valid fields_from parse_int parse_uint parse_digits
padded = refl

two_minutes : minutes (pos 2) ≡ 49 ∷ 50 ∷ 48 ∷ 32 ∷ 83 ∷ []
unfolding minutes seconds times historical_duration itoa digits
two_minutes = refl

no_hours : validate_historical_duration (hours (pos 0)) ≡ validate_historical_duration []
unfolding hours seconds times historical_duration
no_hours = refl

three_days : validate_historical_duration (days (pos 3)) ≡ none
unfolding days historical_duration itoa digits validate_historical_duration is_valid fields_from
    is_space parse_int parse_uint parse_digits
three_days = refl

abbrev longer_units : List (List ℕ)
longer_units = weeks (pos 1) ∷ months (pos 1) ∷ years (pos 1) ∷ []

units_differ : longer_units ≡ (49 ∷ 32 ∷ 87 ∷ []) ∷ (49 ∷ 32 ∷ 77 ∷ []) ∷ (49 ∷ 32 ∷ 89 ∷ []) ∷ []
unfolding weeks months years historical_duration itoa digits
units_differ = refl

-- A negative number of minutes whose seconds leave 64 bits.
wrapped_minutes : times 60 (negsuc 153722867280912930) ≡ pos 9223372036854775756
unfolding times
wrapped_minutes = refl

durations_checked_example :
    CheckedAs (pos 2) (seconds (pos 2))
    × (CheckedAs (times 60 (pos 2)) (minutes (pos 2))
        × (CheckedAs (times 60 (times 60 (pos 2))) (hours (pos 2))
            × (CheckedAs (pos 2) (days (pos 2))
                × (CheckedAs (pos 2) (weeks (pos 2))
                    × (CheckedAs (pos 2) (months (pos 2)) × CheckedAs (pos 2) (years (pos 2)))))))
durations_checked_example = durations_checked (pos 2) (omega arith)
