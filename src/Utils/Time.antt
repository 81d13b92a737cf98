-- ===== src/Utils/Time.antt =====
-- internal/utils/time.go and the constants of const.go: durations written as a number and a unit.
pub mod Parsing
use ldap_totp_nginx_auth.Prelude.{
  Text, [], ◌∷◌, ◌++◌, ◌==◌, lit, Bool, true, false, ℕ, ◌*◌, ◌+◌, ◌-◌, ◌/◌, ◌^◌, ltb, leb, eqb,
  ◌&&◌, ◌||◌, if◌then◌else◌, is_empty, Option, none, some, ℤ, pos, to_int64, Result, ok, err,
}

-- `time.Duration` counts nanoseconds.
abbrev pub second : ℕ
second = 1_000_000_000

abbrev pub minute : ℕ
minute = second * 60

abbrev pub hour : ℕ
hour = minute * 60

abbrev pub day : ℕ
day = hour * 24

abbrev pub week : ℕ
week = day * 7

abbrev pub year : ℕ
year = day * 365

abbrev pub month : ℕ
month = year / 12

unfoldable pub is_digit : ℕ → Bool
is_digit c = leb b'0' c && leb c b'9'

-- The class `[smhdwMy]`.
unfoldable pub is_unit : ℕ → Bool
is_unit c =
    eqb c b's' || eqb c b'm' || eqb c b'h' || eqb c b'd' || eqb c b'w' || eqb c b'M' || eqb c b'y'

abbrev pub with_digit : ℕ → Option (Text × Text) → Option (Text × Text)
with_digit c none = none
with_digit c (some (digits, unit)) = some (c ∷ digits, unit)

-- `\d*?([smhdwMy])?$`, with its two submatches.
unfoldable pub match_rest : Text → Option (Text × Text)
match_rest [] = some ([], [])
match_rest (c ∷ s) =
    let longer = with_digit c (match_rest s) in
    if is_digit c then longer else if is_unit c && is_empty s then some ([], c ∷ []) else none

-- `parseDurationRegexp.FindStringSubmatch`: the pattern is `^([1-9]\d*?)([smhdwMy])?$`.
unfoldable pub find_submatch : Text → Option (Text × Text)
find_submatch [] = none
find_submatch (c ∷ s) = if leb b'1' c && leb c b'9' then with_digit c (match_rest s) else none

-- The number that a string of digits writes.
unfoldable pub decimal_from : ℕ → Text → ℕ
decimal_from n [] = n
decimal_from n (c ∷ s) = decimal_from (n * 10 + (c - b'0')) s

-- `strconv.Atoi` of a string of digits: out of the range of `int` it returns the largest `int`
-- and an error.
unfoldable pub atoi : Text → ℕ × Bool
atoi s = let n = decimal_from 0 s in if ltb n (2 ^ 63) then (n, true) else (2 ^ 63 - 1, false)

-- The `switch` on the unit; a unit that no case names leaves the duration at 0.
unfoldable pub unit_duration : ℕ → ℕ
unit_duration c =
    if eqb c b'y'
    then year
    else if eqb c b'M'
    then month
    else if eqb c b'w'
    then week
    else if eqb c b'd'
    then day
    else if eqb c b'h'
    then hour
    else if eqb c b'm'
    then minute
    else if eqb c b's'
    then second
    else 0

pub data DurationError : Type 0 where
  not_a_number malformed : DurationError

unfoldable pub parse_seconds : Text → Result DurationError ℤ
parse_seconds input =
    let (seconds, converted) = atoi input in
    if converted then ok (to_int64 (seconds * second)) else err not_a_number

-- The `switch` of `ParseDurationString`; the error of `Atoi` is dropped where there is a unit.
unfoldable pub parse_matches : Text → Option (Text × Text) → Result DurationError ℤ
parse_matches input (some (digits, c ∷ _)) = ok (to_int64 ((atoi digits).0 * unit_duration c))
parse_matches input (some (digits, [])) = parse_seconds input
parse_matches input none =
    if input == lit "0"
    then parse_seconds input
    else if input == []
    then ok (pos 0)
    else err malformed

unfoldable pub parse_duration_string : Text → Result DurationError ℤ
parse_duration_string input = parse_matches input (find_submatch input)

-- What a test of the parser computes with.
unfoldable pub durations : Unit {0}
unfolding is_digit is_unit match_rest find_submatch decimal_from atoi unit_duration parse_seconds
    parse_matches parse_duration_string ◌==◌ lit to_int64
durations = tt
