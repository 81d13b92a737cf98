-- ===== src/Utils/Time/Parsing.antt =====
-- What a duration means: the texts that the pattern takes, and the values that they get.
use ldap_totp_nginx_auth.Prelude.{
  Text, [], ◌∷◌, ◌++◌, true, false, ℕ, ◌*◌, ◌<◌, ◌≤◌, ◌^◌, Option, none, some, ℤ, pos, to_int64,
  to_int64_small, to_int64_negative, ◌<ℤ◌, ok, All, ◌≡◌, refl, ap, inl, inr, ◌↔◌, arith, leb, ltb,
  Bool-cases, ◌&&◌, &&-eq-true_iff, is_empty,
}
use ldap_totp_nginx_auth.Utils.Time.{
  is_digit, is_unit, with_digit, match_rest, find_submatch, decimal_from, atoi, unit_duration,
  parse_matches, parse_duration_string,
}

abbrev pub IsDigits : Text → Type 0
IsDigits = All (λ c. is_digit c ≡ true)

-- Nothing, or one of the letters.
abbrev pub IsUnit : Text → Type 0
IsUnit [] = Unit
IsUnit (c ∷ []) = is_unit c ≡ true
IsUnit (c ∷ d ∷ s) = ⊥

-- A number without leading zeros, then perhaps a unit.
abbrev pub IsDuration : Text → Text → Type 0
IsDuration [] unit = ⊥
IsDuration (c ∷ digits) unit = (b'1' ≤ c) × (c ≤ b'9') × IsDigits digits × IsUnit unit

with_digit-eq-some :
    (c : ℕ) (o : Option (Text × Text)) (d u : Text)
    → with_digit c o ≡ some (d, u)
    → (digits : Text) × (o ≡ some (digits, u)) × (d ≡ c ∷ digits)
with_digit-eq-some c none d u e = cc
with_digit-eq-some c (some (digits, unit)) d u e = (digits, ground arith, ground arith)

match_last :
    (c : ℕ) (s d u : Text)
    → ◌≡◌ {A = Option (Text × Text)} (some ([], c ∷ [])) (some (d, u))
    → (is_unit c ≡ true) × (is_empty s ≡ true)
    → (c ∷ s ≡ d ++ u) × IsDigits d × IsUnit u
match_last c [] d u e (unit, last) =
    let no_digits : d ≡ [] = ground arith in
    let one_unit : u ≡ c ∷ [] = ground arith in rw (no_digits, one_unit) (refl, tt, unit)
match_last c (b ∷ s) d u e (unit, last) = absurd (cc last)

match_rest_sound :
    (s d u : Text) → match_rest s ≡ some (d, u) → (s ≡ d ++ u) × IsDigits d × IsUnit u
unfolding match_rest
match_rest_sound [] d u e = ground arith
match_rest_sound (c ∷ s) d u e = elim (Bool-cases (is_digit c)) [
  | inl digit ↦
      let (digits, matched, same) = with_digit-eq-some c (match_rest s) d u (rw digit at e) in
      let (split, all, unit) = match_rest_sound s digits u matched in
      rw same (ap (λ t. c ∷ t) split, (digit, all), unit)
  | inr other ↦ elim (Bool-cases (is_unit c && is_empty s)) [
    | inl last ↦ match_last c s d u (rw (other, last) at e) ((&&-eq-true_iff _ _).0 last)
    | inr more ↦ absurd (cc (rw (other, more) at e))
  ]
]

-- The matcher finds every split of the pattern.
unit_not_digit : (c : ℕ) → is_unit c ≡ true → is_digit c ≡ false
unfolding is_unit is_digit
unit_not_digit c h = ground arith

match_rest_complete : (d u : Text) → IsDigits d → IsUnit u → match_rest (d ++ u) ≡ some (d, u)
unfolding match_rest
match_rest_complete [] [] h k = refl
match_rest_complete [] (c ∷ []) h k = rw (unit_not_digit c k, k)
match_rest_complete [] (c ∷ d ∷ s) h k = absurd k
match_rest_complete (c ∷ d) u (digit, h) k = rw (digit, match_rest_complete d u h k)

find_submatch_sound : (s d u : Text) → find_submatch s ≡ some (d, u) → (s ≡ d ++ u) × IsDuration d u
unfolding find_submatch
find_submatch_sound [] d u e = cc
find_submatch_sound (c ∷ s) d u e = elim (Bool-cases (leb b'1' c && leb c b'9')) [
  | inl first ↦
      let (digits, matched, same) = with_digit-eq-some c (match_rest s) d u (rw first at e) in
      let (split, all, unit) = match_rest_sound s digits u matched in
      rw same (ap (λ t. c ∷ t) split, (ground arith, ground arith, all, unit))
  | inr other ↦ absurd (cc (rw other at e))
]

find_submatch_complete : (d u : Text) → IsDuration d u → find_submatch (d ++ u) ≡ some (d, u)
unfolding find_submatch
find_submatch_complete [] u h = absurd h
find_submatch_complete (c ∷ d) u (low, high, digits, unit) =
    let first : (leb b'1' c && leb c b'9') ≡ true = ground arith in
    rw (first, match_rest_complete d u digits unit)

-- The search for a duration finds a number and a unit exactly if the text is the two and they are
-- a number without leading zeros and a unit or nothing.
pub find_submatch_iff :
    (s d u : Text) → (find_submatch s ≡ some (d, u)) ↔ ((s ≡ d ++ u) × IsDuration d u)
find_submatch_iff s d u = (find_submatch_sound s d u, λ (e, h). rw e (find_submatch_complete d u h))

unit_duration-pos : (c : ℕ) → is_unit c ≡ true → 1 ≤ unit_duration c
unfolding is_unit unit_duration
unit_duration-pos c h = ground arith

le-mul_pos : (n k : ℕ) → 1 ≤ k → n ≤ n * k
le-mul_pos n k h = grind arith

IsDuration-unit : (d : Text) (c : ℕ) → IsDuration d (c ∷ []) → is_unit c ≡ true
IsDuration-unit [] c h = absurd h
IsDuration-unit (b ∷ d) c (_, _, _, h) = h

parse_duration_string-eq :
    (d : Text) (c : ℕ)
    → IsDuration d (c ∷ [])
    → decimal_from 0 d < 2 ^ 63
    → parse_duration_string (d ++ c ∷ []) ≡ ok (to_int64 (decimal_from 0 d * unit_duration c))
unfolding parse_duration_string parse_matches atoi
parse_duration_string-eq d c h small =
    let matched = (find_submatch_iff (d ++ c ∷ []) d (c ∷ [])).1 (refl, h) in
    let in_range : ltb (decimal_from 0 d) (2 ^ 63) ≡ true = ground arith in rw (matched, in_range)

-- A number with a unit means that many of the unit, where the product fits into an int64.
pub parse_duration_string-units :
    (d : Text) (c : ℕ)
    → IsDuration d (c ∷ [])
    → decimal_from 0 d * unit_duration c < 2 ^ 63
    → parse_duration_string (d ++ c ∷ []) ≡ ok (pos (decimal_from 0 d * unit_duration c))
parse_duration_string-units d c h fits =
    let positive = unit_duration-pos c (IsDuration-unit d c h) in
    let small : decimal_from 0 d < 2 ^ 63 =
      omega (arith, le-mul_pos (decimal_from 0 d) (unit_duration c) positive) in
    rw (parse_duration_string-eq d c h small, to_int64_small _ fits)

-- A number that fits into an int64, with a unit, becomes a negative duration without an error
-- where the product lies between 2^63 and 2^64.
pub parse_duration_string_overflow :
    (d : Text) (c : ℕ)
    → IsDuration d (c ∷ [])
    → decimal_from 0 d < 2 ^ 63
    → 2 ^ 63 ≤ decimal_from 0 d * unit_duration c
    → decimal_from 0 d * unit_duration c < 2 ^ 64
    → (t : ℤ) × (parse_duration_string (d ++ c ∷ []) ≡ ok t) × (t <ℤ pos 0)
parse_duration_string_overflow d c h small low high =
    (_, parse_duration_string-eq d c h small, to_int64_negative _ low high)
