-- ===== src/Configuration/Regulation.antt =====
-- validator/regulation.go: the times of the regulation.
use ldap_totp_nginx_auth.Prelude.{
  List, [], ◌++◌, lit, Bool, true, false, some, Result, ok, err, ℤ, pos, ltb_ℤ, ℕ, Bool-cases, ◌≡◌,
  refl, ◌↔◌, inl, inr,
}
use ldap_totp_nginx_auth.Utils.Time.{DurationError, parse_duration_string}
use ldap_totp_nginx_auth.Regulation.{
  RegulationConfiguration, Regulator, regulator_of, new_regulator,
}
use ldap_totp_nginx_auth.Configuration.{check, defaulted}

pub data RegulationError : Type 0 where
  bad_find_time bad_ban_time find_time_above_ban_time : RegulationError

-- What the result of the parser and its error are.
abbrev pub duration_of : Result DurationError ℤ → ℤ
duration_of (err e) = pos 0
duration_of (ok d) = d

abbrev pub is_bad : Result DurationError ℤ → Bool
is_bad (err e) = true
is_bad (ok d) = false

unfoldable pub regulation_defaults : RegulationConfiguration → RegulationConfiguration
regulation_defaults c = record c {
  find_time = defaulted c.find_time (lit "2m");
  ban_time = defaulted c.ban_time (lit "5m");
}

unfoldable pub regulation_errors :
    Result DurationError ℤ → Result DurationError ℤ → List RegulationError
regulation_errors find_time ban_time =
    check (is_bad find_time) bad_find_time
    ++ (check (is_bad ban_time) bad_ban_time
        ++ check (ltb_ℤ (duration_of ban_time) (duration_of find_time)) find_time_above_ban_time)

-- `ValidateRegulation`.
unfoldable pub validate_regulation :
    RegulationConfiguration → RegulationConfiguration × List RegulationError
validate_regulation c =
    let c' = regulation_defaults c in
    (c', regulation_errors (parse_duration_string c'.find_time) (parse_duration_string c'.ban_time))

regulator_of_iff :
    (max_retries : ℕ) (find_time ban_time : Result DurationError ℤ)
    → (regulation_errors find_time ban_time ≡ [])
      ↔ ((r : Regulator) × (regulator_of max_retries find_time ban_time ≡ some r))
unfolding regulation_errors regulator_of
regulator_of_iff max_retries (err e) ban_time = (λ h. absurd (cc h), λ (r, h). absurd (cc h))
regulator_of_iff max_retries (ok find_time) (err e) = (λ h. absurd (cc h), λ (r, h). absurd (cc h))
regulator_of_iff max_retries (ok find_time) (ok ban_time) =
    elim (Bool-cases (ltb_ℤ ban_time find_time)) [
      | inl above ↦ rw above (λ h. absurd (cc h), λ (r, h). absurd (cc h))
      | inr fits ↦ rw fits (λ h. (_, refl), λ h. refl)
    ]

-- The validator finds no error in the regulation exactly if a regulator can be made of it, both
-- with the defaults.
pub validate_regulation_iff :
    (c : RegulationConfiguration)
    → ((validate_regulation c).1 ≡ [])
      ↔ ((r : Regulator) × (new_regulator (some (validate_regulation c).0) ≡ some r))
unfolding validate_regulation new_regulator
validate_regulation_iff c = regulator_of_iff _ _ _
