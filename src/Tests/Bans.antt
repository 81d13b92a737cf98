-- ===== src/Tests/Bans.antt =====
-- John fails three times within two minutes.
use ldap_totp_nginx_auth.Prelude.{
  Text, List, [], ◌∷◌, lit, false, Option, none, some, ◌≡◌, ◌≢◌, refl, ◌↔◌, ℤ, pos, ◌-ℤ◌, arith,
  ltb_ℤ, if◌then◌else◌,
}
use ldap_totp_nginx_auth.Regulation.{
  AuthenticationAttempt, RegulationConfiguration, banned, panics, regulate, regulating,
}
use ldap_totp_nginx_auth.Regulation.Failures.{IsBruteForce, HasRoom}
use ldap_totp_nginx_auth.Regulation.Bans.{regulate_banned_iff, regulate_panics_iff}
use ldap_totp_nginx_auth.Tests.{three_in_two_minutes}

abbrev failure_at : ℤ → AuthenticationAttempt
failure_at time = record { username = lit "john"; successful = false; time = time }

abbrev three_failures : List AuthenticationAttempt
three_failures =
    failure_at (pos 1_000_000_000_000)
    ∷ failure_at (pos 990_000_000_000)
    ∷ failure_at (pos 980_000_000_000)
    ∷ []

-- A storage that gives the attempts that are later than the time it is asked for, if all are.
abbrev load : Text → ℤ → Option (List AuthenticationAttempt)
load username from = if ltb_ℤ from (pos 980_000_000_000) then some three_failures else some []

abbrev now : ℤ
now = pos 1_010_000_000_000

regulate_banned_iff_example :
    (regulate three_in_two_minutes load now (lit "john") ≡ banned (pos 1_300_000_000_000)) ↔ (
      (attempts : List AuthenticationAttempt) × (load (lit "john") (now -ℤ pos 300_000_000_000)
        ≡ some attempts)
      × HasRoom three_in_two_minutes
      × IsBruteForce three_in_two_minutes attempts (pos 1_300_000_000_000))
regulate_banned_iff_example =
    regulate_banned_iff three_in_two_minutes load now (lit "john") (pos 1_300_000_000_000) refl
      (omega arith)

abbrev two_minutes : RegulationConfiguration
two_minutes = record { max_retries = 3; find_time = lit "2m"; ban_time = lit "5m" }

regulate_panics_iff_example :
    (regulate three_in_two_minutes load now (lit "john") ≡ panics)
    ↔ ((load (lit "john") (now -ℤ pos 300_000_000_000) ≢ none) × ¬ HasRoom three_in_two_minutes)
unfolding regulating
regulate_panics_iff_example =
    regulate_panics_iff (some two_minutes) three_in_two_minutes load now (lit "john") refl
