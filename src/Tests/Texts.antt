-- ===== src/Tests/Texts.antt =====
-- The functions on texts and durations.
use ldap_totp_nginx_auth.Prelude.{[], ◌∷◌, ◌++◌, lit, ◌≡◌, refl, arith, ok, ℤ, pos, ◌<ℤ◌}
use ldap_totp_nginx_auth.Utils.Time.{parse_duration_string, durations}
use ldap_totp_nginx_auth.Utils.Time.Parsing.{parse_duration_string_overflow}

parse_duration_string_overflow_example :
    (t : ℤ) × (parse_duration_string (lit "300" ++ b'y' ∷ []) ≡ ok t) × (t <ℤ pos 0)
unfolding durations
parse_duration_string_overflow_example =
    parse_duration_string_overflow (lit "300") b'y'
      (omega arith, omega arith, (refl, (refl, tt)), refl) (omega arith) (omega arith) (omega arith)
