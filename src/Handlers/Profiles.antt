-- ===== src/Handlers/Profiles.antt =====
-- handler_verify.go: keeping the details of a user in the session up to date with the backend.
use ldap_totp_nginx_auth.Prelude.{
  if◌then◌else◌, Text, List, [], ◌==◌, lit, Bool, true, false, not, ◌||◌, ℕ, ◌/◌, Option, none,
  some, Result, ok, err, ℤ, pos, negsuc, ◌+ℤ◌, ◌-ℤ◌, ltb_ℤ, suc,
}
use ldap_totp_nginx_auth.Utils.Strings.{is_string_slices_different, strings}
use ldap_totp_nginx_auth.Utils.Time.{DurationError, parse_duration_string, durations}
use ldap_totp_nginx_auth.Authentication.{UserDetails}
use ldap_totp_nginx_auth.Session.{UserSession, unix}
use ldap_totp_nginx_auth.Middlewares.{
  UserError, other_error, Call, Env, Handler, pure, perform, ◌>>=◌,
}
use ldap_totp_nginx_auth.Middlewares.Context.{save_session}

-- `int64(d.Seconds())`, rounded towards 0.
unfoldable pub whole_seconds : ℤ → ℤ
whole_seconds (pos n) = pos (n / 1_000_000_000)
whole_seconds (negsuc n) = pos 0 -ℤ pos (suc n / 1_000_000_000)

abbrev pub is_zero : ℤ → Bool
is_zero (pos ℕ.zero) = true
is_zero _ = false

-- `getProfileRefreshSettings`, whose error of a malformed interval is dropped.
abbrev duration_or_zero : Result DurationError ℤ → ℤ
duration_or_zero (ok d) = d
duration_or_zero (err _) = pos 0

unfoldable pub get_profile_refresh_settings : Option Text → Bool × ℤ
get_profile_refresh_settings none = (false, pos 0)
get_profile_refresh_settings (some interval) =
    if interval == lit "disable"
    then (false, pos 0)
    else if not (interval == lit "always")
    then (true, duration_or_zero (parse_duration_string interval))
    else (true, pos 0)

abbrev elements : Option (List Text) → List Text
elements none = []
elements (some xs) = xs

-- Whether the backend knows other details of a user than the session.
unfoldable pub has_profile_changed : UserSession → UserDetails → Bool
has_profile_changed s details =
    is_string_slices_different s.groups details.groups
    || is_string_slices_different (elements s.emails) (elements details.emails)
    || not (s.display_name == details.display_name)

-- The end of `verifySessionHasUpToDateProfile`: the session with the new details, and the error
-- that saving it gives.
module _ (env : Env) where
  abbrev pub save_profile : UserSession → Handler (UserSession × Option UserError)
  save_profile s = do saved ← save_session env s; pure (s, if saved then none else some other_error)

  unfoldable pub update_profile :
      ℤ → UserSession → UserDetails → Handler (UserSession × Option UserError)
  update_profile interval s details =
      if not (has_profile_changed s details)
      then (if is_zero interval then pure (s, none) else (do
        now ← perform Call.now env.now
        save_profile (record s { refresh_ttl = now +ℤ interval })))
      else (let changed : UserSession = record s {
        emails = details.emails;
        groups = details.groups;
        display_name = details.display_name;
      } in
          if is_zero interval then save_profile changed else (do
            now ← perform Call.now env.now
            save_profile (record changed { refresh_ttl = now +ℤ interval })))

  -- Whether the details in the session are recent enough to skip the backend.
  unfoldable pub is_profile_fresh : ℤ → UserSession → Handler Bool
  is_profile_fresh interval s =
      if is_zero interval
      then pure false
      else (do now ← perform Call.now env.now; pure (ltb_ℤ now s.refresh_ttl))

  -- What the backend's details of the user do to a session.
  unfoldable pub use_profile :
      ℤ → UserSession → Result UserError UserDetails → Handler (UserSession × Option UserError)
  use_profile interval s (err e) = pure (s, some e)
  use_profile interval s (ok details) = update_profile interval s details

  unfoldable pub refresh_profile : ℤ → UserSession → Handler (UserSession × Option UserError)
  refresh_profile interval s = do
    details ← perform (Call.get_details s.username) (env.get_details s.username)
    use_profile interval s details

  -- `verifySessionHasUpToDateProfile`: the session as it is afterwards, and an error.
  unfoldable pub verify_session_has_up_to_date_profile :
      Bool → ℤ → UserSession → Handler (UserSession × Option UserError)
  verify_session_has_up_to_date_profile refresh interval s =
      if not refresh || s.username == []
      then pure (s, none)
      else (is_profile_fresh interval s >>= λ fresh.
          if fresh then pure (s, none) else refresh_profile interval s)

-- What a test of the profiles computes with.
unfoldable pub profiles : Unit {0}
unfolding whole_seconds get_profile_refresh_settings has_profile_changed update_profile
    is_profile_fresh use_profile refresh_profile verify_session_has_up_to_date_profile save_session
    unix durations strings
profiles = tt
