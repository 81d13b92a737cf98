-- ===== src/Handlers/Identification.antt =====
-- handler_verify.go: finding out who sends a request, by basic authentication or by the cookie.
pub mod Soundness
pub mod Inactivity
use ldap_totp_nginx_auth.Prelude.{
  if◌then◌else◌, Text, List, [], ◌∷◌, ◌++◌, ◌==◌, lit, Bool, true, false, not, ◌&&◌, ◌||◌, ℕ, ◌/◌,
  length, drop, is_empty, Option, none, some, has_prefix, has_suffix, cut_byte, join, equal_fold,
  Result, ok, err, texts, ℤ, pos, negsuc, ◌+ℤ◌, ◌-ℤ◌, ltb_ℤ, suc,
}
use ldap_totp_nginx_auth.Utils.Strings.{is_string_slices_different, strings}
use ldap_totp_nginx_auth.Utils.Time.{DurationError, parse_duration_string, durations}
use ldap_totp_nginx_auth.Authentication
use ldap_totp_nginx_auth.Authentication.{UserDetails, at_least}
use ldap_totp_nginx_auth.Authorization
use ldap_totp_nginx_auth.Authorization.{Url, Level, Subject, new_object}
use ldap_totp_nginx_auth.Authorization.Rules.{Authorizer, get_required_level, rules}
use ldap_totp_nginx_auth.Session.{UserSession, unix, new_default_user_session}
use ldap_totp_nginx_auth.Middlewares.{
  Request, Message, operation_failed, Body, found, Response, UserError, user_not_found, other_error,
  Call, Env, Handler, pure, return', perform, respond, ◌>>=◌, ◌>>◌, State, Outcome, panicked, next,
}
use ldap_totp_nginx_auth.Middlewares.Context.{
  error_reply, reply_unauthorized, reply_forbidden, HeaderError, forwarded_url, get_original_url,
  get_session, save_session, destroy_session, remote_ip, text_or_empty,
}
use ldap_totp_nginx_auth.Handlers.{Configuration}
use ldap_totp_nginx_auth.Handlers.Profiles.{
  whole_seconds, is_zero, get_profile_refresh_settings, has_profile_changed, save_profile,
  update_profile, is_profile_fresh, use_profile, refresh_profile,
  verify_session_has_up_to_date_profile, profiles,
}

-- `parseBasicAuth`, `none` for its errors.
unfoldable pub parse_basic_auth : (Text → Option Text) → Text → Option (Text × Text)
parse_basic_auth decode_base64 auth =
    if not (has_prefix auth (lit "Basic ")) then none else (elim (decode_base64 (drop 6 auth)) [
      | none ↦ none
      | some credentials ↦ cut_byte b':' credentials
    ])

-- What `verifyAuth` returns; `failed` tells of an error.
pub record Auth : Type 0 where
  pub is_basic_auth : Bool
  pub username : Text
  pub name : Text
  pub groups : List Text
  pub emails : Option (List Text)
  pub auth_level : Authentication.Level
  pub failed : Bool

abbrev pub nobody : Bool → Auth
nobody is_basic_auth = record {
  is_basic_auth = is_basic_auth;
  username = [];
  name = [];
  groups = [];
  emails = none;
  auth_level = Authentication.Level.not_authenticated;
  failed = true;
}

abbrev pub auth_of_details : Text → UserDetails → Auth
auth_of_details username details = record {
  is_basic_auth = true;
  username = username;
  name = details.display_name;
  groups = details.groups;
  emails = details.emails;
  auth_level = Authentication.Level.one_factor;
  failed = false;
}

abbrev pub auth_of_session : UserSession → Authentication.Level → Bool → Auth
auth_of_session s auth_level failed = record {
  is_basic_auth = false;
  username = s.username;
  name = s.display_name;
  groups = s.groups;
  emails = s.emails;
  auth_level = auth_level;
  failed = failed;
}

module _ (env : Env) where
  -- `hasUserBeenInactiveTooLong`.
  unfoldable pub has_user_been_inactive_too_long : ℤ → Handler Bool
  has_user_been_inactive_too_long inactivity =
      if is_zero (whole_seconds inactivity) then pure false else (do
        session ← get_session env
        now ← perform Call.now env.now
        pure (ltb_ℤ (whole_seconds inactivity) (unix now -ℤ session.last_activity)))

  -- `verifyBasicAuth`, step by step: the details of a user whose password is right, the answer on
  -- the password, and the credentials of the header.
  unfoldable pub use_details : Text → Result UserError UserDetails → Handler Auth
  use_details username (err _) = pure (nobody true)
  use_details username (ok details) = pure (auth_of_details username details)

  unfoldable pub use_checked : Text → Result UserError Bool → Handler Auth
  use_checked username (err _) = pure (nobody true)
  use_checked username (ok false) = pure (nobody true)
  use_checked username (ok true) = do
    details ← perform (Call.get_details username) (env.get_details username)
    use_details username details

  unfoldable pub use_credentials : Option (Text × Text) → Handler Auth
  use_credentials none = pure (nobody true)
  use_credentials (some (username, password)) = do
    checked ←
        perform (Call.check_user_password username password)
          (env.check_user_password username password)
    use_checked username checked

  unfoldable pub verify_basic_auth : Text → Handler Auth
  verify_basic_auth auth = use_credentials (parse_basic_auth env.decode_base64 auth)

  abbrev is_anonymous_authenticated : UserSession → Bool
  is_anonymous_authenticated s =
      s.username == [] && at_least s.authentication_level Authentication.Level.one_factor

  -- The end of `verifySessionCookie`, over what the refresh of the profile gives. Where the backend
  -- does not know the user, the error that is returned is that of destroying the session.
  unfoldable pub finish_session_cookie : UserSession × Option UserError → Handler Auth
  finish_session_cookie (s, some user_not_found) = do
    destroyed ← destroy_session env
    pure (auth_of_session s Authentication.Level.not_authenticated (not destroyed))
  finish_session_cookie (s, some other_error) =
      pure (auth_of_session s s.authentication_level false)
  finish_session_cookie (s, none) = pure (auth_of_session s s.authentication_level false)

  unfoldable pub expire_session : UserSession → Handler Auth
  expire_session s = do
    destroyed ← destroy_session env
    pure (
        if destroyed
        then auth_of_session s Authentication.Level.not_authenticated true
        else nobody false)

  unfoldable pub check_profile : Bool → ℤ → UserSession → Handler Auth
  check_profile refresh interval s = do
    result ← verify_session_has_up_to_date_profile env refresh interval s
    finish_session_cookie result

  -- `verifySessionCookie`.
  unfoldable pub verify_session_cookie : ℤ → Bool → ℤ → UserSession → Handler Auth
  verify_session_cookie inactivity refresh interval s =
      if is_anonymous_authenticated s
      then pure (nobody false)
      else if not s.keep_me_logged_in && not (s.username == [])
      then (has_user_been_inactive_too_long inactivity >>= λ inactive.
          if inactive then expire_session s else check_profile refresh interval s)
      else check_profile refresh interval s

  abbrev pub is_basic : Option Text → Bool
  is_basic none = false
  is_basic (some mode) = mode == lit "basic"

  -- The end of `verifyAuth`: the user that a header names must be that of the session.
  unfoldable pub check_session_username : Option Text → Auth → Handler Auth
  check_session_username none auth = pure auth
  check_session_username (some name) auth =
      if equal_fold name auth.username
      then pure auth
      else (do destroyed ← destroy_session env; pure (record auth { failed = true }))

  unfoldable pub verify_cookie : ℤ → Bool → ℤ → Option Text → Handler Auth
  verify_cookie inactivity refresh interval session_username = do
    s ← get_session env
    auth ← verify_session_cookie inactivity refresh interval s
    check_session_username session_username auth

  -- `verifyAuth`: with `auth=basic` the header must be there, and otherwise the cookie serves where
  -- the header is not.
  unfoldable pub verify_requested_auth : Option Text → Handler Auth
  verify_requested_auth none = pure (nobody true)
  verify_requested_auth (some auth) = verify_basic_auth auth

  unfoldable pub verify_proxy_auth : Option Text → Configuration → Request → Bool → ℤ → Handler Auth
  verify_proxy_auth (some auth) configuration request refresh interval = verify_basic_auth auth
  verify_proxy_auth none configuration request refresh interval =
      verify_cookie configuration.inactivity refresh interval request.session_username

  unfoldable pub verify_auth : Configuration → Request → Bool → ℤ → Handler Auth
  verify_auth configuration request refresh interval =
      if is_basic request.query_auth
      then verify_requested_auth request.authorization
      else verify_proxy_auth request.proxy_authorization configuration request refresh interval

-- What a test of the identification computes with.
unfoldable pub identifying : Unit {0}
unfolding parse_basic_auth has_user_been_inactive_too_long use_details use_checked use_credentials
    verify_basic_auth finish_session_cookie expire_session check_profile verify_session_cookie
    check_session_username verify_cookie verify_requested_auth verify_proxy_auth verify_auth
    get_session destroy_session new_default_user_session profiles texts
identifying = tt
