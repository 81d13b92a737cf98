-- ===== src/Session.antt =====
-- internal/session: what a session holds (types.go) and how it changes (user_session.go). A session
-- keeps times in seconds.
pub mod Provider
use ldap_totp_nginx_auth.Prelude.{
  Text, List, [], Bool, false, Option, none, ◌/◌, ◌*◌, ◌-◌, suc, ℤ, pos, negsuc, Result, ok, err,
}
use ldap_totp_nginx_auth.Authentication
use ldap_totp_nginx_auth.Authentication.{UserDetails}
use ldap_totp_nginx_auth.Authorization

pub record U2fRegistration : Type 0 where
  pub key_handle : Text
  pub public_key : Text

pub record OidcWorkflowSession : Type 0 where
  pub client_id : Text
  pub requested_scopes : List Text
  pub granted_scopes : List Text
  pub requested_audience : List Text
  pub granted_audience : List Text
  pub target_uri : Text
  pub auth_uri : Text
  pub required_authorization_level : Authorization.Level
  pub created_timestamp : ℤ

-- A U2F challenge is the text that the session stores for it.
pub record UserSession : Type 0 where
  pub username : Text
  pub display_name : Text
  pub groups : List Text
  pub emails : Option (List Text)
  pub keep_me_logged_in : Bool
  pub authentication_level : Authentication.Level
  pub last_activity : ℤ
  pub first_factor_authn_timestamp : ℤ
  pub second_factor_authn_timestamp : ℤ
  pub u2f_challenge : Option Text
  pub u2f_registration : Option U2fRegistration
  pub oidc_workflow_session : Option OidcWorkflowSession
  pub password_reset_username : Option Text
  pub refresh_ttl : ℤ

-- `Time.Unix`: whole seconds, rounded down.
unfoldable pub unix : ℤ → ℤ
unix (pos n) = pos (n / 1_000_000_000)
unix (negsuc n) = negsuc (n / 1_000_000_000)

-- The nanoseconds of `time.Time{}`, the start of the year 1.
abbrev pub zero_time : ℤ
zero_time = negsuc (62_135_596_800 * 1_000_000_000 - 1)

unfoldable pub new_default_user_session : UserSession
new_default_user_session = record {
  username = [];
  display_name = [];
  groups = [];
  emails = none;
  keep_me_logged_in = false;
  authentication_level = Authentication.Level.not_authenticated;
  last_activity = pos 0;
  first_factor_authn_timestamp = pos 0;
  second_factor_authn_timestamp = pos 0;
  u2f_challenge = none;
  u2f_registration = none;
  oidc_workflow_session = none;
  password_reset_username = none;
  refresh_ttl = zero_time;
}

unfoldable pub set_one_factor : UserSession → ℤ → UserDetails → Bool → UserSession
set_one_factor s now details keep_me_logged_in = record s {
  first_factor_authn_timestamp = unix now;
  last_activity = unix now;
  authentication_level = Authentication.Level.one_factor;
  keep_me_logged_in = keep_me_logged_in;
  username = details.username;
  display_name = details.display_name;
  groups = details.groups;
  emails = details.emails;
}

unfoldable pub set_two_factor : UserSession → ℤ → UserSession
set_two_factor s now = record s {
  second_factor_authn_timestamp = unix now;
  last_activity = unix now;
  authentication_level = Authentication.Level.two_factor;
}

-- `AuthenticatedTime`, in nanoseconds as `time.Unix` gives it; the error comes with the time 0.
pub data LevelError : Type 0 where
  invalid_authorization_level : LevelError

abbrev pub seconds_to_time : ℤ → ℤ
seconds_to_time (pos n) = pos (n * 1_000_000_000)
seconds_to_time (negsuc n) = negsuc (suc n * 1_000_000_000 - 1)

unfoldable pub authenticated_time : UserSession → Authorization.Level → Result LevelError ℤ
authenticated_time s Authorization.Level.one_factor =
    ok (seconds_to_time s.first_factor_authn_timestamp)
authenticated_time s Authorization.Level.two_factor =
    ok (seconds_to_time s.second_factor_authn_timestamp)
authenticated_time s Authorization.Level.bypass = err invalid_authorization_level
authenticated_time s Authorization.Level.denied = err invalid_authorization_level
