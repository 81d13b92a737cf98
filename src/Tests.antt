-- ===== src/Tests.antt =====
-- The theorems of the development at concrete inputs. The world that they share: John logs in at
-- auth.example.com, may go to app.example.com with one factor, and every call succeeds.
pub mod Access
pub mod Logins
pub mod Rules
pub mod Bans
pub mod Texts
pub mod Resets
pub mod Devices
pub mod Directories
pub mod Loads
pub mod Passwords
pub mod Storages
pub mod Configurations
use ldap_totp_nginx_auth.Prelude.{
  Text, List, [], ◌∷◌, lit, Bool, true, false, Option, none, some, Result, ok, err, ℤ, pos,
}
use ldap_totp_nginx_auth.Authentication
use ldap_totp_nginx_auth.Authentication.{UserDetails}
use ldap_totp_nginx_auth.Authorization
use ldap_totp_nginx_auth.Authorization.{Url, Level}
use ldap_totp_nginx_auth.Authorization.Rules.{
  AccessControlDomain, AccessControlSubject, user, group, AccessControlRule, Authorizer,
}
use ldap_totp_nginx_auth.Regulation.{Regulator}
use ldap_totp_nginx_auth.Session.{U2fRegistration, UserSession, zero_time}
use ldap_totp_nginx_auth.Middlewares.{Request, blank, Call, Trace, Env, State}
use ldap_totp_nginx_auth.Handlers.{Configuration}

abbrev pub app_domain : AccessControlDomain
app_domain = record {
  name = lit "app.example.com";
  wildcard = false;
  user_wildcard = false;
  group_wildcard = false;
}

abbrev pub app_rule : AccessControlRule
app_rule = record {
  position = 1;
  domains = app_domain ∷ [];
  resources = [];
  methods = lit "GET" ∷ [];
  networks = [];
  subjects = (user (lit "john") ∷ group (lit "admins") ∷ []) ∷ [];
  policy = Level.one_factor;
}

abbrev pub app_authorizer : Authorizer
app_authorizer = record {
  default_policy = Level.denied;
  rules = app_rule ∷ [];
  client_policies = none;
}

abbrev pub three_in_two_minutes : Regulator
three_in_two_minutes = record {
  enabled = true;
  max_retries = 3;
  find_time = pos 120_000_000_000;
  ban_time = pos 300_000_000_000;
}

abbrev pub example_configuration : Configuration
example_configuration = record {
  session_domain = lit "example.com";
  default_redirection_url = [];
  remember_me = pos 0;
  inactivity = pos 0;
  ldap_refresh_interval = none;
  mail_settings = record { jwt_secret = lit "jwt"; server_path = []; disable_html = false };
  totp_issuer = lit "authelia.com";
  totp_period = pos 30;
  duo_api = false;
  authorizer = app_authorizer;
  regulator = three_in_two_minutes;
}

abbrev pub app_url : Url
app_url = record {
  scheme = lit "https";
  hostname = lit "app.example.com";
  path = lit "/";
  raw_query = [];
}

abbrev pub app_request : Request
app_request = record {
  x_original_url = some (lit "https://app.example.com/");
  x_forwarded_proto = none;
  x_forwarded_host = none;
  x_forwarded_uri = none;
  x_forwarded_method = some (lit "GET");
  x_forwarded_for = none;
  authorization = none;
  proxy_authorization = none;
  session_username = none;
  query_auth = none;
  query_rd = none;
  peer_ip = 192 ∷ 168 ∷ 1 ∷ 8 ∷ [];
}

abbrev pub key_of_john : U2fRegistration
key_of_john = record { key_handle = lit "handle"; public_key = lit "key" }

abbrev pub session_of_john : UserSession
session_of_john = record {
  username = lit "john";
  display_name = lit "John";
  groups = lit "admins" ∷ [];
  emails = some (lit "john@example.com" ∷ []);
  keep_me_logged_in = true;
  authentication_level = Authentication.Level.one_factor;
  last_activity = pos 0;
  first_factor_authn_timestamp = pos 0;
  second_factor_authn_timestamp = pos 0;
  u2f_challenge = some (lit "challenge");
  u2f_registration = some key_of_john;
  oidc_workflow_session = none;
  password_reset_username = none;
  refresh_ttl = zero_time;
}

abbrev pub details_of_john : UserDetails
details_of_john = record {
  username = lit "john";
  display_name = lit "John";
  emails = some (lit "john@example.com" ∷ []);
  groups = lit "admins" ∷ [];
}

abbrev pub example_env : Env
example_env = record {
  now = λ t. pos 1_600_000_000_000_000_000;
  get_session = λ t. some session_of_john;
  save_session = λ s t. true;
  regenerate_session = λ t. true;
  destroy_session = λ t. true;
  update_expiration = λ d t. true;
  check_user_password = λ u p t. ok true;
  get_details = λ u t. ok details_of_john;
  append_authentication_log = λ a t. true;
  load_latest_authentication_logs = λ u d t. some [];
  load_totp_secret = λ u t. some (lit "secret");
  verify_totp = λ c k t. some true;
  verify_u2f = λ r c k t. true;
  call_duo = λ u d t. some (lit "allow");
  new_u2f_challenge = λ a t. some (lit "challenge");
  load_u2f_device_handle = λ u t. some key_of_john;
  find_identity_verification_token = λ k t. some true;
  parse_token = λ k t. ok (record { action = lit "ResetPassword"; username = lit "john" });
  remove_identity_verification_token = λ k t. true;
  update_password = λ u p t. ok tt;
  save_identity_verification_token = λ k t. true;
  send_mail = λ m t. true;
  generate_totp_key = λ i u t. some (record { secret = lit "secret"; url = lit "otpauth" });
  save_totp_secret = λ u k t. true;
  save_u2f_device_handle = λ u r t. true;
  load_preferred_2fa_method = λ u t. some [];
  save_preferred_2fa_method = λ u m t. true;
  no_totp_secret = λ u t. true;
  no_u2f_device_handle = λ u t. true;
  sign_token = λ k c. some (lit "token");
  register_u2f = λ r c. some key_of_john;
  html_email = λ t u b. some u;
  plain_text_email = λ u. some u;
  parse_request_uri = λ u. some app_url;
  query_escape = λ q. q;
  resolve_redirect = λ u. u;
  url_string = λ u. lit "https://app.example.com/";
  parse_ip = λ i. [];
  decode_base64 = λ c. none;
}

abbrev pub start : State
start = record { trace = []; response = blank }

-- The session of John is there, but cannot be stored.
abbrev pub unsaved_env : Env
unsaved_env = record example_env {
  get_session = λ t. some (record session_of_john { keep_me_logged_in = false });
  save_session = λ s t. false;
}
