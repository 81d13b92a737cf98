-- ===== src/Handlers/U2fSign.antt =====
-- handler_sign_u2f_step1.go: the challenge for a security key, which the session remembers.
use ldap_totp_nginx_auth.Prelude.{Text, Bool, true, false, Option, none, some, Result, ok, err}
use ldap_totp_nginx_auth.Session.{U2fRegistration, UserSession}
use ldap_totp_nginx_auth.Middlewares.{
  Request, mfa_validation_failed, sign_request, Call, Env, Handler, perform, ◌>>=◌,
}
use ldap_totp_nginx_auth.Middlewares.Context.{
  HeaderError, error_reply, set_json_body, forwarded_proto_host, get_session, save_session,
}
use ldap_totp_nginx_auth.Handlers.SecondFactor.{refuse_factor}

-- The session with a challenge and the registration that is to answer it.
unfoldable pub with_challenge : UserSession → Text → U2fRegistration → UserSession
with_challenge s challenge registration = record s {
  u2f_registration = some registration;
  u2f_challenge = some challenge;
}

module _ (env : Env) where
  unfoldable pub send_request : Text → U2fRegistration → Bool → Handler (Unit {0})
  send_request challenge registration false = refuse_factor
  send_request challenge registration true = set_json_body (sign_request challenge registration)

  -- A missing device handle and any other error of the storage have the same reply.
  unfoldable pub use_device : UserSession → Text → Option U2fRegistration → Handler (Unit {0})
  use_device s challenge none = refuse_factor
  use_device s challenge (some registration) =
      save_session env (with_challenge s challenge registration)
      >>= send_request challenge registration

  unfoldable pub load_device : Text → UserSession → Handler (Unit {0})
  load_device challenge s =
      perform (Call.load_u2f_device_handle s.username) (env.load_u2f_device_handle s.username)
      >>= use_device s challenge

  unfoldable pub use_challenge : Option Text → Handler (Unit {0})
  use_challenge none = refuse_factor
  use_challenge (some challenge) = get_session env >>= load_device challenge

  -- `SecondFactorU2FSignGet`, over the application that the headers name.
  unfoldable pub challenge_application : Result HeaderError Text → Handler (Unit {0})
  challenge_application (err _) = error_reply mfa_validation_failed
  challenge_application (ok app_id) =
      perform (Call.new_u2f_challenge app_id) (env.new_u2f_challenge app_id) >>= use_challenge

  unfoldable pub second_factor_u2f_sign_get : Request → Handler (Unit {0})
  second_factor_u2f_sign_get request = challenge_application (forwarded_proto_host request)
