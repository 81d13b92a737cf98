-- ===== src/Handlers/SecondFactor.antt =====
-- handler_sign_totp.go, handler_sign_u2f_step2.go, handler_sign_duo.go and handler_logout.go.
pub mod Logout
use ldap_totp_nginx_auth.Prelude.{
  if◌then◌else◌, Text, ◌==◌, lit, [], Bool, true, false, not, Option, none, some,
}
use ldap_totp_nginx_auth.Authentication
use ldap_totp_nginx_auth.Authentication.{at_least}
use ldap_totp_nginx_auth.Authorization.{Url}
use ldap_totp_nginx_auth.Session.{U2fRegistration, UserSession, OidcWorkflowSession, set_two_factor}
use ldap_totp_nginx_auth.Middlewares.{
  Request, mfa_validation_failed, operation_failed, safe_target_url, Call, Env, Handler, pure,
  perform, ◌>>=◌, ◌>>◌,
}
use ldap_totp_nginx_auth.Middlewares.Context.{
  get_session, save_session, regenerate_session, destroy_session, reply_forbidden,
  reply_unauthorized, error_reply, set_json_body,
}
use ldap_totp_nginx_auth.Handlers.{Configuration}
use ldap_totp_nginx_auth.Handlers.Verify.{verifying}
use ldap_totp_nginx_auth.Handlers.Responses.{
  handle_authentication_unauthorized, handle_oidc_workflow_response, handle_2fa_response,
  is_redirection_safe, replying,
}

abbrev pub refuse_factor : Handler (Unit {0})
refuse_factor = handle_authentication_unauthorized mfa_validation_failed

-- `signTOTPRequestBody`, `signU2FRequestBody` and `signDuoRequestBody` of types.go.
pub record SignTotpRequestBody : Type 0 where
  pub token : Text
  pub target_url : Text

pub record SignU2fRequestBody : Type 0 where
  pub sign_response : Text
  pub target_url : Text

pub record SignDuoRequestBody : Type 0 where
  pub target_url : Text

module _ (env : Env) (configuration : Configuration) (request : Request) where
  -- The end of the three handlers, from the point where the factor has been verified.
  unfoldable pub reply_second_factor : Text → Option OidcWorkflowSession → Handler (Unit {0})
  reply_second_factor target_url (some workflow) =
      handle_oidc_workflow_response env configuration request
  reply_second_factor target_url none = handle_2fa_response env configuration request target_url

  unfoldable pub after_second_save : Text → UserSession → Bool → Handler (Unit {0})
  after_second_save target_url s false = refuse_factor
  after_second_save target_url s true = reply_second_factor target_url s.oidc_workflow_session

  unfoldable pub save_two_factor : Text → UserSession → Bool → Handler (Unit {0})
  save_two_factor target_url s false = refuse_factor
  save_two_factor target_url s true = perform Call.now env.now >>= λ now.
      save_session env (set_two_factor s now)
      >>= after_second_save target_url (set_two_factor s now)

  unfoldable pub accept_factor : Text → UserSession → Handler (Unit {0})
  accept_factor target_url s = regenerate_session env >>= save_two_factor target_url s

  -- `SecondFactorTOTPPost`.
  unfoldable pub use_totp_verdict : Text → UserSession → Option Bool → Handler (Unit {0})
  use_totp_verdict target_url s none = refuse_factor
  use_totp_verdict target_url s (some false) = refuse_factor
  use_totp_verdict target_url s (some true) = accept_factor target_url s

  unfoldable pub use_totp_secret :
      SignTotpRequestBody → UserSession → Option Text → Handler (Unit {0})
  use_totp_secret body s none = refuse_factor
  use_totp_secret body s (some secret) =
      perform (Call.verify_totp body.token secret) (env.verify_totp body.token secret)
      >>= use_totp_verdict body.target_url s

  unfoldable pub load_totp : SignTotpRequestBody → UserSession → Handler (Unit {0})
  load_totp body s =
      perform (Call.load_totp_secret s.username) (env.load_totp_secret s.username)
      >>= use_totp_secret body s

  unfoldable pub second_factor_totp_post : Option SignTotpRequestBody → Handler (Unit {0})
  second_factor_totp_post none = refuse_factor
  second_factor_totp_post (some body) = get_session env >>= load_totp body

  -- `SecondFactorU2FSignPost`.
  unfoldable pub use_u2f_verdict : Text → UserSession → Bool → Handler (Unit {0})
  use_u2f_verdict target_url s false = error_reply mfa_validation_failed
  use_u2f_verdict target_url s true = accept_factor target_url s

  unfoldable pub verify_challenge :
      SignU2fRequestBody → UserSession → Option Text → Option U2fRegistration → Handler (Unit {0})
  verify_challenge body s none registration = refuse_factor
  verify_challenge body s (some challenge) none = refuse_factor
  verify_challenge body s (some challenge) (some registration) =
      perform (Call.verify_u2f registration body.sign_response challenge)
        (env.verify_u2f registration body.sign_response challenge)
      >>= use_u2f_verdict body.target_url s

  unfoldable pub second_factor_u2f_sign_post : Option SignU2fRequestBody → Handler (Unit {0})
  second_factor_u2f_sign_post none = error_reply mfa_validation_failed
  second_factor_u2f_sign_post (some body) =
      get_session env >>= λ s. verify_challenge body s s.u2f_challenge s.u2f_registration

  -- `SecondFactorDuoPost`, over the result that Duo answers.
  unfoldable pub use_duo_result : Text → UserSession → Option Text → Handler (Unit {0})
  use_duo_result target_url s none = refuse_factor
  use_duo_result target_url s (some result) =
      if not (result == lit "allow") then reply_unauthorized else accept_factor target_url s

  unfoldable pub call_duo : SignDuoRequestBody → UserSession → Handler (Unit {0})
  call_duo body s =
      perform (Call.call_duo s.username body.target_url) (env.call_duo s.username body.target_url)
      >>= use_duo_result body.target_url s

  unfoldable pub second_factor_duo_post : Option SignDuoRequestBody → Handler (Unit {0})
  second_factor_duo_post none = refuse_factor
  second_factor_duo_post (some body) = get_session env >>= call_duo body

  -- `LogoutPost`. A body that cannot be read counts as an empty target, and the errors on the way
  -- do not end the handler.
  unfoldable pub is_safe_target : Option Url → Bool
  is_safe_target none = false
  is_safe_target (some url) = is_redirection_safe url configuration.session_domain

  unfoldable pub report_failure : Bool → Handler (Unit {0})
  report_failure true = pure tt
  report_failure false = error_reply operation_failed

  unfoldable pub read_target : Option Text → Handler Text
  read_target none = do error_reply operation_failed; pure []
  read_target (some target) = pure target

  unfoldable pub logout_post : (Text → Option Url) → Option Text → Handler (Unit {0})
  logout_post parse_url body = do
    target ← read_target body
    destroyed ← destroy_session env
    report_failure destroyed
    set_json_body (safe_target_url (is_safe_target (parse_url target)))

-- What a test of these handlers computes with.
unfoldable pub second_factors : Unit {0}
unfolding reply_second_factor after_second_save save_two_factor accept_factor use_totp_verdict
    use_totp_secret load_totp second_factor_totp_post use_u2f_verdict verify_challenge
    second_factor_u2f_sign_post use_duo_result call_duo second_factor_duo_post is_safe_target
    report_failure read_target logout_post set_two_factor regenerate_session replying verifying
second_factors = tt
