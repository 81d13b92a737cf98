-- ===== src/Handlers/Registration.antt =====
-- The registration of devices: handler_register_totp.go, handler_register_u2f_step1.go and
-- handler_register_u2f_step2.go.
pub mod Enrolled
pub mod Unverified
use ldap_totp_nginx_auth.Prelude.{
  if◌then◌else◌, Text, ◌==◌, lit, Bool, true, false, Option, none, some, Result, ok, err,
}
use ldap_totp_nginx_auth.Session.{U2fRegistration, UserSession}
use ldap_totp_nginx_auth.Middlewares.{
  operation_failed, unable_to_register_one_time_password, unable_to_register_security_key, Request,
  register_request, totp_key, TotpKey, Call, Env, Handler, pure, perform, ◌>>=◌, ◌>>◌,
}
use ldap_totp_nginx_auth.Middlewares.Context.{
  HeaderError, error_reply, reply_ok, set_json_body, forwarded_proto_host, get_session,
  save_session,
}
use ldap_totp_nginx_auth.Middlewares.IdentityVerification.{
  Identity, IdentityVerificationStartArgs, first_email, identity_verification_start,
  identity_verification_finish,
}
use ldap_totp_nginx_auth.Handlers.{Configuration}

module _ (env : Env) where
  unfoldable pub identity_of_session : UserSession → Handler (Option Identity)
  identity_of_session s = pure (first_email s.username s.emails)

  unfoldable pub identity_retriever_from_session : Handler (Option Identity)
  identity_retriever_from_session = get_session env >>= identity_of_session

  unfoldable pub has_username : Text → UserSession → Handler Bool
  has_username username s = pure (s.username == username)

  unfoldable pub is_token_user_valid_for_2fa_registration : Text → Handler Bool
  is_token_user_valid_for_2fa_registration username = get_session env >>= has_username username

  abbrev pub totp_args : IdentityVerificationStartArgs
  totp_args = record {
    mail_title = lit "Register your mobile";
    mail_button_content = lit "Register";
    target_endpoint = lit "/one-time-password/register";
    action_claim = lit "RegisterTOTPDevice";
  }

  abbrev pub u2f_args : IdentityVerificationStartArgs
  u2f_args = record {
    mail_title = lit "Register your key";
    mail_button_content = lit "Register";
    target_endpoint = lit "/security-key/register";
    action_claim = lit "RegisterU2FDevice";
  }

  -- `SecondFactorTOTPIdentityStart`.
  unfoldable pub second_factor_totp_identity_start : Configuration → Request → Handler (Unit {0})
  second_factor_totp_identity_start c request =
      identity_verification_start env totp_args c.mail_settings request
        identity_retriever_from_session

  unfoldable pub second_factor_u2f_identity_start : Configuration → Request → Handler (Unit {0})
  second_factor_u2f_identity_start c request =
      identity_verification_start env u2f_args c.mail_settings request
        identity_retriever_from_session

  unfoldable pub reply_key : TotpKey → Bool → Handler (Unit {0})
  reply_key key false = error_reply unable_to_register_one_time_password
  reply_key key true = set_json_body (totp_key key)

  unfoldable pub save_key : Text → Option TotpKey → Handler (Unit {0})
  save_key username none = error_reply unable_to_register_one_time_password
  save_key username (some key) =
      perform (Call.save_totp_secret username key.secret) (env.save_totp_secret username key.secret)
      >>= reply_key key

  -- `secondFactorTOTPIdentityFinish`; the key of 32 bytes is made by the library.
  unfoldable pub generate_key : Configuration → Text → Handler (Unit {0})
  generate_key c username =
      perform (Call.generate_totp_key c.totp_issuer username)
        (env.generate_totp_key c.totp_issuer username)
      >>= save_key username

  -- `SecondFactorTOTPIdentityFinish`.
  unfoldable pub second_factor_totp_identity_finish :
      Configuration → Option Text → Handler (Unit {0})
  second_factor_totp_identity_finish c body =
      identity_verification_finish env (lit "RegisterTOTPDevice")
        (some is_token_user_valid_for_2fa_registration) (generate_key c) body

  unfoldable pub request_registration : Text → Bool → Handler (Unit {0})
  request_registration challenge false = error_reply operation_failed
  request_registration challenge true = set_json_body (register_request challenge)

  unfoldable pub keep_challenge : Text → UserSession → Handler (Unit {0})
  keep_challenge challenge s =
      save_session env (record s { u2f_challenge = some challenge })
      >>= request_registration challenge

  unfoldable pub store_challenge : Option Text → Handler (Unit {0})
  store_challenge none = error_reply operation_failed
  store_challenge (some challenge) = get_session env >>= keep_challenge challenge

  unfoldable pub challenge_for : Result HeaderError Text → Handler (Unit {0})
  challenge_for (err e) = error_reply operation_failed
  challenge_for (ok app_id) =
      perform (Call.new_u2f_challenge app_id) (env.new_u2f_challenge app_id) >>= store_challenge

  -- `secondFactorU2FIdentityFinish`.
  unfoldable pub new_registration : Request → Text → Handler (Unit {0})
  new_registration request username = challenge_for (forwarded_proto_host request)

  -- `SecondFactorU2FIdentityFinish`.
  unfoldable pub second_factor_u2f_identity_finish : Request → Option Text → Handler (Unit {0})
  second_factor_u2f_identity_finish request body =
      identity_verification_finish env (lit "RegisterU2FDevice")
        (some is_token_user_valid_for_2fa_registration) (new_registration request) body

  unfoldable pub reply_registered : Bool → Handler (Unit {0})
  reply_registered false = error_reply unable_to_register_security_key
  reply_registered true = reply_ok

  unfoldable pub save_device : UserSession → Option U2fRegistration → Handler (Unit {0})
  save_device s none = error_reply unable_to_register_security_key
  save_device s (some registration) =
      perform (Call.save_u2f_device_handle s.username registration)
        (env.save_u2f_device_handle s.username registration)
      >>= reply_registered

  -- The deferred function of the handler.
  unfoldable pub clear_challenge : UserSession → Handler Bool
  clear_challenge s = save_session env (record s { u2f_challenge = none })

  unfoldable pub ignore_failure : Bool → Handler (Unit {0})
  ignore_failure cleared = pure tt

  unfoldable pub answer_challenge : Text → UserSession → Option Text → Handler (Unit {0})
  answer_challenge response s none = error_reply unable_to_register_security_key
  answer_challenge response s (some challenge) =
      save_device s (env.register_u2f response challenge) >> (clear_challenge s >>= ignore_failure)

  unfoldable pub register_device : Text → UserSession → Handler (Unit {0})
  register_device response s = answer_challenge response s s.u2f_challenge

  -- The handler goes on with what it has read of a body that does not parse.
  unfoldable pub report_unparsed : Bool → Handler (Unit {0})
  report_unparsed true = pure tt
  report_unparsed false = error_reply unable_to_register_security_key

  -- `SecondFactorU2FRegister`.
  unfoldable pub second_factor_u2f_register : Bool → Text → Handler (Unit {0})
  second_factor_u2f_register parsed response =
      report_unparsed parsed >> (get_session env >>= register_device response)
