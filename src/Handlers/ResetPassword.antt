-- ===== src/Handlers/ResetPassword.antt =====
-- The reset of a password, handler_reset_password_step1.go and handler_reset_password_step2.go: the
-- request, the end of the identity verification, and the new password.
pub mod Verified
use ldap_totp_nginx_auth.Prelude.{
  if◌then◌else◌, Text, List, [], ◌∷◌, ◌==◌, lit, not, ◌||◌, Bool, true, false, Option, none, some,
  Result, ok, err,
}
use ldap_totp_nginx_auth.Utils.Strings.{is_string_in_slice_contains}
use ldap_totp_nginx_auth.Session.{UserSession}
use ldap_totp_nginx_auth.Handlers.{Configuration}
use ldap_totp_nginx_auth.Middlewares.{
  operation_failed, unable_to_reset_password, ldap_password_complexity, Request, UserError, Call,
  Env, Handler, pure, perform, ◌>>=◌, ◌>>◌,
}
use ldap_totp_nginx_auth.Middlewares.IdentityVerification.{
  Identity, IdentityVerificationStartArgs, first_email, identity_verification_start,
  identity_verification_finish,
}
use ldap_totp_nginx_auth.Authentication.{UserDetails}
use ldap_totp_nginx_auth.Middlewares.Context.{error_reply, reply_ok, get_session, save_session}

module _ (env : Env) where
  unfoldable pub identity_of_details : Text → Result UserError UserDetails → Option Identity
  identity_of_details username (err e) = none
  identity_of_details username (ok details) = first_email username details.emails

  -- `identityRetrieverFromStorage`, over the name of the body, `none` where the body is no JSON.
  unfoldable pub identity_retriever_from_storage : Option Text → Handler (Option Identity)
  identity_retriever_from_storage none = pure none
  identity_retriever_from_storage (some username) =
      perform (Call.get_details username)
        (λ t. identity_of_details username (env.get_details username t))

  abbrev pub reset_password_args : IdentityVerificationStartArgs
  reset_password_args = record {
    mail_title = lit "Reset your password";
    mail_button_content = lit "Reset";
    target_endpoint = lit "/reset-password/step2";
    action_claim = lit "ResetPassword";
  }

  -- `ResetPasswordIdentityStart`.
  unfoldable pub reset_password_identity_start :
      Configuration → Request → Option Text → Handler (Unit {0})
  reset_password_identity_start c request body =
      identity_verification_start env reset_password_args c.mail_settings request
        (identity_retriever_from_storage body)

  -- `resetPasswordIdentityFinish`: where the session cannot be saved, the reply is the same.
  unfoldable pub allow_reset : Text → UserSession → Handler (Unit {0})
  allow_reset username s =
      save_session env (record s { password_reset_username = some username }) >> reply_ok

  unfoldable pub finish_reset : Text → Handler (Unit {0})
  finish_reset username = get_session env >>= allow_reset username

  -- `ResetPasswordIdentityFinish`.
  unfoldable pub reset_password_identity_finish : Option Text → Handler (Unit {0})
  reset_password_identity_finish body =
      identity_verification_finish env (lit "ResetPassword") none finish_reset body

  abbrev pub ldap_password_complexity_codes : List Text
  ldap_password_complexity_codes =
      lit "0000052D"
      ∷ lit "SynoNumber"
      ∷ lit "SynoMixedCase"
      ∷ lit "SynoExcludeNameDesc"
      ∷ lit "SynoSpecialChar"
      ∷ []

  abbrev pub ldap_password_complexity_errors : List Text
  ldap_password_complexity_errors =
      lit "LDAP Result Code 19 \"Constraint Violation\": Password fails quality checking policy"
      ∷ lit "LDAP Result Code 19 \"Constraint Violation\": Password is too young to change"
      ∷ []

  unfoldable pub reply_reset : Bool → Handler (Unit {0})
  reply_reset false = error_reply operation_failed
  reply_reset true = reply_ok

  unfoldable pub use_updated : UserSession → Result Text (Unit {0}) → Handler (Unit {0})
  use_updated s (err e) =
      if is_string_in_slice_contains e ldap_password_complexity_codes
        || is_string_in_slice_contains e ldap_password_complexity_errors
      then error_reply ldap_password_complexity
      else error_reply unable_to_reset_password
  use_updated s (ok done) =
      save_session env (record s { password_reset_username = none }) >>= reply_reset

  unfoldable pub update_password : UserSession → Option Text → Option Text → Handler (Unit {0})
  update_password s none body = error_reply unable_to_reset_password
  update_password s (some username) none = error_reply unable_to_reset_password
  update_password s (some username) (some password) =
      perform (Call.update_password username password) (env.update_password username password)
      >>= use_updated s

  -- `ResetPasswordPost`, over the password of the body.
  unfoldable pub reset_password_post : Option Text → Handler (Unit {0})
  reset_password_post body =
      get_session env >>= λ s. update_password s s.password_reset_username body
