-- ===== src/Handlers.antt =====
-- internal/handlers: the HTTP handlers. The configuration that they read stands here; each child is
-- one handler or the replies that several share.
pub mod Responses
pub mod Profiles
pub mod Identification
pub mod Verify
pub mod FirstFactor
pub mod SecondFactor
pub mod U2fSign
pub mod ResetPassword
pub mod Sessions
pub mod Registration
pub mod UserInfo
pub mod Mailed
use ldap_totp_nginx_auth.Prelude.{Text, Bool, Option, ℤ}
use ldap_totp_nginx_auth.Authorization.Rules.{Authorizer}
use ldap_totp_nginx_auth.Regulation.{Regulator}
use ldap_totp_nginx_auth.Middlewares.IdentityVerification.{MailSettings}

-- `remember_me` and `inactivity` are the durations that `session.NewProvider` reads from the
-- configuration; `ldap_refresh_interval` is `none` without an LDAP backend. `duo_api` tells whether Duo is set.
pub record Configuration : Type 0 where
  pub session_domain : Text
  pub default_redirection_url : Text
  pub remember_me : ℤ
  pub inactivity : ℤ
  pub ldap_refresh_interval : Option Text
  pub mail_settings : MailSettings
  pub totp_issuer : Text
  pub totp_period : ℤ
  pub duo_api : Bool
  pub authorizer : Authorizer
  pub regulator : Regulator
