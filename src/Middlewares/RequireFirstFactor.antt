-- ===== src/Middlewares/RequireFirstFactor.antt =====
-- require_first_factor.go: the guard of the endpoints that need a logged in user.
use ldap_totp_nginx_auth.Prelude.{if◌then◌else◌, not}
use ldap_totp_nginx_auth.Authentication
use ldap_totp_nginx_auth.Authentication.{at_least}
use ldap_totp_nginx_auth.Session.{UserSession}
use ldap_totp_nginx_auth.Middlewares.{Env, Handler, ◌>>=◌}
use ldap_totp_nginx_auth.Middlewares.Context.{get_session, reply_forbidden}

unfoldable pub guard_level : Handler (Unit {0}) → UserSession → Handler (Unit {0})
guard_level then' s =
    if not (at_least s.authentication_level Authentication.Level.one_factor)
    then reply_forbidden
    else then'

unfoldable pub require_first_factor : Env → Handler (Unit {0}) → Handler (Unit {0})
require_first_factor env then' = get_session env >>= guard_level then'
