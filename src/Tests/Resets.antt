-- ===== src/Tests/Resets.antt =====
-- The reset of the password of John.
use ldap_totp_nginx_auth.Prelude.{lit, some}
use ldap_totp_nginx_auth.Handlers.ResetPassword.{
  reset_password_identity_finish, reset_password_post,
}
use ldap_totp_nginx_auth.Handlers.ResetPassword.Verified.{
  IsVerifiedEnd, reset_password_identity_finish-IsVerified, reset_password_post-IsVerified,
}
use ldap_totp_nginx_auth.Tests.{example_env, start}

reset_password_identity_finish-IsVerified_example :
    IsVerifiedEnd example_env
      (reset_password_identity_finish example_env (some (lit "token")) start)
reset_password_identity_finish-IsVerified_example =
    reset_password_identity_finish-IsVerified example_env (some (lit "token")) start tt

reset_password_post-IsVerified_example :
    IsVerifiedEnd example_env (reset_password_post example_env (some (lit "secret")) start)
reset_password_post-IsVerified_example =
    reset_password_post-IsVerified example_env (some (lit "secret")) start tt
