-- ===== src/Tests/Devices.antt =====
-- The registration of devices, and the mails before it.
use ldap_totp_nginx_auth.Prelude.{[], ◌∷◌, lit, true, some, none, ◌≡◌, ◌≢◌, refl}
use ldap_totp_nginx_auth.Session.{U2fRegistration}
use ldap_totp_nginx_auth.Middlewares.{Request, blank, Call, Env, State, next, ◌>>◌}
use ldap_totp_nginx_auth.Middlewares.Context.{forwarded_proto_host, get_session, session_or_default}
use ldap_totp_nginx_auth.Middlewares.IdentityVerification.{
  Identity, first_email, identity_verification_start,
}
use ldap_totp_nginx_auth.Handlers.U2fSign.{with_challenge, second_factor_u2f_sign_get}
use ldap_totp_nginx_auth.Handlers.Registration.{
  identity_of_session, identity_retriever_from_session, totp_args,
  second_factor_totp_identity_finish, second_factor_u2f_register,
}
use ldap_totp_nginx_auth.Handlers.Registration.Enrolled.{
  IsEnrolled, IsCleared, second_factor_totp_identity_finish-IsEnrolled,
  second_factor_u2f_register-IsEnrolled,
}
use ldap_totp_nginx_auth.Handlers.Registration.Unverified.{registered, u2f_register-sign_get}
use ldap_totp_nginx_auth.Handlers.Sessions.Tokens.{EndsIn}
use ldap_totp_nginx_auth.Handlers.Sessions.MailReplies.{Replies, identity_verification_start_iff}
use ldap_totp_nginx_auth.Tests.{
  example_configuration, app_request, key_of_john, session_of_john, example_env, start,
}

abbrev portal_request : Request
portal_request = record app_request {
  x_forwarded_proto = some (lit "https");
  x_forwarded_host = some (lit "auth.example.com");
}

abbrev identity_of_john : Identity
identity_of_john = record { username = lit "john"; email = lit "john@example.com" }

abbrev looked_up : State
looked_up = record { trace = Call.get_session ∷ []; response = blank }

finds_john :
    identity_retriever_from_session example_env start ≡ next (some identity_of_john) looked_up
unfolding identity_retriever_from_session identity_of_session get_session first_email
finds_john = refl

identity_verification_start_iff_example :
    Replies example_env
      (totp_args example_env)
      example_configuration.mail_settings
      portal_request
      (some identity_of_john)
      (identity_verification_start example_env
        (totp_args example_env)
        example_configuration.mail_settings
        portal_request
        (identity_retriever_from_session example_env)
        start)
identity_verification_start_iff_example =
    identity_verification_start_iff example_env (totp_args example_env)
      example_configuration.mail_settings portal_request
      (identity_retriever_from_session example_env) (some identity_of_john) start looked_up
      finds_john

second_factor_totp_identity_finish-IsEnrolled_example : EndsIn (IsEnrolled example_env) (
    second_factor_totp_identity_finish example_env example_configuration (some (lit "token")) start)
second_factor_totp_identity_finish-IsEnrolled_example =
    second_factor_totp_identity_finish-IsEnrolled example_env example_configuration
      (some (lit "token")) start tt

second_factor_u2f_register-IsEnrolled_example :
    let s = session_or_default (example_env.get_session []) in
    EndsIn
      (IsEnrolled example_env)
      (second_factor_u2f_register example_env true (lit "response") start)
    × (s.u2f_challenge ≢ none
        → EndsIn
            (IsCleared example_env s)
            (second_factor_u2f_register example_env true (lit "response") start))
second_factor_u2f_register-IsEnrolled_example =
    second_factor_u2f_register-IsEnrolled example_env true (lit "response") start tt

-- The key of somebody else.
abbrev other_key : U2fRegistration
other_key = record { key_handle = lit "other"; public_key = lit "key" }

abbrev other_env : Env
other_env = record example_env { register_u2f = λ r c. some other_key }

u2f_register-sign_get_example :
    (second_factor_u2f_sign_get other_env portal_request
        >> second_factor_u2f_register other_env true (lit "response"))
      start
    ≡ next tt (
        registered other_env portal_request
          (lit "https://auth.example.com")
          (lit "challenge")
          (lit "response")
          session_of_john
          key_of_john
          other_key
          start)
unfolding forwarded_proto_host with_challenge lit
u2f_register-sign_get_example =
    u2f_register-sign_get other_env portal_request (lit "https://auth.example.com")
      (lit "challenge") (lit "response") session_of_john key_of_john other_key start refl refl refl
      refl refl refl refl refl
