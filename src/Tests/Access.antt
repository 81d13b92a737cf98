-- ===== src/Tests/Access.antt =====
-- Requests to the endpoint of the proxy.
use ldap_totp_nginx_auth.Prelude.{◌-ℤ◌, arith, [], ◌∷◌, lit, true, false, some, ◌≡◌, refl, ◌⊎◌, pos}
use ldap_totp_nginx_auth.Authentication
use ldap_totp_nginx_auth.Middlewares.{operation_failed, error, blank, Call, State, next}
use ldap_totp_nginx_auth.Handlers.Verify.{verify_get, verify_user, verifying}
use ldap_totp_nginx_auth.Handlers.Identification.{verify_session_cookie, Auth}
use ldap_totp_nginx_auth.Handlers.Verify.Replies.{verify_user_unsaved}
use ldap_totp_nginx_auth.Handlers.Verify.Access.{IsGranted, verify_get-IsGranted}
use ldap_totp_nginx_auth.Handlers.Identification.Soundness.{
  IsConfirmed, IsOfCookie, verify_auth_identified,
}
use ldap_totp_nginx_auth.Session.{UserSession}
use ldap_totp_nginx_auth.Handlers.Sessions.{IsLawfulEnd}
use ldap_totp_nginx_auth.Handlers.Sessions.Verify.{verify_get-IsLawful}
use ldap_totp_nginx_auth.Handlers.Identification.Inactivity.{verify_session_cookie_inactive}
use ldap_totp_nginx_auth.Tests.{
  example_configuration, app_request, app_url, session_of_john, example_env, unsaved_env, start,
}

abbrev granted : State
granted = record {
  trace = Call.get_session ∷ Call.get_session ∷ [];
  response = record blank {
    forwarded = some (record {
      user = lit "john";
      groups = lit "admins";
      name = lit "John";
      email = lit "john@example.com";
    });
  };
}

verify_get-IsGranted_example : IsGranted example_env example_configuration app_request start
unfolding verifying
verify_get-IsGranted_example =
    verify_get-IsGranted example_env example_configuration app_request start granted refl refl
      (λ e. absurd (cc e))

abbrev john : Auth
john = record {
  is_basic_auth = false;
  username = lit "john";
  name = lit "John";
  groups = lit "admins" ∷ [];
  emails = some (lit "john@example.com" ∷ []);
  auth_level = Authentication.Level.one_factor;
  failed = false;
}

verify_auth_identified_example :
    IsConfirmed example_env app_request [] john (Call.get_session ∷ [])
    ⊎ IsOfCookie example_env [] john
unfolding verifying
verify_auth_identified_example =
    verify_auth_identified example_env example_configuration app_request false (pos 0) start
      (record start { trace = Call.get_session ∷ [] }) john refl refl

abbrev failed_john : Auth
failed_john = record john { failed = true }

abbrev unsaved : State
unsaved = record start {
  trace =
      Call.save_session
        (record session_of_john { keep_me_logged_in = false; last_activity = pos 1_600_000_000 })
      ∷ Call.now
      ∷ Call.get_session
      ∷ [];
}

verify_user_unsaved_example :
    (s' : State) × (verify_user unsaved_env example_configuration app_request app_url failed_john
        start
      ≡ next tt s')
    × (s'.response.status ≡ 200)
    × (s'.response.body ≡ error operation_failed)
unfolding verifying
verify_user_unsaved_example =
    verify_user_unsaved unsaved_env example_configuration app_request app_url failed_john start
      unsaved refl refl

verify_get-IsLawful_example :
    IsLawfulEnd example_env (verify_get example_env example_configuration app_request start)
verify_get-IsLawful_example =
    verify_get-IsLawful example_env example_configuration app_request start tt

abbrev brief_session : UserSession
brief_session = record session_of_john { keep_me_logged_in = false }

verify_session_cookie_inactive_example :
    (auth : Auth) × (verify_session_cookie example_env
        (pos 10_000_000_000)
        false
        (pos 0)
        brief_session
        start
      ≡ next auth
          (record start { trace = Call.destroy_session ∷ Call.now ∷ Call.get_session ∷ [] }))
    × (auth.failed ≡ true)
unfolding verifying ◌-ℤ◌
verify_session_cookie_inactive_example =
    verify_session_cookie_inactive example_env (pos 10_000_000_000) false (pos 0) brief_session
      start refl (λ e. absurd (cc e)) refl (omega arith)
