-- ===== src/Tests/Logins.antt =====
-- Logins with a password and with each of the second factors.
use ldap_totp_nginx_auth.Prelude.{
  Text, List, arith, [], ◌∷◌, lit, true, false, some, none, ok, ◌≡◌, ◌≢◌, ◌⊎◌, refl, ℤ, pos, ◌-ℤ◌,
  ◌+ℤ◌,
}
use ldap_totp_nginx_auth.Middlewares.{
  user_banned, authentication_failed, redirect, safe_target_url, blank, Call, Env, State, next,
}
use ldap_totp_nginx_auth.Handlers.FirstFactor.{
  FirstFactorRequestBody, first_factor_post, logging_in,
}
use ldap_totp_nginx_auth.Handlers.SecondFactor.{
  SignTotpRequestBody, SignU2fRequestBody, second_factor_totp_post, second_factor_u2f_sign_post,
  is_safe_target, logout_post, second_factors,
}
use ldap_totp_nginx_auth.Handlers.Sessions.{IsLawfulEnd}
use ldap_totp_nginx_auth.Handlers.Sessions.FirstFactor.{first_factor_post-IsLawful}
use ldap_totp_nginx_auth.Handlers.Sessions.SecondFactor.{
  second_factor_totp_post-IsLawful, second_factor_u2f_sign_post-IsLawful,
}
use ldap_totp_nginx_auth.Handlers.FirstFactor.Outcomes.{
  refused, failed_attempt, regulated, first_factor_post_banned, first_factor_post_wrong,
}
use ldap_totp_nginx_auth.Handlers.FirstFactor.Success.{IsWorking, LogsIn, first_factor_post-LogsIn}
use ldap_totp_nginx_auth.Handlers.SecondFactor.Logout.{logout_post_lem}
use ldap_totp_nginx_auth.Handlers.Responses.{is_redirection_safe}
use ldap_totp_nginx_auth.Handlers.Responses.Targets.{handle_1fa_response-redirect}
use ldap_totp_nginx_auth.Regulation.{AuthenticationAttempt}
use ldap_totp_nginx_auth.Authorization.{Url, Level, new_object}
use ldap_totp_nginx_auth.Authorization.Rules.{get_required_level}
use ldap_totp_nginx_auth.Middlewares.Context.{remote_ip}
use ldap_totp_nginx_auth.Regulation.Failures.{IsBruteForce}
use ldap_totp_nginx_auth.Tests.{
  three_in_two_minutes, app_authorizer, details_of_john, example_configuration, app_request,
  example_env, start,
}

abbrev password_body : FirstFactorRequestBody
password_body = record {
  username = lit "john";
  password = lit "password";
  target_url = [];
  request_method = [];
  keep_me_logged_in = none;
}

first_factor_post-IsLawful_example :
    IsLawfulEnd example_env
      (first_factor_post example_env example_configuration app_request (some password_body) start)
first_factor_post-IsLawful_example =
    first_factor_post-IsLawful example_env example_configuration app_request (some password_body)
      start tt

abbrev totp_body : SignTotpRequestBody
totp_body = record { token = lit "123456"; target_url = [] }

second_factor_totp_post-IsLawful_example :
    IsLawfulEnd example_env
      (second_factor_totp_post example_env example_configuration app_request (some totp_body) start)
second_factor_totp_post-IsLawful_example =
    second_factor_totp_post-IsLawful example_env example_configuration app_request (some totp_body)
      start tt

abbrev u2f_body : SignU2fRequestBody
u2f_body = record { sign_response = lit "response"; target_url = [] }

second_factor_u2f_sign_post-IsLawful_example : IsLawfulEnd example_env (
    second_factor_u2f_sign_post example_env example_configuration app_request (some u2f_body) start)
second_factor_u2f_sign_post-IsLawful_example =
    second_factor_u2f_sign_post-IsLawful example_env example_configuration app_request
      (some u2f_body) start tt

abbrev failure_at : ℤ → AuthenticationAttempt
failure_at time = record { username = lit "john"; successful = false; time = time }

-- John has failed three times in the last seconds.
abbrev three_failed : List AuthenticationAttempt
three_failed =
    failure_at (pos 1_599_999_999_000_000_000)
    ∷ failure_at (pos 1_599_999_998_000_000_000)
    ∷ failure_at (pos 1_599_999_997_000_000_000)
    ∷ []

abbrev banned_env : Env
banned_env = record example_env { load_latest_authentication_logs = λ u d t. some three_failed }

abbrev loaded : State
loaded = record start {
  trace =
      Call.load_latest_authentication_logs (lit "john") (pos 1_599_999_700_000_000_000)
      ∷ Call.now
      ∷ [];
}

three_failed-IsBruteForce :
    IsBruteForce three_in_two_minutes three_failed (pos 1_600_000_299_000_000_000)
unfolding ◌+ℤ◌ ◌-ℤ◌
three_failed-IsBruteForce = record {
  latest = failure_at (pos 1_599_999_999_000_000_000);
  oldest = failure_at (pos 1_599_999_997_000_000_000);
  first = refl;
  last = refl;
  all_failed = (refl, (refl, (refl, tt)));
  within = omega arith;
  ends = refl;
}

first_factor_post_banned_example :
    first_factor_post banned_env example_configuration app_request (some password_body) start
    ≡ next tt (
        refused user_banned (record start {
          trace = regulated banned_env example_configuration app_request (lit "john") [];
        }))
first_factor_post_banned_example =
    first_factor_post_banned banned_env example_configuration app_request password_body three_failed
      (pos 1_600_000_299_000_000_000) start refl (omega arith) (omega arith) refl
      three_failed-IsBruteForce

abbrev wrong_env : Env
wrong_env = record example_env { check_user_password = λ u p t. ok false }

first_factor_post_wrong_example :
    first_factor_post wrong_env example_configuration app_request (some password_body) start
    ≡ next tt (
        refused authentication_failed (record loaded {
          trace =
              failed_attempt wrong_env example_configuration app_request password_body loaded.trace;
        }))
unfolding logging_in ◌+ℤ◌ ◌-ℤ◌
first_factor_post_wrong_example =
    first_factor_post_wrong wrong_env example_configuration app_request password_body start loaded
      refl (λ e. absurd (cc e))

example_env_works : IsWorking example_env (lit "john") details_of_john
example_env_works = record {
  appends = λ a t. refl;
  saves = λ u t. refl;
  regenerates = λ t. refl;
  expires = λ d t. refl;
  knows = λ t. refl;
}

first_factor_post-LogsIn_example :
    LogsIn example_env example_configuration app_request password_body details_of_john
      (first_factor_post example_env example_configuration app_request (some password_body) start)
unfolding logging_in ◌+ℤ◌ ◌-ℤ◌
first_factor_post-LogsIn_example =
    first_factor_post-LogsIn example_env example_configuration app_request password_body
      details_of_john example_env_works start loaded refl refl

logout_post_lem_example :
    (s' : State) × (logout_post example_env example_configuration app_request
        (λ t. none)
        (some (lit "x"))
        start
      ≡ next tt s')
    × (s'.trace ≡ Call.destroy_session ∷ [])
    × (s'.response.status ≡ 200)
    × (s'.response.body
        ≡ safe_target_url (is_safe_target example_env example_configuration app_request none))
logout_post_lem_example =
    logout_post_lem example_env example_configuration app_request (λ t. none) (some (lit "x")) start

abbrev home : Text
home = lit "https://app.example.com/"

abbrev sent_home : State
sent_home = record start { response = record blank { body = redirect home } }

handle_1fa_response-redirect_example :
    (home ≡ [])
    ⊎ ((url : Url) × (example_env.parse_request_uri home ≡ some url)
        × (is_redirection_safe url (lit "example.com") ≡ true)
        × (get_required_level app_authorizer
              (record {
                username = lit "john";
                groups = lit "admins" ∷ [];
                ip = remote_ip example_env app_request;
              })
              (new_object url (lit "GET"))
            ≢ Level.two_factor))
unfolding second_factors
handle_1fa_response-redirect_example =
    handle_1fa_response-redirect example_env example_configuration app_request home (lit "GET")
      (lit "john") (lit "admins" ∷ []) start sent_home home refl refl refl
