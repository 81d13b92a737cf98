-- ===== src/Handlers/Sessions/Identification.antt =====
-- Finding out who sends a request raises no session.
use ldap_totp_nginx_auth.Prelude.{
  Text, Bool, true, false, Bool-cases, inl, inr, Option, none, some, Result, ok, err, ℤ, ◌≡◌,
}
use ldap_totp_nginx_auth.Authentication.{UserDetails}
use ldap_totp_nginx_auth.Session.{UserSession}
use ldap_totp_nginx_auth.Middlewares.{
  Request, UserError, user_not_found, other_error, Env, Handler, ◌>>=◌,
}
use ldap_totp_nginx_auth.Middlewares.Context.{get_session, save_session, destroy_session}
use ldap_totp_nginx_auth.Handlers.{Configuration}
use ldap_totp_nginx_auth.Handlers.Profiles.{
  save_profile, update_profile, use_profile, refresh_profile, verify_session_has_up_to_date_profile,
  is_zero, whole_seconds,
}
use ldap_totp_nginx_auth.Handlers.Identification.{
  Auth, has_user_been_inactive_too_long, use_details, use_checked, use_credentials,
  verify_basic_auth, finish_session_cookie, expire_session, check_profile, verify_session_cookie,
  check_session_username, verify_cookie, verify_requested_auth, verify_proxy_auth, verify_auth,
}
use ldap_totp_nginx_auth.Handlers.Verify.{update_activity_timestamp}
use ldap_totp_nginx_auth.Handlers.Sessions.{earlier}
use ldap_totp_nginx_auth.Handlers.Sessions.Replies.{IsSafe, IsSafe-pure, IsSafe-if, IsSafe-bind}
use ldap_totp_nginx_auth.Handlers.Sessions.Keeping.{
  IsKeeping, IsKeeping-pure, IsKeeping-if, IsKeeping-now, IsKeeping-get_details,
  IsKeeping-save_session, IsKeeping-then, get_session-IsKeeping, is_profile_fresh-IsKeeping,
  IsSafe-destroy_session,
}

module _ (env : Env) where
  save_profile-IsKeeping :
      (u v : UserSession)
      → v.authentication_level ≡ u.authentication_level
      → v.username ≡ u.username
      → IsKeeping env u (save_profile env v)
  save_profile-IsKeeping u v level name =
      IsKeeping-then env u (save_session env v) _ (IsKeeping-save_session env u v level name)
        (λ saved σ h. h)

  update_profile-IsKeeping :
      (interval : ℤ) (u : UserSession) (d : UserDetails)
      → IsKeeping env u (update_profile env interval u d)
  unfolding update_profile
  update_profile-IsKeeping interval u d =
      search (IsKeeping-pure, IsKeeping-if, IsKeeping-now, save_profile-IsKeeping) depth 8

  use_profile-IsKeeping :
      (interval : ℤ) (u : UserSession) (r : Result UserError UserDetails)
      → IsKeeping env u (use_profile env interval u r)
  unfolding use_profile
  use_profile-IsKeeping interval u (err e) = search IsKeeping-pure
  use_profile-IsKeeping interval u (ok d) = update_profile-IsKeeping interval u d

  verify_session_has_up_to_date_profile-IsKeeping :
      (refresh : Bool) (interval : ℤ) (u : UserSession)
      → IsKeeping env u (verify_session_has_up_to_date_profile env refresh interval u)
  unfolding verify_session_has_up_to_date_profile refresh_profile
  verify_session_has_up_to_date_profile-IsKeeping refresh interval u =
      search
        (
          IsKeeping-pure, IsKeeping-if, IsKeeping-get_details, is_profile_fresh-IsKeeping,
          use_profile-IsKeeping,
        )
        depth 8

  finish_session_cookie-IsSafe :
      (r : UserSession × Option UserError) → IsSafe env (finish_session_cookie env r)
  unfolding finish_session_cookie destroy_session
  finish_session_cookie-IsSafe (s, some user_not_found) σ h = h
  finish_session_cookie-IsSafe (s, some other_error) σ h = h
  finish_session_cookie-IsSafe (s, none) σ h = h

  check_profile-IsKeeping :
      (refresh : Bool) (interval : ℤ) (u : UserSession)
      → IsKeeping env u (check_profile env refresh interval u)
  unfolding check_profile
  check_profile-IsKeeping refresh interval u =
      IsKeeping-then env u (verify_session_has_up_to_date_profile env refresh interval u)
        (finish_session_cookie env)
        (verify_session_has_up_to_date_profile-IsKeeping refresh interval u)
        finish_session_cookie-IsSafe

  expire_session-IsKeeping : (u : UserSession) → IsKeeping env u (expire_session env u)
  unfolding expire_session destroy_session
  expire_session-IsKeeping u σ given h = h

  has_user_been_inactive_too_long-IsKeeping {ℓ} :
      {A : Type ℓ} (inactivity : ℤ) (u : UserSession) (f : Bool → Handler A)
      → ((b : Bool) → IsKeeping env u (f b))
      → IsKeeping env u (has_user_been_inactive_too_long env inactivity >>= f)
  unfolding has_user_been_inactive_too_long get_session
  has_user_been_inactive_too_long-IsKeeping inactivity u f k σ given h =
      elim (Bool-cases (is_zero (whole_seconds inactivity))) [
        | inl never ↦ simp never (k false σ given h)
        | inr sometimes ↦ simp sometimes (k _ _ (earlier (earlier given)) h)
      ]

  verify_session_cookie-IsKeeping :
      (inactivity : ℤ) (refresh : Bool) (interval : ℤ) (u : UserSession)
      → IsKeeping env u (verify_session_cookie env inactivity refresh interval u)
  unfolding verify_session_cookie
  verify_session_cookie-IsKeeping inactivity refresh interval u =
      search
        (
          IsKeeping-pure, IsKeeping-if, has_user_been_inactive_too_long-IsKeeping,
          expire_session-IsKeeping, check_profile-IsKeeping,
        )
        depth 8

  check_session_username-IsSafe :
      (name : Option Text) (auth : Auth) → IsSafe env (check_session_username env name auth)
  unfolding check_session_username
  check_session_username-IsSafe none auth = search IsSafe-pure
  check_session_username-IsSafe (some name) auth =
      search (IsSafe-pure, IsSafe-if, IsSafe-bind, IsSafe-destroy_session)

  verify_cookie-IsSafe :
      (inactivity : ℤ) (refresh : Bool) (interval : ℤ) (name : Option Text)
      → IsSafe env (verify_cookie env inactivity refresh interval name)
  unfolding verify_cookie
  verify_cookie-IsSafe inactivity refresh interval name =
      get_session-IsKeeping env
        (λ u.
          verify_session_cookie env inactivity refresh interval u
          >>= check_session_username env name)
        (λ u.
          IsKeeping-then env u (verify_session_cookie env inactivity refresh interval u)
            (check_session_username env name)
            (verify_session_cookie-IsKeeping inactivity refresh interval u)
            (check_session_username-IsSafe name))

  use_details-IsSafe :
      (username : Text) (r : Result UserError UserDetails) → IsSafe env (use_details env username r)
  unfolding use_details
  use_details-IsSafe username (err e) σ h = h
  use_details-IsSafe username (ok d) σ h = h

  use_checked-IsSafe :
      (username : Text) (r : Result UserError Bool) → IsSafe env (use_checked env username r)
  unfolding use_checked
  use_checked-IsSafe username (err e) σ h = h
  use_checked-IsSafe username (ok false) σ h = h
  use_checked-IsSafe username (ok true) σ h = use_details-IsSafe username _ _ h

  use_credentials-IsSafe : (c : Option (Text × Text)) → IsSafe env (use_credentials env c)
  unfolding use_credentials
  use_credentials-IsSafe none σ h = h
  use_credentials-IsSafe (some (username, password)) σ h = use_checked-IsSafe username _ _ h

  verify_requested_auth-IsSafe :
      (header : Option Text) → IsSafe env (verify_requested_auth env header)
  unfolding verify_requested_auth verify_basic_auth
  verify_requested_auth-IsSafe none σ h = h
  verify_requested_auth-IsSafe (some header) σ h = use_credentials-IsSafe _ σ h

  verify_proxy_auth-IsSafe :
      (header : Option Text) (configuration : Configuration) (request : Request) (refresh : Bool)
      (interval : ℤ)
      → IsSafe env (verify_proxy_auth env header configuration request refresh interval)
  unfolding verify_proxy_auth verify_basic_auth
  verify_proxy_auth-IsSafe none configuration request refresh interval =
      verify_cookie-IsSafe configuration.inactivity refresh interval request.session_username
  verify_proxy_auth-IsSafe (some header) configuration request refresh interval =
      use_credentials-IsSafe _

  pub verify_auth-IsSafe :
      (configuration : Configuration) (request : Request) (refresh : Bool) (interval : ℤ)
      → IsSafe env (verify_auth env configuration request refresh interval)
  unfolding verify_auth
  verify_auth-IsSafe configuration request refresh interval =
      search (IsSafe-if, verify_requested_auth-IsSafe, verify_proxy_auth-IsSafe)

  pub update_activity_timestamp-IsSafe :
      (is_basic_auth : Bool) (username : Text)
      → IsSafe env (update_activity_timestamp env is_basic_auth username)
  unfolding update_activity_timestamp
  update_activity_timestamp-IsSafe is_basic_auth username =
      search
        (
          IsSafe-pure, IsSafe-if, get_session-IsKeeping, IsKeeping-pure, IsKeeping-if,
          IsKeeping-now, IsKeeping-save_session,
        )
        depth 8
