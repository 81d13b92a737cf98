-- ===== src/Handlers/Identification/Soundness.antt =====
-- Whom `verifyAuth` takes a request to come from: the user of a basic authentication has given the
-- right password, and the user of a cookie has no higher level than the stored session.
use ldap_totp_nginx_auth.Prelude.{
  if◌then◌else◌, Text, ◌∷◌, Bool-cases, subst, Bool, true, false, Option, none, some, ℤ, Result, ok,
  equal_fold, err, ◌≡◌, refl, ap, ◌⊎◌, inl, inr, ◌≤◌, arith,
}
use ldap_totp_nginx_auth.Authentication
use ldap_totp_nginx_auth.Authentication.{UserDetails, rank}
use ldap_totp_nginx_auth.Session.{UserSession}
use ldap_totp_nginx_auth.Middlewares.{
  Request, UserError, user_not_found, other_error, Call, Trace, Env, State, next, Handler, pure,
  ◌>>=◌,
}
use ldap_totp_nginx_auth.Middlewares.Context.{
  session_or_default, get_session, save_session, destroy_session,
}
use ldap_totp_nginx_auth.Middlewares.Frames.{
  IsGivenBy, IsGiving, IsGiving-pure, IsGiving-bind, IsGiving-after, IsGiving-if,
}
use ldap_totp_nginx_auth.Handlers.{Configuration}
use ldap_totp_nginx_auth.Handlers.Identification.{
  parse_basic_auth, Auth, nobody, is_basic, auth_of_session, use_details, use_checked,
  use_credentials, verify_basic_auth, finish_session_cookie, expire_session, check_profile,
  verify_session_cookie, check_session_username, verify_cookie, verify_requested_auth,
  verify_proxy_auth, verify_auth,
}
use ldap_totp_nginx_auth.Handlers.Profiles.{
  update_profile, use_profile, refresh_profile, verify_session_has_up_to_date_profile,
}

-- A session, possibly with other details, of the user and the level of `s`.
abbrev IsSameUser : UserSession → UserSession × Option UserError → Type 0
IsSameUser s (s', e) =
    (s'.username ≡ s.username) × (s'.authentication_level ≡ s.authentication_level)

-- A user whom the session `s` vouches for.
abbrev pub IsVouchedFor : UserSession → Auth → Type 0
IsVouchedFor s auth =
    (auth.is_basic_auth ≡ false)
    × (auth.username ≡ s.username)
    × (rank auth.auth_level ≤ rank s.authentication_level)

abbrev IsOfSession : UserSession → Auth → Type 0
IsOfSession s auth = auth.failed ≡ false → IsVouchedFor s auth

module _ (env : Env) where
  -- The header that the endpoint reads credentials from.
  abbrev pub credentials_header : Request → Option Text
  credentials_header request =
      if is_basic env request.query_auth then request.authorization else request.proxy_authorization

  -- The user and the password of the request's credentials are those that the backend is asked for
  -- first after the trace `t`, it confirms them, and the details of the user are the last call.
  abbrev pub IsConfirmed : Request → Trace → Auth → Trace → Type 0
  IsConfirmed request t auth t' =
      (auth.is_basic_auth ≡ true)
      × (auth.auth_level ≡ Authentication.Level.one_factor)
      × (header : Text) × (password : Text) × (credentials_header request ≡ some header)
      × (parse_basic_auth env.decode_base64 header ≡ some (auth.username, password))
      × (env.check_user_password auth.username password t ≡ ok true)
      × (t' ≡ Call.get_details auth.username ∷ Call.check_user_password auth.username password ∷ t)

  -- A user whom the session that the store gives after the trace vouches for.
  abbrev pub IsOfCookie : Trace → Auth → Type 0
  IsOfCookie t auth = IsVouchedFor (session_or_default (env.get_session t)) auth

  keeping-pure :
      (s : UserSession) (r : UserSession × Option UserError)
      → r.0.username ≡ s.username
      → r.0.authentication_level ≡ s.authentication_level
      → IsGiving (IsSameUser s) (pure r)
  keeping-pure s r h k = IsGiving-pure (IsSameUser s) r (h, k)

  keeping-after {ℓ} :
      {A : Type ℓ} (s : UserSession) (m : Handler A)
      (f : A → Handler (UserSession × Option UserError))
      → ((a : A) → IsGiving (IsSameUser s) (f a))
      → IsGiving (IsSameUser s) (m >>= f)
  keeping-after s m f h = IsGiving-after (IsSameUser s) m f h

  keeping-if :
      (s : UserSession) (b : Bool) (m n : Handler (UserSession × Option UserError))
      → IsGiving (IsSameUser s) m
      → IsGiving (IsSameUser s) n
      → IsGiving (IsSameUser s) (if b then m else n)
  keeping-if s b m n h k = IsGiving-if (IsSameUser s) b m n (λ _. h) (λ _. k)

  update_profile-IsSameUser :
      (interval : ℤ) (s : UserSession) (d : UserDetails)
      → IsGiving (IsSameUser s) (update_profile env interval s d)
  unfolding update_profile save_session
  update_profile-IsSameUser interval s d = search (keeping-pure, keeping-after, keeping-if) depth 8

  use_profile-IsSameUser :
      (interval : ℤ) (s : UserSession) (r : Result UserError UserDetails)
      → IsGiving (IsSameUser s) (use_profile env interval s r)
  unfolding use_profile
  use_profile-IsSameUser interval s (err e) = search keeping-pure
  use_profile-IsSameUser interval s (ok d) = update_profile-IsSameUser interval s d

  verify_session_has_up_to_date_profile-IsSameUser :
      (refresh : Bool) (interval : ℤ) (s : UserSession)
      → IsGiving (IsSameUser s) (verify_session_has_up_to_date_profile env refresh interval s)
  unfolding verify_session_has_up_to_date_profile refresh_profile
  verify_session_has_up_to_date_profile-IsSameUser refresh interval s =
      search (keeping-pure, keeping-after, keeping-if, use_profile-IsSameUser) depth 8

  finish_session_cookie-IsOfSession :
      (s : UserSession) (r : UserSession × Option UserError)
      → IsSameUser s r
      → IsGiving (IsOfSession s) (finish_session_cookie env r)
  unfolding finish_session_cookie destroy_session
  finish_session_cookie-IsOfSession s (s', some user_not_found) (h, k) σ =
      λ _. (refl, h, omega arith)
  finish_session_cookie-IsOfSession s (s', some other_error) (h, k) σ =
      λ _. (refl, h, omega (arith, ap rank k))
  finish_session_cookie-IsOfSession s (s', none) (h, k) σ = λ _. (refl, h, omega (arith, ap rank k))

  check_profile-IsOfSession :
      (refresh : Bool) (interval : ℤ) (s : UserSession)
      → IsGiving (IsOfSession s) (check_profile env refresh interval s)
  unfolding check_profile
  check_profile-IsOfSession refresh interval s =
      IsGiving-bind (IsSameUser s) (IsOfSession s)
        (verify_session_has_up_to_date_profile env refresh interval s) (finish_session_cookie env)
        (verify_session_has_up_to_date_profile-IsSameUser refresh interval s)
        (finish_session_cookie-IsOfSession s)

  session-failed :
      (s : UserSession) (auth : Auth) → auth.failed ≡ true → IsGiving (IsOfSession s) (pure auth)
  session-failed s auth failed σ = λ fine. absurd (cc (failed, fine))

  session-after {ℓ} :
      {A : Type ℓ} (s : UserSession) (m : Handler A) (f : A → Handler Auth)
      → ((a : A) → IsGiving (IsOfSession s) (f a))
      → IsGiving (IsOfSession s) (m >>= f)
  session-after s m f h = IsGiving-after (IsOfSession s) m f h

  session-if :
      (s : UserSession) (b : Bool) (m n : Handler Auth)
      → IsGiving (IsOfSession s) m
      → IsGiving (IsOfSession s) n
      → IsGiving (IsOfSession s) (if b then m else n)
  session-if s b m n h k = IsGiving-if (IsOfSession s) b m n (λ _. h) (λ _. k)

  expired-failed :
      (s : UserSession) (destroyed : Bool)
      → (if destroyed
          then auth_of_session s Authentication.Level.not_authenticated true
          else nobody false).failed
        ≡ true
  expired-failed s true = refl
  expired-failed s false = refl

  expire_session-IsOfSession : (s : UserSession) → IsGiving (IsOfSession s) (expire_session env s)
  unfolding expire_session
  expire_session-IsOfSession s =
      let expired : Bool → Auth = λ destroyed.
        if destroyed
        then auth_of_session s Authentication.Level.not_authenticated true
        else nobody false in
      session-after s (destroy_session env) (λ destroyed. pure (expired destroyed))
        (λ destroyed. session-failed s (expired destroyed) (expired-failed s destroyed))

  verify_session_cookie-IsOfSession :
      (inactivity : ℤ) (refresh : Bool) (interval : ℤ) (s : UserSession)
      → IsGiving (IsOfSession s) (verify_session_cookie env inactivity refresh interval s)
  unfolding verify_session_cookie
  verify_session_cookie-IsOfSession inactivity refresh interval s =
      search
        (
          session-failed, session-after, session-if, check_profile-IsOfSession,
          expire_session-IsOfSession,
        )
        depth 8

  check_session_username-IsOfSession :
      (s : UserSession) (name : Option Text) (auth : Auth)
      → IsOfSession s auth
      → IsGiving (IsOfSession s) (check_session_username env name auth)
  unfolding check_session_username
  check_session_username-IsOfSession s none auth h = IsGiving-pure (IsOfSession s) auth h
  check_session_username-IsOfSession s (some name) auth h =
      session-if s (equal_fold name auth.username) (pure auth) _
        (IsGiving-pure (IsOfSession s) auth h)
        (session-after s (destroy_session env) _
          (λ _. session-failed s (record auth { failed = true }) refl))

  verify_cookie-IsOfCookie :
      (inactivity : ℤ) (refresh : Bool) (interval : ℤ) (name : Option Text) (s : State)
      → IsGivenBy
          (λ auth. auth.failed ≡ false → IsOfCookie s.trace auth)
          (verify_cookie env inactivity refresh interval name s)
  unfolding verify_cookie get_session
  verify_cookie-IsOfCookie inactivity refresh interval name σ =
      let s = session_or_default (env.get_session σ.trace) in
      IsGiving-bind (IsOfSession s) (IsOfSession s)
        (verify_session_cookie env inactivity refresh interval s) (check_session_username env name)
        (verify_session_cookie-IsOfSession inactivity refresh interval s)
        (check_session_username-IsOfSession s name) _

  use_details_lem :
      (username : Text) (r : Result UserError UserDetails) (s s' : State) (auth : Auth)
      → use_details env username r s ≡ next auth s'
      → auth.failed ≡ false
      → (auth.is_basic_auth ≡ true)
        × (auth.auth_level ≡ Authentication.Level.one_factor)
        × (auth.username ≡ username)
        × (s'.trace ≡ s.trace)
  unfolding use_details
  use_details_lem username (err e) s s' auth h fine = ground arith
  use_details_lem username (ok details) s s' auth h fine = ground arith

  use_checked_lem :
      (username : Text) (r : Result UserError Bool) (s s' : State) (auth : Auth)
      → use_checked env username r s ≡ next auth s'
      → auth.failed ≡ false
      → (r ≡ ok true)
        × (auth.is_basic_auth ≡ true)
        × (auth.auth_level ≡ Authentication.Level.one_factor)
        × (auth.username ≡ username)
        × (s'.trace ≡ Call.get_details username ∷ s.trace)
  unfolding use_checked
  use_checked_lem username (err e) s s' auth h fine = absurd (ground arith)
  use_checked_lem username (ok false) s s' auth h fine = absurd (ground arith)
  use_checked_lem username (ok true) s s' auth h fine =
      let (basic, level, same, trace) = use_details_lem username _ _ s' auth h fine in
      (refl, basic, level, same, trace)

  use_credentials_lem :
      (c : Option (Text × Text)) (s s' : State) (auth : Auth)
      → use_credentials env c s ≡ next auth s'
      → auth.failed ≡ false
      → (auth.is_basic_auth ≡ true)
        × (auth.auth_level ≡ Authentication.Level.one_factor)
        × (password : Text) × (c ≡ some (auth.username, password))
        × (env.check_user_password auth.username password s.trace ≡ ok true)
        × (s'.trace
            ≡ Call.get_details auth.username
              ∷ Call.check_user_password auth.username password
              ∷ s.trace)
  unfolding use_credentials
  use_credentials_lem none s s' auth h fine = absurd (ground arith)
  use_credentials_lem (some (username, password)) s s' auth h fine =
      let (right, basic, level, same, trace) =
        use_checked_lem username (env.check_user_password username password s.trace) _ s' auth h
          fine in
      (basic, level, password, rw same refl, rw same right, rw same trace)

  use_header_lem :
      (header : Text) (request : Request) (s s' : State) (auth : Auth)
      → credentials_header request ≡ some header
      → verify_basic_auth env header s ≡ next auth s'
      → auth.failed ≡ false
      → IsConfirmed request s.trace auth s'.trace
  unfolding verify_basic_auth
  use_header_lem header request s s' auth given h fine =
      let (basic, level, password, parsed, right, trace) =
        use_credentials_lem (parse_basic_auth env.decode_base64 header) s s' auth h fine in
      (basic, level, header, password, given, parsed, right, trace)

  verify_requested_auth_lem :
      (header : Option Text) (request : Request) (s s' : State) (auth : Auth)
      → credentials_header request ≡ header
      → verify_requested_auth env header s ≡ next auth s'
      → auth.failed ≡ false
      → IsConfirmed request s.trace auth s'.trace
  unfolding verify_requested_auth
  verify_requested_auth_lem none request s s' auth given h fine = absurd (ground arith)
  verify_requested_auth_lem (some header) request s s' auth given h fine =
      use_header_lem header request s s' auth given h fine

  verify_proxy_auth_lem :
      (header : Option Text) (configuration : Configuration) (request : Request) (refresh : Bool)
      (interval : ℤ) (s s' : State) (auth : Auth)
      → credentials_header request ≡ header
      → verify_proxy_auth env header configuration request refresh interval s ≡ next auth s'
      → auth.failed ≡ false
      → IsConfirmed request s.trace auth s'.trace ⊎ IsOfCookie s.trace auth
  unfolding verify_proxy_auth
  verify_proxy_auth_lem none configuration request refresh interval s s' auth given h fine =
      let known =
        verify_cookie-IsOfCookie configuration.inactivity refresh interval request.session_username
          s in
      inr (subst (IsGivenBy (λ auth. auth.failed ≡ false → IsOfCookie s.trace auth)) h known fine)
  verify_proxy_auth_lem (some header) configuration request refresh interval s s' auth given h
        fine =
      inl (use_header_lem header request s s' auth given h fine)

  -- A user that the endpoint identifies without an error either is that of the credentials in the
  -- header that the request names, which the backend has been asked for and has confirmed, and has
  -- the level of one factor; or is the user of the session that the store has given for the
  -- request and has no higher level than that session.
  pub verify_auth_identified :
      (configuration : Configuration) (request : Request) (refresh : Bool) (interval : ℤ)
      (s s' : State) (auth : Auth)
      → verify_auth env configuration request refresh interval s ≡ next auth s'
      → auth.failed ≡ false
      → IsConfirmed request s.trace auth s'.trace ⊎ IsOfCookie s.trace auth
  unfolding verify_auth
  verify_auth_identified configuration request refresh interval s s' auth e fine =
      elim (Bool-cases (is_basic env request.query_auth)) [
        | inl requested ↦ inl (
            verify_requested_auth_lem request.authorization request s s' auth (simp requested refl)
              (simp requested at e) fine)
        | inr otherwise ↦
            verify_proxy_auth_lem request.proxy_authorization configuration request refresh interval
              s s' auth (simp otherwise refl) (simp otherwise at e) fine
      ]
