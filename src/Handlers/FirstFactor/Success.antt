-- ===== src/Handlers/FirstFactor/Success.antt =====
-- What a login with the right password ends with, where no call fails.
use ldap_totp_nginx_auth.Prelude.{
  Text, ◌∷◌, Bool, true, false, ℤ, Result, ok, err, ◌≡◌, refl, sym, subst, some,
}
use ldap_totp_nginx_auth.Authentication
use ldap_totp_nginx_auth.Authentication.{UserDetails}
use ldap_totp_nginx_auth.Regulation.{AuthenticationAttempt, not_banned}
use ldap_totp_nginx_auth.Session.{UserSession, set_one_factor}
use ldap_totp_nginx_auth.Middlewares.{
  Request, UserError, Call, Trace, Env, State, Outcome, next, ◌>>=◌,
}
use ldap_totp_nginx_auth.Middlewares.Context.{get_session, save_session, regenerate_session}
use ldap_totp_nginx_auth.Middlewares.Frames.{bind-next}
use ldap_totp_nginx_auth.Handlers.{Configuration}
use ldap_totp_nginx_auth.Handlers.Profiles.{get_profile_refresh_settings}
use ldap_totp_nginx_auth.Handlers.FirstFactor.{
  FirstFactorRequestBody, wants_to_stay, mark, regulate_user, set_refresh_ttl, reply_first_factor,
  after_save, save_one_factor, use_user_details, read_user_details, keep_logged_in,
  after_regenerate, after_reset, reset_session, start_session, check_password, check_ban,
  first_factor_post,
}

-- The calls of a login succeed, and the backend knows the user.
pub record IsWorking (env : Env) (username : Text) (details : UserDetails) : Type 0 where
  pub appends : (a : AuthenticationAttempt) (t : Trace) → env.append_authentication_log a t ≡ true
  pub saves : (u : UserSession) (t : Trace) → env.save_session u t ≡ true
  pub regenerates : (t : Trace) → env.regenerate_session t ≡ true
  pub expires : (d : ℤ) (t : Trace) → env.update_expiration d t ≡ true
  pub knows : (t : Trace) → env.get_details username t ≡ ok details

module _ (env : Env) (configuration : Configuration) (request : Request)
    (body : FirstFactorRequestBody) (details : UserDetails) where
  -- The handler has saved a session of one factor of the user, and goes on to the reply.
  pub record LogsIn (result : Outcome (Unit {0})) : Type 0 where
    pub session : UserSession
    pub before : Trace
    pub state : State
    pub replies :
        result
        ≡ reply_first_factor env configuration request body session session.oidc_workflow_session
            state
    pub saved : state.trace ≡ Call.save_session session ∷ before
    pub level : session.authentication_level ≡ Authentication.Level.one_factor
    pub username : session.username ≡ details.username
    pub groups : session.groups ≡ details.groups

  module _ (works : IsWorking env body.username details) where
    save_one_factor-LogsIn :
        (u : UserSession) (s : State)
        → u.authentication_level ≡ Authentication.Level.one_factor
        → u.username ≡ details.username
        → u.groups ≡ details.groups
        → LogsIn (save_one_factor env configuration request body u s)
    unfolding save_one_factor save_session after_save
    save_one_factor-LogsIn u s level username groups = record {
      session = u;
      before = s.trace;
      state = record s { trace = Call.save_session u ∷ s.trace };
      replies = simp (works.saves u s.trace) refl;
      saved = refl;
      level = level;
      username = username;
      groups = groups;
    }

    set_refresh_ttl-LogsIn :
        (settings : Bool × ℤ) (u : UserSession) (s : State)
        → u.authentication_level ≡ Authentication.Level.one_factor
        → u.username ≡ details.username
        → u.groups ≡ details.groups
        → LogsIn
            ((set_refresh_ttl env settings u >>= save_one_factor env configuration request body) s)
    unfolding set_refresh_ttl
    set_refresh_ttl-LogsIn (false, interval) u s level username groups =
        save_one_factor-LogsIn u s level username groups
    set_refresh_ttl-LogsIn (true, interval) u s level username groups =
        save_one_factor-LogsIn _ _ level username groups

    read_user_details-LogsIn :
        (u : UserSession) (keep : Bool) (s : State)
        → LogsIn (read_user_details env configuration request body u keep true s)
    unfolding read_user_details use_user_details set_one_factor
    read_user_details-LogsIn u keep s = simp (works.knows s.trace) (
        set_refresh_ttl-LogsIn (get_profile_refresh_settings configuration.ldap_refresh_interval)
          (set_one_factor u _ details keep) _ refl refl refl)

    keep_logged_in-LogsIn :
        (u : UserSession) (keep : Bool) (s : State)
        → LogsIn (keep_logged_in env configuration request body u keep s)
    unfolding keep_logged_in
    keep_logged_in-LogsIn u false s = read_user_details-LogsIn u false s
    keep_logged_in-LogsIn u true s =
        simp (works.expires configuration.remember_me s.trace) (read_user_details-LogsIn u true _)

    after_reset-LogsIn :
        (u : UserSession) (saved : Bool) (s : State)
        → saved ≡ true
        → LogsIn (after_reset env configuration request body u saved s)
    unfolding after_reset regenerate_session after_regenerate
    after_reset-LogsIn u false s h = absurd (cc h)
    after_reset-LogsIn u true s h =
        simp (works.regenerates s.trace) (
          keep_logged_in-LogsIn u (wants_to_stay configuration.remember_me body.keep_me_logged_in)
            _)

    start_session-LogsIn :
        (marked : Bool) (s : State)
        → marked ≡ true
        → LogsIn (start_session env configuration request body marked s)
    unfolding start_session get_session reset_session save_session
    start_session-LogsIn false s h = absurd (cc h)
    start_session-LogsIn true s h = after_reset-LogsIn _ _ _ (works.saves _ _)

    check_password-LogsIn :
        (answer : Result UserError Bool) (s : State)
        → answer ≡ ok true
        → LogsIn (check_password env configuration request body answer s)
    unfolding check_password mark
    check_password-LogsIn (err e) s h = absurd (cc h)
    check_password-LogsIn (ok false) s h = absurd (cc h)
    check_password-LogsIn (ok true) s h = start_session-LogsIn _ _ (works.appends _ _)

    -- Where the user is not banned, the password is right, no call of the login fails and the
    -- backend knows the details, the handler saves a session of one factor with the name and the
    -- groups of the user and goes on to the reply.
    pub first_factor_post-LogsIn :
        (s s1 : State)
        → regulate_user env configuration.regulator body.username s ≡ next not_banned s1
        → env.check_user_password body.username body.password s1.trace ≡ ok true
        → LogsIn (first_factor_post env configuration request (some body) s)
    unfolding first_factor_post check_ban
    first_factor_post-LogsIn s s1 allowed right =
        subst LogsIn
          (sym (
            bind-next (regulate_user env configuration.regulator body.username)
              (check_ban env configuration request body) allowed))
          (check_password-LogsIn _ _ right)
