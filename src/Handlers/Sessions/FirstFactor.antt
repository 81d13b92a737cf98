-- ===== src/Handlers/Sessions/FirstFactor.antt =====
-- Logging in with a password saves a session of one factor only for a user whose password the
-- backend has confirmed, and under a new session id.
use ldap_totp_nginx_auth.Prelude.{
  Text, ◌∷◌, Bool, true, false, Option, none, some, Result, ok, err, ◌≡◌, refl, sym, ℤ,
}
use ldap_totp_nginx_auth.Authentication
use ldap_totp_nginx_auth.Authentication.{UserDetails}
use ldap_totp_nginx_auth.Regulation.{Regulator, Verdict, not_banned, banned, panics}
use ldap_totp_nginx_auth.Session.{
  UserSession, OidcWorkflowSession, new_default_user_session, set_one_factor,
}
use ldap_totp_nginx_auth.Middlewares.{Request, UserError, Call, Trace, Env, State, ◌>>=◌}
use ldap_totp_nginx_auth.Middlewares.Context.{get_session, save_session, regenerate_session}
use ldap_totp_nginx_auth.Handlers.{Configuration}
use ldap_totp_nginx_auth.Handlers.Profiles.{get_profile_refresh_settings}
use ldap_totp_nginx_auth.Handlers.FirstFactor.{
  FirstFactorRequestBody, wants_to_stay, mark, regulate_user, set_refresh_ttl, reply_first_factor,
  after_save, save_one_factor, use_user_details, read_user_details, keep_logged_in,
  after_regenerate, after_reset, reset_session, start_session, check_password, check_ban,
  first_factor_post,
}
use ldap_totp_nginx_auth.Handlers.Sessions.{
  Happened, at_last, earlier, ConfirmsPassword, NamesUser, Regenerates, IsEarned, anonymous, first,
  IsLawful, IsLawfulEnd,
}
use ldap_totp_nginx_auth.Handlers.Sessions.Replies.{
  IsSafe, IsSafe-if, IsSafe-bind, IsSafe-now, handle_authentication_unauthorized-IsSafe,
  handle_oidc_workflow_response-IsSafe, handle_1fa_response-IsSafe,
}

module _ (env : Env) where
  regulate_user-IsSafe :
      (regulator : Regulator) (username : Text) → IsSafe env (regulate_user env regulator username)
  unfolding regulate_user
  regulate_user-IsSafe regulator username = search (IsSafe-if, IsSafe-now)

module _ (env : Env) (configuration : Configuration) (request : Request) where
  reply_first_factor-IsSafe :
      (body : FirstFactorRequestBody) (s : UserSession) (w : Option OidcWorkflowSession)
      → IsSafe env (reply_first_factor env configuration request body s w)
  unfolding reply_first_factor
  reply_first_factor-IsSafe body s none =
      handle_1fa_response-IsSafe env configuration request _ _ _ _
  reply_first_factor-IsSafe body s (some w) =
      handle_oidc_workflow_response-IsSafe env configuration request

  after_save-IsSafe :
      (body : FirstFactorRequestBody) (s : UserSession) (saved : Bool)
      → IsSafe env (after_save env configuration request body s saved)
  unfolding after_save
  after_save-IsSafe body s true = reply_first_factor-IsSafe body s s.oidc_workflow_session
  after_save-IsSafe body s false = handle_authentication_unauthorized-IsSafe env _

  save_one_factor_lem :
      (body : FirstFactorRequestBody) (s : UserSession) (σ : State)
      → IsEarned env s σ.trace
      → IsLawful env σ.trace
      → IsLawfulEnd env (save_one_factor env configuration request body s σ)
  unfolding save_one_factor save_session
  save_one_factor_lem body s σ earned h =
      after_save-IsSafe body s (env.save_session s σ.trace) _ (earned, h)

  -- What the trace holds once the session id is new.
  abbrev IsReady : FirstFactorRequestBody → Trace → Type 0
  IsReady body t =
      Happened (ConfirmsPassword env body.username body.password) t
      × Happened (Regenerates env) t
      × IsLawful env t

  one_factor-IsEarned :
      (body : FirstFactorRequestBody) (s : UserSession) (t : Trace)
      → s.authentication_level ≡ Authentication.Level.one_factor
      → IsReady body t
      → Happened (NamesUser env body.username s.username) t
      → IsEarned env s t
  one_factor-IsEarned body s t level (confirmed, regenerated, _) named =
      first body.username body.password level confirmed regenerated named

  set_refresh_ttl_lem :
      (body : FirstFactorRequestBody) (settings : Bool × ℤ) (s : UserSession) (σ : State)
      → s.authentication_level ≡ Authentication.Level.one_factor
      → IsReady body σ.trace
      → Happened (NamesUser env body.username s.username) σ.trace
      → IsLawfulEnd env
          ((set_refresh_ttl env settings s >>= save_one_factor env configuration request body) σ)
  unfolding set_refresh_ttl
  set_refresh_ttl_lem body (false, interval) s σ level (confirmed, regenerated, h) named =
      save_one_factor_lem body s σ
        (one_factor-IsEarned body s _ level (confirmed, regenerated, h) named) h
  set_refresh_ttl_lem body (true, interval) s σ level (confirmed, regenerated, h) named =
      save_one_factor_lem body _ _
        (one_factor-IsEarned body _ _ level (earlier confirmed, earlier regenerated, h)
          (earlier named))
        h

  use_user_details_lem :
      (body : FirstFactorRequestBody) (s : UserSession) (keep : Bool)
      (answer : Result UserError UserDetails) (σ : State)
      → answer ≡ env.get_details body.username σ.trace
      → IsReady body σ.trace
      → IsLawfulEnd env (
          use_user_details env configuration request body s keep answer
            (record σ { trace = Call.get_details body.username ∷ σ.trace }))
  unfolding use_user_details set_one_factor
  use_user_details_lem body s keep (err e) σ answered (_, _, h) =
      handle_authentication_unauthorized-IsSafe env _ _ h
  use_user_details_lem body s keep (ok details) σ answered (confirmed, regenerated, h) =
      set_refresh_ttl_lem body (get_profile_refresh_settings configuration.ldap_refresh_interval)
        (set_one_factor s _ details keep) _ refl
        (earlier (earlier confirmed), earlier (earlier regenerated), h)
        (earlier (at_last (refl, details, sym answered, refl)))

  read_user_details_lem :
      (body : FirstFactorRequestBody) (s : UserSession) (keep updated : Bool) (σ : State)
      → IsReady body σ.trace
      → IsLawfulEnd env (read_user_details env configuration request body s keep updated σ)
  unfolding read_user_details
  read_user_details_lem body s keep false σ (_, _, h) =
      handle_authentication_unauthorized-IsSafe env _ σ h
  read_user_details_lem body s keep true σ ready =
      use_user_details_lem body s keep (env.get_details body.username σ.trace) σ refl ready

  keep_logged_in_lem :
      (body : FirstFactorRequestBody) (s : UserSession) (keep : Bool) (σ : State)
      → IsReady body σ.trace
      → IsLawfulEnd env (keep_logged_in env configuration request body s keep σ)
  unfolding keep_logged_in
  keep_logged_in_lem body s false σ ready = read_user_details_lem body s false true σ ready
  keep_logged_in_lem body s true σ (confirmed, regenerated, h) =
      read_user_details_lem body s true (env.update_expiration configuration.remember_me σ.trace) _
        (earlier confirmed, earlier regenerated, h)

  abbrev IsConfirmed : FirstFactorRequestBody → Trace → Type 0
  IsConfirmed body t =
      Happened (ConfirmsPassword env body.username body.password) t × IsLawful env t

  after_regenerate_lem :
      (body : FirstFactorRequestBody) (s : UserSession) (done : Bool) (σ : State)
      → done ≡ env.regenerate_session σ.trace
      → IsConfirmed body σ.trace
      → IsLawfulEnd env (
          after_regenerate env configuration request body s done
            (record σ { trace = Call.regenerate_session ∷ σ.trace }))
  unfolding after_regenerate
  after_regenerate_lem body s false σ answered (_, h) =
      handle_authentication_unauthorized-IsSafe env _ _ h
  after_regenerate_lem body s true σ answered (confirmed, h) =
      keep_logged_in_lem body s (wants_to_stay configuration.remember_me body.keep_me_logged_in) _
        (earlier confirmed, at_last (refl, sym answered), h)

  after_reset_lem :
      (body : FirstFactorRequestBody) (s : UserSession) (saved : Bool) (σ : State)
      → IsConfirmed body σ.trace
      → IsLawfulEnd env (after_reset env configuration request body s saved σ)
  unfolding after_reset regenerate_session
  after_reset_lem body s false σ (_, h) = handle_authentication_unauthorized-IsSafe env _ σ h
  after_reset_lem body s true σ ready =
      after_regenerate_lem body s (env.regenerate_session σ.trace) σ refl ready

  reset_session_lem :
      (body : FirstFactorRequestBody) (s : UserSession) (σ : State)
      → IsConfirmed body σ.trace
      → IsLawfulEnd env (reset_session env configuration request body s σ)
  unfolding reset_session save_session new_default_user_session
  reset_session_lem body s σ (confirmed, h) =
      after_reset_lem body s _ _ (earlier confirmed, (anonymous refl refl, h))

  start_session_lem :
      (body : FirstFactorRequestBody) (marked : Bool) (σ : State)
      → IsConfirmed body σ.trace
      → IsLawfulEnd env (start_session env configuration request body marked σ)
  unfolding start_session get_session
  start_session_lem body false σ (_, h) = handle_authentication_unauthorized-IsSafe env _ σ h
  start_session_lem body true σ (confirmed, h) = reset_session_lem body _ _ (earlier confirmed, h)

  check_password_lem :
      (body : FirstFactorRequestBody) (answer : Result UserError Bool) (σ : State)
      → answer ≡ env.check_user_password body.username body.password σ.trace
      → IsLawful env σ.trace
      → IsLawfulEnd env (
          check_password env configuration request body answer
            (record σ { trace = Call.check_user_password body.username body.password ∷ σ.trace }))
  unfolding check_password mark
  check_password_lem body (err e) σ answered h = handle_authentication_unauthorized-IsSafe env _ _ h
  check_password_lem body (ok false) σ answered h =
      handle_authentication_unauthorized-IsSafe env _ _ h
  check_password_lem body (ok true) σ answered h =
      start_session_lem body _ _ (earlier (earlier (at_last (refl, sym answered))), h)

  check_ban_lem :
      (body : FirstFactorRequestBody) (verdict : Verdict)
      → IsSafe env (check_ban env configuration request body verdict)
  unfolding check_ban
  check_ban_lem body (banned until) σ h = handle_authentication_unauthorized-IsSafe env _ σ h
  check_ban_lem body panics σ h = tt
  check_ban_lem body not_banned σ h = check_password_lem body _ σ refl h

  -- Logging in with a password keeps it true that every session that is saved has earned its
  -- level: it is anonymous, or has the user and the level of a session that the store has given,
  -- or has one factor after a password was confirmed, the session id regenerated and the details
  -- of that user read, or has two factors after a factor of the user of a session that the store
  -- has given was accepted and the session id regenerated.
  pub first_factor_post-IsLawful :
      (body : Option FirstFactorRequestBody) (σ : State)
      → IsLawful env σ.trace
      → IsLawfulEnd env (first_factor_post env configuration request body σ)
  unfolding first_factor_post
  first_factor_post-IsLawful none = handle_authentication_unauthorized-IsSafe env _
  first_factor_post-IsLawful (some body) =
      IsSafe-bind env (regulate_user env configuration.regulator body.username)
        (check_ban env configuration request body)
        (regulate_user-IsSafe env configuration.regulator body.username) (check_ban_lem body)
