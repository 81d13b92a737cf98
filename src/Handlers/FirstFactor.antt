-- ===== src/Handlers/FirstFactor.antt =====
-- handler_firstfactor.go: logging in with a password, and `Mark` of internal/regulation.
pub mod Delay
pub mod Outcomes
pub mod Success
use ldap_totp_nginx_auth.Prelude.{
  if◌then◌else◌, Text, Bool, true, false, not, ◌&&◌, Option, none, some, Result, ok, err, ℤ, ◌+ℤ◌,
  ◌-ℤ◌,
}
use ldap_totp_nginx_auth.Authentication.{UserDetails}
use ldap_totp_nginx_auth.Regulation.{
  AuthenticationAttempt, Regulator, Verdict, not_banned, banned, panics, judge, regulating,
}
use ldap_totp_nginx_auth.Session.{
  UserSession, OidcWorkflowSession, new_default_user_session, set_one_factor,
}
use ldap_totp_nginx_auth.Middlewares.{
  Request, authentication_failed, user_banned, UserError, Call, Env, panicked, Handler, pure,
  perform, ◌>>=◌, ◌>>◌,
}
use ldap_totp_nginx_auth.Middlewares.Context.{get_session, save_session, regenerate_session}
use ldap_totp_nginx_auth.Handlers.{Configuration}
use ldap_totp_nginx_auth.Handlers.Responses.{
  handle_authentication_unauthorized, handle_oidc_workflow_response, handle_1fa_response, replying,
}
use ldap_totp_nginx_auth.Handlers.Profiles.{is_zero, get_profile_refresh_settings}
use ldap_totp_nginx_auth.Handlers.Verify.{verifying}

-- `firstFactorRequestBody` of types.go.
pub record FirstFactorRequestBody : Type 0 where
  pub username : Text
  pub password : Text
  pub target_url : Text
  pub request_method : Text
  pub keep_me_logged_in : Option Bool

-- Whether the session is to outlive the browser's.
unfoldable pub wants_to_stay : ℤ → Option Bool → Bool
wants_to_stay remember_me none = false
wants_to_stay remember_me (some keep) = not (is_zero remember_me) && keep

abbrev pub refuse : Handler (Unit {0})
refuse = handle_authentication_unauthorized authentication_failed

module _ (env : Env) where
  -- `Mark`.
  unfoldable pub mark : Text → Bool → Handler Bool
  mark username successful = do
    now ← perform Call.now env.now
    let attempt : AuthenticationAttempt = record {
      username = username;
      successful = successful;
      time = now;
    }
    perform (Call.append_authentication_log attempt) (env.append_authentication_log attempt)

  -- `Regulate`, with its calls.
  unfoldable pub regulate_user : Regulator → Text → Handler Verdict
  regulate_user regulator username = if not regulator.enabled then pure not_banned else (do
    now ← perform Call.now env.now
    attempts ←
        perform (Call.load_latest_authentication_logs username (now -ℤ regulator.ban_time))
          (env.load_latest_authentication_logs username (now -ℤ regulator.ban_time))
    pure (judge regulator attempts))

  -- The session with the time from which its details have to be read again.
  unfoldable pub set_refresh_ttl : Bool × ℤ → UserSession → Handler UserSession
  set_refresh_ttl (false, interval) s = pure s
  set_refresh_ttl (true, interval) s = do
    now ← perform Call.now env.now
    pure (record s { refresh_ttl = now +ℤ interval })

module _ (env : Env) (configuration : Configuration) (request : Request) where
  -- The handler from its end to its start, one definition per decision.
  unfoldable pub reply_first_factor :
      FirstFactorRequestBody → UserSession → Option OidcWorkflowSession → Handler (Unit {0})
  reply_first_factor body s (some workflow) =
      handle_oidc_workflow_response env configuration request
  reply_first_factor body s none =
      handle_1fa_response env configuration request body.target_url body.request_method s.username
        s.groups

  unfoldable pub after_save : FirstFactorRequestBody → UserSession → Bool → Handler (Unit {0})
  after_save body s false = refuse
  after_save body s true = reply_first_factor body s s.oidc_workflow_session

  unfoldable pub save_one_factor : FirstFactorRequestBody → UserSession → Handler (Unit {0})
  save_one_factor body s = save_session env s >>= after_save body s

  unfoldable pub use_user_details :
      FirstFactorRequestBody
      → UserSession
      → Bool
      → Result UserError UserDetails
      → Handler (Unit {0})
  use_user_details body s keep (err _) = refuse
  use_user_details body s keep (ok details) = perform Call.now env.now >>= λ now.
      set_refresh_ttl env (get_profile_refresh_settings configuration.ldap_refresh_interval)
        (set_one_factor s now details keep)
      >>= save_one_factor body

  unfoldable pub read_user_details :
      FirstFactorRequestBody → UserSession → Bool → Bool → Handler (Unit {0})
  read_user_details body s keep false = refuse
  read_user_details body s keep true =
      perform (Call.get_details body.username) (env.get_details body.username)
      >>= use_user_details body s keep

  unfoldable pub keep_logged_in : FirstFactorRequestBody → UserSession → Bool → Handler (Unit {0})
  keep_logged_in body s false = read_user_details body s false true
  keep_logged_in body s true =
      perform (Call.update_expiration configuration.remember_me)
        (env.update_expiration configuration.remember_me)
      >>= read_user_details body s true

  unfoldable pub after_regenerate : FirstFactorRequestBody → UserSession → Bool → Handler (Unit {0})
  after_regenerate body s false = refuse
  after_regenerate body s true =
      keep_logged_in body s (wants_to_stay configuration.remember_me body.keep_me_logged_in)

  unfoldable pub after_reset : FirstFactorRequestBody → UserSession → Bool → Handler (Unit {0})
  after_reset body s false = refuse
  after_reset body s true = regenerate_session env >>= after_regenerate body s

  unfoldable pub reset_session : FirstFactorRequestBody → UserSession → Handler (Unit {0})
  reset_session body s =
      save_session env
        (record new_default_user_session { oidc_workflow_session = s.oidc_workflow_session })
      >>= after_reset body s

  unfoldable pub start_session : FirstFactorRequestBody → Bool → Handler (Unit {0})
  start_session body false = refuse
  start_session body true = get_session env >>= reset_session body

  unfoldable pub check_password :
      FirstFactorRequestBody → Result UserError Bool → Handler (Unit {0})
  check_password body (err _) = mark env body.username false >> refuse
  check_password body (ok false) = mark env body.username false >> refuse
  check_password body (ok true) = mark env body.username true >>= start_session body

  unfoldable pub check_ban : FirstFactorRequestBody → Verdict → Handler (Unit {0})
  check_ban body (banned until) = handle_authentication_unauthorized user_banned
  check_ban body panics = λ s. panicked
  check_ban body not_banned =
      perform (Call.check_user_password body.username body.password)
        (env.check_user_password body.username body.password)
      >>= check_password body

  -- `FirstFactorPost`, without the delay; `none` is a body that `ParseBody` refuses.
  unfoldable pub first_factor_post : Option FirstFactorRequestBody → Handler (Unit {0})
  first_factor_post none = refuse
  first_factor_post (some body) =
      regulate_user env configuration.regulator body.username >>= check_ban body

-- What a test of the handler computes with.
unfoldable pub logging_in : Unit {0}
unfolding wants_to_stay mark regulate_user set_refresh_ttl reply_first_factor after_save
    save_one_factor use_user_details read_user_details keep_logged_in after_regenerate after_reset
    reset_session start_session check_password check_ban first_factor_post set_one_factor
    regenerate_session replying verifying regulating
logging_in = tt
