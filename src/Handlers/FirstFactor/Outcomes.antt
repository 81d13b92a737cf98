-- ===== src/Handlers/FirstFactor/Outcomes.antt =====
-- What a login ends with: for a banned user and for a wrong password.
use ldap_totp_nginx_auth.Prelude.{
  Text, List, ◌∷◌, Bool, true, false, ◌<◌, ℤ, ◌-ℤ◌, Option, Result, ok, err, ◌≡◌, ◌≢◌, refl, ◌∙◌,
  some,
}
use ldap_totp_nginx_auth.Regulation.{AuthenticationAttempt, not_banned, banned}
use ldap_totp_nginx_auth.Regulation.Failures.{HasRoom, IsBruteForce, judge_complete}
use ldap_totp_nginx_auth.Middlewares.{
  Request, Message, authentication_failed, user_banned, error, UserError, Call, Trace, Env, State,
  next,
}
use ldap_totp_nginx_auth.Middlewares.Context.{error_reply}
use ldap_totp_nginx_auth.Middlewares.Frames.{bind-next}
use ldap_totp_nginx_auth.Handlers.{Configuration}
use ldap_totp_nginx_auth.Handlers.Responses.{handle_authentication_unauthorized}
use ldap_totp_nginx_auth.Handlers.FirstFactor.{
  FirstFactorRequestBody, mark, regulate_user, check_password, check_ban, first_factor_post,
}

-- The state with a refusal as its reply.
abbrev pub refused : Message → State → State
refused message s = record s { response = record s.response { status = 401; body = error message } }

module _ (env : Env) (configuration : Configuration) (request : Request) where
  -- The calls of the regulator.
  abbrev pub regulated : Text → Trace → Trace
  regulated username t =
      Call.load_latest_authentication_logs username (env.now t -ℤ configuration.regulator.ban_time)
      ∷ Call.now
      ∷ t

  -- The attempts that the storage loads for the regulator.
  abbrev pub attempts_loaded : Text → Trace → Option (List AuthenticationAttempt)
  attempts_loaded username t =
      env.load_latest_authentication_logs username (env.now t -ℤ configuration.regulator.ban_time)
        (Call.now ∷ t)

  regulate_user-banned :
      (username : Text) (attempts : List AuthenticationAttempt) (until : ℤ) (s : State)
      → configuration.regulator.enabled ≡ true
      → 0 < configuration.regulator.max_retries
      → HasRoom configuration.regulator
      → attempts_loaded username s.trace ≡ some attempts
      → IsBruteForce configuration.regulator attempts until
      → regulate_user env configuration.regulator username s
        ≡ next (banned until) (record s { trace = regulated username s.trace })
  unfolding regulate_user
  regulate_user-banned username attempts until s enabled positive room loaded b =
      let judged = judge_complete configuration.regulator attempts until positive room b in
      simp (enabled, loaded, judged) refl

  -- Where the latest attempts of a user that the storage loads are failures, as many as the
  -- enabled regulator allows, at least one, within its time, and the slice for the failures can be
  -- made, the handler reads the clock and the attempts, makes no other call, so that it neither
  -- checks the password nor saves a session, and refuses with the status 401.
  pub first_factor_post_banned :
      (body : FirstFactorRequestBody) (attempts : List AuthenticationAttempt) (until : ℤ)
      (s : State)
      → configuration.regulator.enabled ≡ true
      → 0 < configuration.regulator.max_retries
      → HasRoom configuration.regulator
      → attempts_loaded body.username s.trace ≡ some attempts
      → IsBruteForce configuration.regulator attempts until
      → first_factor_post env configuration request (some body) s
        ≡ next tt (refused user_banned (record s { trace = regulated body.username s.trace }))
  unfolding first_factor_post check_ban handle_authentication_unauthorized error_reply
  first_factor_post_banned body attempts until s enabled positive room loaded b =
      bind-next (regulate_user env configuration.regulator body.username)
        (check_ban env configuration request body)
        (regulate_user-banned body.username attempts until s enabled positive room loaded b)

  -- The trace of a password that was not accepted: the check, and one failed attempt.
  abbrev pub failed_attempt : FirstFactorRequestBody → Trace → Trace
  failed_attempt body t =
      let checked = Call.check_user_password body.username body.password ∷ t in
      Call.append_authentication_log
        (record { username = body.username; successful = false; time = env.now checked })
      ∷ Call.now
      ∷ checked

  check_password_wrong :
      (body : FirstFactorRequestBody) (answer : Result UserError Bool) (s : State)
      → answer ≢ ok true
      → check_password env configuration request body answer
          (record s { trace = Call.check_user_password body.username body.password ∷ s.trace })
        ≡ next tt (refused authentication_failed (record s { trace = failed_attempt body s.trace }))
  unfolding check_password mark handle_authentication_unauthorized error_reply
  check_password_wrong body (err e) s wrong = refl
  check_password_wrong body (ok false) s wrong = refl
  check_password_wrong body (ok true) s wrong = absurd (wrong refl)

  -- Where the user is not banned and the backend does not confirm the password, the handler only
  -- adds one failed attempt to the log, saves no session, and refuses with the status 401.
  pub first_factor_post_wrong :
      (body : FirstFactorRequestBody) (s s1 : State)
      → regulate_user env configuration.regulator body.username s ≡ next not_banned s1
      → env.check_user_password body.username body.password s1.trace ≢ ok true
      → first_factor_post env configuration request (some body) s
        ≡ next tt
            (refused authentication_failed (record s1 { trace = failed_attempt body s1.trace }))
  unfolding first_factor_post check_ban
  first_factor_post_wrong body s s1 e wrong =
      bind-next (regulate_user env configuration.regulator body.username)
        (check_ban env configuration request body) e
      ∙ check_password_wrong body _ s1 wrong
