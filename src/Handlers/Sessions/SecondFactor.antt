-- ===== src/Handlers/Sessions/SecondFactor.antt =====
-- A second factor raises the session of the user whom it has verified, under a new session id.
use ldap_totp_nginx_auth.Prelude.{
  Text, ◌∷◌, ◌==◌, ==_iff, lit, Bool, true, false, Bool-cases, inl, inr, Option, none, some, ◌≡◌,
  refl, sym, ap, ◌∙◌,
}
use ldap_totp_nginx_auth.Session.{U2fRegistration, UserSession, OidcWorkflowSession, set_two_factor}
use ldap_totp_nginx_auth.Middlewares.{Request, Call, Trace, Env, State}
use ldap_totp_nginx_auth.Middlewares.Context.{
  get_session, save_session, regenerate_session, reply_unauthorized,
}
use ldap_totp_nginx_auth.Handlers.{Configuration}
use ldap_totp_nginx_auth.Handlers.SecondFactor.{
  SignTotpRequestBody, SignU2fRequestBody, SignDuoRequestBody, reply_second_factor,
  after_second_save, save_two_factor, accept_factor, use_totp_verdict, use_totp_secret, load_totp,
  second_factor_totp_post, use_u2f_verdict, verify_challenge, second_factor_u2f_sign_post,
  use_duo_result, call_duo, second_factor_duo_post,
}
use ldap_totp_nginx_auth.Handlers.Sessions.{
  Happened, at_last, earlier, GivesSession, AcceptsFactor, totp, u2f, duo, second, IsLawful,
  IsLawfulEnd,
}
use ldap_totp_nginx_auth.Handlers.Sessions.Replies.{
  IsSafe, handle_authentication_unauthorized-IsSafe, handle_oidc_workflow_response-IsSafe,
  handle_2fa_response-IsSafe, error_reply-IsSafe,
}

module _ (env : Env) (configuration : Configuration) (request : Request) where
  reply_second_factor-IsSafe :
      (target : Text) (w : Option OidcWorkflowSession)
      → IsSafe env (reply_second_factor env configuration request target w)
  unfolding reply_second_factor
  reply_second_factor-IsSafe target none =
      handle_2fa_response-IsSafe env configuration request target
  reply_second_factor-IsSafe target (some w) =
      handle_oidc_workflow_response-IsSafe env configuration request

  after_second_save-IsSafe :
      (target : Text) (s : UserSession) (saved : Bool)
      → IsSafe env (after_second_save env configuration request target s saved)
  unfolding after_second_save
  after_second_save-IsSafe target s true = reply_second_factor-IsSafe target s.oidc_workflow_session
  after_second_save-IsSafe target s false = handle_authentication_unauthorized-IsSafe env _

  -- What the trace holds of the user of a session once a factor has been accepted.
  abbrev IsAccepted : UserSession → Trace → Type 0
  IsAccepted s t =
      Happened (GivesSession env s) t × Happened (AcceptsFactor env s) t × IsLawful env t

  save_two_factor_lem :
      (target : Text) (s : UserSession) (done : Bool) (σ : State)
      → done ≡ env.regenerate_session σ.trace
      → IsAccepted s σ.trace
      → IsLawfulEnd env (
          save_two_factor env configuration request target s done
            (record σ { trace = Call.regenerate_session ∷ σ.trace }))
  unfolding save_two_factor save_session set_two_factor
  save_two_factor_lem target s false σ answered (_, _, h) =
      handle_authentication_unauthorized-IsSafe env _ _ h
  save_two_factor_lem target s true σ answered (given, accepted, h) =
      after_second_save-IsSafe target _ _ _ (
        second s refl refl (earlier (earlier given)) (earlier (earlier accepted))
            (earlier (at_last (refl, sym answered))),
        h,
      )

  accept_factor_lem :
      (target : Text) (s : UserSession) (σ : State)
      → IsAccepted s σ.trace
      → IsLawfulEnd env (accept_factor env configuration request target s σ)
  unfolding accept_factor regenerate_session
  accept_factor_lem target s σ accepted =
      save_two_factor_lem target s (env.regenerate_session σ.trace) σ refl accepted

  use_totp_verdict_lem :
      (target token secret : Text) (s : UserSession) (verdict : Option Bool) (σ : State)
      → verdict ≡ env.verify_totp token secret σ.trace
      → Happened (GivesSession env s) σ.trace
      → Happened
          (λ c t.
            (c ≡ Call.load_totp_secret s.username)
            × (env.load_totp_secret s.username t ≡ some secret))
          σ.trace
      → IsLawful env σ.trace
      → IsLawfulEnd env (
          use_totp_verdict env configuration request target s verdict
            (record σ { trace = Call.verify_totp token secret ∷ σ.trace }))
  unfolding use_totp_verdict
  use_totp_verdict_lem target token secret s none σ answered given loaded h =
      handle_authentication_unauthorized-IsSafe env _ _ h
  use_totp_verdict_lem target token secret s (some false) σ answered given loaded h =
      handle_authentication_unauthorized-IsSafe env _ _ h
  use_totp_verdict_lem target token secret s (some true) σ answered given loaded h =
      accept_factor_lem target s _ (earlier given, at_last (totp loaded (sym answered)), h)

  use_totp_secret_lem :
      (body : SignTotpRequestBody) (s : UserSession) (answer : Option Text) (σ : State)
      → answer ≡ env.load_totp_secret s.username σ.trace
      → Happened (GivesSession env s) σ.trace
      → IsLawful env σ.trace
      → IsLawfulEnd env (
          use_totp_secret env configuration request body s answer
            (record σ { trace = Call.load_totp_secret s.username ∷ σ.trace }))
  unfolding use_totp_secret
  use_totp_secret_lem body s none σ answered given h =
      handle_authentication_unauthorized-IsSafe env _ _ h
  use_totp_secret_lem body s (some secret) σ answered given h =
      use_totp_verdict_lem body.target_url body.token secret s _ _ refl (earlier given)
        (at_last (refl, sym answered)) h

  -- A one-time password keeps it true, in the sense of the theorem on logging in, that every
  -- session that is saved has earned its level.
  pub second_factor_totp_post-IsLawful :
      (body : Option SignTotpRequestBody) (σ : State)
      → IsLawful env σ.trace
      → IsLawfulEnd env (second_factor_totp_post env configuration request body σ)
  unfolding second_factor_totp_post get_session load_totp
  second_factor_totp_post-IsLawful none σ h = handle_authentication_unauthorized-IsSafe env _ σ h
  second_factor_totp_post-IsLawful (some body) σ h =
      use_totp_secret_lem body _ _ _ refl (at_last (refl, refl)) h

  use_u2f_verdict_lem :
      (target response challenge : Text) (registration : U2fRegistration) (s : UserSession)
      (verdict : Bool) (σ : State)
      → verdict ≡ env.verify_u2f registration response challenge σ.trace
      → s.u2f_registration ≡ some registration
      → s.u2f_challenge ≡ some challenge
      → Happened (GivesSession env s) σ.trace
      → IsLawful env σ.trace
      → IsLawfulEnd env (
          use_u2f_verdict env configuration request target s verdict
            (record σ { trace = Call.verify_u2f registration response challenge ∷ σ.trace }))
  unfolding use_u2f_verdict
  use_u2f_verdict_lem target response challenge registration s false σ answered r c given h =
      error_reply-IsSafe env _ _ h
  use_u2f_verdict_lem target response challenge registration s true σ answered r c given h =
      accept_factor_lem target s _ (earlier given, at_last (u2f r c (sym answered)), h)

  verify_challenge_lem :
      (body : SignU2fRequestBody) (s : UserSession) (challenge : Option Text)
      (registration : Option U2fRegistration) (σ : State)
      → s.u2f_registration ≡ registration
      → s.u2f_challenge ≡ challenge
      → Happened (GivesSession env s) σ.trace
      → IsLawful env σ.trace
      → IsLawfulEnd env (verify_challenge env configuration request body s challenge registration σ)
  unfolding verify_challenge
  verify_challenge_lem body s none registration σ r c given h =
      handle_authentication_unauthorized-IsSafe env _ _ h
  verify_challenge_lem body s (some challenge) none σ r c given h =
      handle_authentication_unauthorized-IsSafe env _ _ h
  verify_challenge_lem body s (some challenge) (some registration) σ r c given h =
      use_u2f_verdict_lem body.target_url body.sign_response challenge registration s _ σ refl r c
        given h

  -- A security key keeps it true, in the sense of the theorem on logging in, that every session
  -- that is saved has earned its level; a key counts as accepted where it answers the challenge
  -- and the registration of the session itself.
  pub second_factor_u2f_sign_post-IsLawful :
      (body : Option SignU2fRequestBody) (σ : State)
      → IsLawful env σ.trace
      → IsLawfulEnd env (second_factor_u2f_sign_post env configuration request body σ)
  unfolding second_factor_u2f_sign_post get_session
  second_factor_u2f_sign_post-IsLawful none σ h = error_reply-IsSafe env _ σ h
  second_factor_u2f_sign_post-IsLawful (some body) σ h =
      verify_challenge_lem body _ _ _ _ refl refl (at_last (refl, refl)) h

  use_duo_result_lem :
      (target : Text) (s : UserSession) (result : Option Text) (σ : State)
      → result ≡ env.call_duo s.username target σ.trace
      → Happened (GivesSession env s) σ.trace
      → IsLawful env σ.trace
      → IsLawfulEnd env (
          use_duo_result env configuration request target s result
            (record σ { trace = Call.call_duo s.username target ∷ σ.trace }))
  unfolding use_duo_result reply_unauthorized
  use_duo_result_lem target s none σ answered given h =
      handle_authentication_unauthorized-IsSafe env _ _ h
  use_duo_result_lem target s (some result) σ answered given h =
      elim (Bool-cases (result == lit "allow")) [
        | inl allowed ↦ simp allowed (
            accept_factor_lem target s _ (
              earlier given,
              at_last (duo (sym answered ∙ ap some ((==_iff result (lit "allow")).0 allowed))),
              h,
            ))
        | inr denied ↦ simp denied h
      ]

  -- Duo keeps it true, in the sense of the theorem on logging in, that every session that is saved
  -- has earned its level.
  pub second_factor_duo_post-IsLawful :
      (body : Option SignDuoRequestBody) (σ : State)
      → IsLawful env σ.trace
      → IsLawfulEnd env (second_factor_duo_post env configuration request body σ)
  unfolding second_factor_duo_post get_session call_duo
  second_factor_duo_post-IsLawful none σ h = handle_authentication_unauthorized-IsSafe env _ σ h
  second_factor_duo_post-IsLawful (some body) σ h =
      use_duo_result_lem body.target_url _ _ _ refl (at_last (refl, refl)) h
