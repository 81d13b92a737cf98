-- ===== src/Handlers/Registration/Unverified.antt =====
-- A security key that is registered with the challenge of a sign-in, so without a mailed token.
use ldap_totp_nginx_auth.Prelude.{Text, ◌∷◌, true, none, some, ok, ◌≡◌, ap, ◌∙◌}
use ldap_totp_nginx_auth.Session.{U2fRegistration, UserSession}
use ldap_totp_nginx_auth.Middlewares.{
  Request, okay, sign_request, Call, Trace, Env, State, next, ◌>>=◌, ◌>>◌,
}
use ldap_totp_nginx_auth.Middlewares.Context.{
  session_or_default, reply_ok, set_json_body, forwarded_proto_host, get_session, save_session,
}
use ldap_totp_nginx_auth.Middlewares.Frames.{bind-next}
use ldap_totp_nginx_auth.Handlers.U2fSign.{
  with_challenge, send_request, use_device, load_device, use_challenge, challenge_application,
  second_factor_u2f_sign_get,
}
use ldap_totp_nginx_auth.Handlers.Registration.{
  reply_registered, save_device, clear_challenge, ignore_failure, answer_challenge, register_device,
  report_unparsed, second_factor_u2f_register,
}

-- The calls of asking for a challenge, with the session that keeps it, after a trace.
abbrev pub asked : Text → UserSession → Trace → Trace
asked app_id u t =
    Call.load_u2f_device_handle u.username ∷ Call.get_session ∷ Call.new_u2f_challenge app_id ∷ t

module _ (env : Env) (request : Request) (app_id challenge response : Text) (u : UserSession)
    (own other : U2fRegistration) (σ : State) where
  abbrev pub challenged : UserSession
  challenged = with_challenge u challenge own

  abbrev pub signing : Trace
  signing = Call.save_session challenged ∷ asked app_id u σ.trace

  abbrev pub registering : Trace
  registering = Call.get_session ∷ signing

  -- After the request for a challenge, and after the registration.
  abbrev pub signed : State
  signed = record {
    trace = signing;
    response = record σ.response { body = sign_request challenge own };
  }

  abbrev pub registered : State
  registered = record {
    trace =
        Call.save_session (record challenged { u2f_challenge = none })
        ∷ Call.save_u2f_device_handle u.username other
        ∷ registering;
    response = record σ.response { body = okay };
  }

  after : Trace → State
  after t = record σ { trace = t }

  sign_get_lem :
      forwarded_proto_host request ≡ ok app_id
      → env.new_u2f_challenge app_id σ.trace ≡ some challenge
      → env.get_session (Call.new_u2f_challenge app_id ∷ σ.trace) ≡ some u
      → env.load_u2f_device_handle u.username
          (Call.get_session ∷ Call.new_u2f_challenge app_id ∷ σ.trace)
        ≡ some own
      → env.save_session challenged (asked app_id u σ.trace) ≡ true
      → second_factor_u2f_sign_get env request σ ≡ next tt signed
  unfolding second_factor_u2f_sign_get challenge_application use_challenge load_device use_device
      send_request with_challenge set_json_body get_session save_session after
  sign_get_lem origin new given device saved =
      ap (λ a. challenge_application env a σ) origin
      ∙ ap (λ a. use_challenge env a (after (Call.new_u2f_challenge app_id ∷ σ.trace))) new
      ∙ ap
          (λ a.
            load_device env challenge (session_or_default a)
              (after (Call.get_session ∷ Call.new_u2f_challenge app_id ∷ σ.trace)))
          given
      ∙ ap (λ a. use_device env u challenge a (after (asked app_id u σ.trace))) device
      ∙ ap (λ a. send_request env challenge own a (after signing)) saved

  register_lem :
      env.get_session signing ≡ some challenged
      → env.register_u2f response challenge ≡ some other
      → env.save_u2f_device_handle u.username other registering ≡ true
      → second_factor_u2f_register env true response signed ≡ next tt registered
  unfolding second_factor_u2f_register report_unparsed register_device answer_challenge save_device
      reply_registered reply_ok clear_challenge ignore_failure with_challenge get_session
      save_session
  register_lem regiven answered stored =
      let clear = clear_challenge env challenged >>= ignore_failure env in
      let given = record signed { trace = registering } in
      ap (λ a. register_device env response (session_or_default a) given) regiven
      ∙ ap (λ a. (save_device env challenged a >> clear) given) answered
      ∙ ap
          (λ a.
            (reply_registered env a >> clear) (record signed {
              trace = Call.save_u2f_device_handle u.username other ∷ registering;
            }))
          stored

  -- Where every call succeeds and the store gives back the session that was saved, a user who asks
  -- for a challenge to sign in with a security key can register another key with it, and no token
  -- is redeemed.
  pub u2f_register-sign_get :
      forwarded_proto_host request ≡ ok app_id
      → env.new_u2f_challenge app_id σ.trace ≡ some challenge
      → env.get_session (Call.new_u2f_challenge app_id ∷ σ.trace) ≡ some u
      → env.load_u2f_device_handle u.username
          (Call.get_session ∷ Call.new_u2f_challenge app_id ∷ σ.trace)
        ≡ some own
      → env.save_session challenged (asked app_id u σ.trace) ≡ true
      → env.get_session signing ≡ some challenged
      → env.register_u2f response challenge ≡ some other
      → env.save_u2f_device_handle u.username other registering ≡ true
      → (second_factor_u2f_sign_get env request >> second_factor_u2f_register env true response) σ
        ≡ next tt registered
  u2f_register-sign_get origin new given device saved regiven answered stored =
      bind-next (second_factor_u2f_sign_get env request)
        (λ _. second_factor_u2f_register env true response)
        (sign_get_lem origin new given device saved)
      ∙ register_lem regiven answered stored
