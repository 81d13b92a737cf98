-- ===== src/Handlers/Sessions/U2fSign.antt =====
-- Asking for a challenge raises no session.
use ldap_totp_nginx_auth.Prelude.{
  Text, Bool, true, false, Option, none, some, Result, ok, err, refl,
}
use ldap_totp_nginx_auth.Session.{U2fRegistration, UserSession}
use ldap_totp_nginx_auth.Middlewares.{Request, Env, State}
use ldap_totp_nginx_auth.Middlewares.Context.{
  HeaderError, save_session, set_json_body, forwarded_proto_host,
}
use ldap_totp_nginx_auth.Handlers.U2fSign.{
  with_challenge, send_request, use_device, load_device, use_challenge, challenge_application,
  second_factor_u2f_sign_get,
}
use ldap_totp_nginx_auth.Handlers.Sessions.{earlier, kept, IsLawful, IsLawfulEnd}
use ldap_totp_nginx_auth.Handlers.Sessions.Replies.{
  IsSafe, handle_authentication_unauthorized-IsSafe, error_reply-IsSafe,
}
use ldap_totp_nginx_auth.Handlers.Sessions.Keeping.{IsKeeping, get_session-IsKeeping}

module _ (env : Env) where
  send_request-IsSafe :
      (challenge : Text) (registration : U2fRegistration) (saved : Bool)
      → IsSafe env (send_request env challenge registration saved)
  unfolding send_request set_json_body
  send_request-IsSafe challenge registration true σ h = h
  send_request-IsSafe challenge registration false σ h =
      handle_authentication_unauthorized-IsSafe env _ σ h

  use_device-IsKeeping :
      (u : UserSession) (challenge : Text) (registration : Option U2fRegistration)
      → IsKeeping env u (use_device env u challenge registration)
  unfolding use_device save_session with_challenge
  use_device-IsKeeping u challenge none σ given h =
      handle_authentication_unauthorized-IsSafe env _ σ h
  use_device-IsKeeping u challenge (some registration) σ given h =
      send_request-IsSafe challenge registration _ _ (kept u refl refl given, h)

  use_challenge-IsSafe : (challenge : Option Text) → IsSafe env (use_challenge env challenge)
  unfolding use_challenge load_device
  use_challenge-IsSafe none = handle_authentication_unauthorized-IsSafe env _
  use_challenge-IsSafe (some challenge) =
      get_session-IsKeeping env (load_device env challenge)
        (λ u σ given h. use_device-IsKeeping u challenge _ _ (earlier given) h)

  challenge_application-IsSafe :
      (app_id : Result HeaderError Text) → IsSafe env (challenge_application env app_id)
  unfolding challenge_application
  challenge_application-IsSafe (err e) σ h = error_reply-IsSafe env _ σ h
  challenge_application-IsSafe (ok app_id) σ h = use_challenge-IsSafe _ _ h

  -- Asking for a challenge keeps it true, in the sense of the theorem on logging in, that every
  -- session that is saved has earned its level.
  pub second_factor_u2f_sign_get-IsLawful :
      (request : Request) (σ : State)
      → IsLawful env σ.trace
      → IsLawfulEnd env (second_factor_u2f_sign_get env request σ)
  unfolding second_factor_u2f_sign_get
  second_factor_u2f_sign_get-IsLawful request σ h =
      challenge_application-IsSafe (forwarded_proto_host request) σ h
