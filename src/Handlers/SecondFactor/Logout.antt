-- ===== src/Handlers/SecondFactor/Logout.antt =====
-- What a logout does, whatever goes wrong on the way.
use ldap_totp_nginx_auth.Prelude.{Text, ◌∷◌, Bool, true, false, Option, none, some, ◌≡◌, refl}
use ldap_totp_nginx_auth.Authorization.{Url}
use ldap_totp_nginx_auth.Middlewares.{Request, Body, safe_target_url, Call, Env, State, next, ◌>>◌}
use ldap_totp_nginx_auth.Middlewares.Context.{
  text_or_empty, destroy_session, error_reply, set_json_body,
}
use ldap_totp_nginx_auth.Handlers.{Configuration}
use ldap_totp_nginx_auth.Handlers.SecondFactor.{
  is_safe_target, report_failure, read_target, logout_post,
}

module _ (env : Env) (configuration : Configuration) (request : Request)
    (parse_url : Text → Option Url) where
  -- What a failure reported does not survive: the body is set afterwards.
  report_failure-overwritten :
      (done : Bool) (b : Body) (s : State)
      → (report_failure env configuration request done >> set_json_body b) s
        ≡ next tt (record s { response = record s.response { body = b } })
  unfolding report_failure error_reply set_json_body
  report_failure-overwritten true b s = refl
  report_failure-overwritten false b s = refl

  -- A logout makes one call, which destroys the session, and its reply tells whether the target is
  -- safe with the status unchanged, even where the body cannot be read or the session is not
  -- destroyed.
  pub logout_post_lem :
      (body : Option Text) (s : State)
      → (s' : State) × (logout_post env configuration request parse_url body s ≡ next tt s')
        × (s'.trace ≡ Call.destroy_session ∷ s.trace)
        × (s'.response.status ≡ s.response.status)
        × (s'.response.body
            ≡ safe_target_url
                (is_safe_target env configuration request (parse_url (text_or_empty body))))
  unfolding logout_post read_target destroy_session error_reply
  logout_post_lem none s =
      (_, report_failure-overwritten (env.destroy_session s.trace) _ _, refl, refl, refl)
  logout_post_lem (some target) s =
      (_, report_failure-overwritten (env.destroy_session s.trace) _ _, refl, refl, refl)
