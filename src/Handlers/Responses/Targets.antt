-- ===== src/Handlers/Responses/Targets.antt =====
-- Where the portal sends a user after a factor was verified.
use ldap_totp_nginx_auth.Prelude.{
  Text, List, [], ◌==◌, true, false, Option, none, some, ◌≡◌, ◌≢◌, refl, ◌⊎◌, inl, inr, arith,
  Bool-cases, ap, ◌∙◌,
}
use ldap_totp_nginx_auth.Authorization.{Url, Level, new_object}
use ldap_totp_nginx_auth.Authorization.Rules.{get_required_level, is_two_factor}
use ldap_totp_nginx_auth.Middlewares.{Request, empty, redirect, Env, State, next}
use ldap_totp_nginx_auth.Middlewares.Context.{error_reply, reply_ok, set_json_body, remote_ip}
use ldap_totp_nginx_auth.Handlers.{Configuration}
use ldap_totp_nginx_auth.Handlers.Responses.{
  is_redirection_safe, reply_default, reply_1fa_target, reply_1fa_parsed, handle_1fa_response,
  reply_2fa_parsed, handle_2fa_response,
}

module _ (env : Env) (configuration : Configuration) (request : Request) where
  -- A target that the portal may send a user to.
  abbrev pub IsSafeTarget : Text → Type 0
  IsSafeTarget target =
      (url : Url) × (env.parse_request_uri target ≡ some url)
      × (is_redirection_safe url configuration.session_domain ≡ true)

  reply_default-redirect :
      (s s' : State) (target : Text)
      → s.response.body ≡ empty
      → reply_default env configuration request s ≡ next tt s'
      → s'.response.body ≡ redirect target
      → target ≡ configuration.default_redirection_url
  unfolding reply_default set_json_body reply_ok
  reply_default-redirect s s' target = ground arith

  okay_lem :
      (s s' : State) (target : Text) → reply_ok s ≡ next tt s' → s'.response.body ≢ redirect target
  unfolding reply_ok
  okay_lem s s' target = ground arith

  redirect_lem :
      (uri : Text) (s s' : State) (target : Text)
      → set_json_body (redirect uri) s ≡ next tt s'
      → s'.response.body ≡ redirect target
      → target ≡ uri
  unfolding set_json_body
  redirect_lem uri s s' target = ground arith

  two_factor_lem : (level : Level) → is_two_factor level ≡ false → level ≢ Level.two_factor
  two_factor_lem level h = ground arith

  reply_2fa_parsed-redirect :
      (uri : Text) (parsed : Option Url) (s s' : State) (target : Text)
      → s.response.body ≡ empty
      → reply_2fa_parsed env configuration request uri parsed s ≡ next tt s'
      → s'.response.body ≡ redirect target
      → (target ≡ uri)
        × (url : Url) × (parsed ≡ some url)
        × (is_redirection_safe url configuration.session_domain ≡ true)
  unfolding reply_2fa_parsed set_json_body reply_ok error_reply
  reply_2fa_parsed-redirect uri none s s' target blank e r = absurd (ground arith)
  reply_2fa_parsed-redirect uri (some url) s s' target blank e r =
      elim (Bool-cases (is_redirection_safe url configuration.session_domain)) [
        | inl safe ↦ (ground arith, url, refl, safe)
        | inr unsafe ↦ absurd (ground arith)
      ]

  -- From an empty reply, the portal sends a user after the second factor only to the default
  -- address or to a safe address, that is an https one whose host ends in the letters of the
  -- protected domain.
  pub handle_2fa_response-redirect :
      (uri : Text) (s s' : State) (target : Text)
      → s.response.body ≡ empty
      → handle_2fa_response env configuration request uri s ≡ next tt s'
      → s'.response.body ≡ redirect target
      → (target ≡ configuration.default_redirection_url) ⊎ IsSafeTarget target
  unfolding handle_2fa_response set_json_body reply_ok
  handle_2fa_response-redirect uri s s' target blank e r = elim (Bool-cases (uri == [])) [
    | inl none' ↦ inl (ground arith)
    | inr given ↦
        let (same, url, parsed, safe) =
          reply_2fa_parsed-redirect uri (env.parse_request_uri uri) s s' target blank
            (simp given at e) r in
        inr (url, ap env.parse_request_uri same ∙ parsed, safe)
  ]

  reply_1fa_target-redirect :
      (url : Url) (uri method username : Text) (groups : List Text) (s s' : State) (target : Text)
      → s.response.body ≡ empty
      → reply_1fa_target env configuration request url uri method username groups s ≡ next tt s'
      → s'.response.body ≡ redirect target
      → (target ≡ configuration.default_redirection_url)
        ⊎ ((target ≡ uri)
            × (is_redirection_safe url configuration.session_domain ≡ true)
            × (get_required_level configuration.authorizer
                  (record { username = username; groups = groups; ip = remote_ip env request })
                  (new_object url method)
                ≢ Level.two_factor))
  unfolding reply_1fa_target set_json_body reply_ok
  reply_1fa_target-redirect url uri method username groups s s' target blank e r =
      let level =
        get_required_level configuration.authorizer
          (record { username = username; groups = groups; ip = remote_ip env request })
          (new_object url method) in
      elim (Bool-cases (is_two_factor level)) [
        | inl two ↦ absurd (okay_lem s s' target (simp two at e) r)
        | inr less ↦ elim (Bool-cases (is_redirection_safe url configuration.session_domain)) [
          | inl safe ↦ inr (
            redirect_lem uri s s' target (simp (less, safe) at e) r,
            safe,
            two_factor_lem level less,
          )
          | inr unsafe ↦ inl (reply_default-redirect s s' target blank (simp (less, unsafe) at e) r)
        ]
      ]

  reply_1fa_parsed-redirect :
      (uri method username : Text) (groups : List Text) (parsed : Option Url) (s s' : State)
      (target : Text)
      → s.response.body ≡ empty
      → reply_1fa_parsed env configuration request uri method username groups parsed s ≡ next tt s'
      → s'.response.body ≡ redirect target
      → (target ≡ configuration.default_redirection_url)
        ⊎ ((target ≡ uri)
            × (url : Url) × (parsed ≡ some url)
            × (is_redirection_safe url configuration.session_domain ≡ true)
            × (get_required_level configuration.authorizer
                  (record { username = username; groups = groups; ip = remote_ip env request })
                  (new_object url method)
                ≢ Level.two_factor))
  unfolding reply_1fa_parsed error_reply
  reply_1fa_parsed-redirect uri method username groups none s s' target blank e r =
      absurd (ground arith)
  reply_1fa_parsed-redirect uri method username groups (some url) s s' target blank e r =
      elim (reply_1fa_target-redirect url uri method username groups s s' target blank e r) [
        | inl default ↦ inl default
        | inr (same, safe, level) ↦ inr (same, url, refl, safe, level)
      ]

  -- From an empty reply, the portal sends a user after the first factor only to the default
  -- address or to a safe address, that is an https one whose host ends in the letters of the
  -- protected domain, that does not require two factors of that user.
  pub handle_1fa_response-redirect :
      (uri method username : Text) (groups : List Text) (s s' : State) (target : Text)
      → s.response.body ≡ empty
      → handle_1fa_response env configuration request uri method username groups s ≡ next tt s'
      → s'.response.body ≡ redirect target
      → (target ≡ configuration.default_redirection_url)
        ⊎ ((url : Url) × (env.parse_request_uri target ≡ some url)
            × (is_redirection_safe url configuration.session_domain ≡ true)
            × (get_required_level configuration.authorizer
                  (record { username = username; groups = groups; ip = remote_ip env request })
                  (new_object url method)
                ≢ Level.two_factor))
  unfolding handle_1fa_response
  handle_1fa_response-redirect uri method username groups s s' target blank e r =
      elim (Bool-cases (uri == [])) [
        | inl none' ↦ inl (reply_default-redirect s s' target blank (simp none' at e) r)
        | inr given ↦
            elim (reply_1fa_parsed-redirect uri method username groups (env.parse_request_uri uri) s
              s' target blank (simp given at e) r) [
                | inl default ↦ inl default
                | inr (same, url, parsed, safe, level) ↦
                    inr (url, ap env.parse_request_uri same ∙ parsed, safe, level)
              ]
      ]
