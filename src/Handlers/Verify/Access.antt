-- ===== src/Handlers/Verify/Access.antt =====
-- Who gets through: what a reply of `VerifyGet` with status 200 says.
use ldap_totp_nginx_auth.Prelude.{
  Text, ◌==◌, ==_iff, lit, true, false, not, ◌&&◌, Result, ok, err, ◌≡◌, ◌≢◌, refl, ◌⊎◌, inl, inr,
  arith, has_suffix, Bool-cases,
}
use ldap_totp_nginx_auth.Authorization.{Url, new_object, is_auth_level_sufficient}
use ldap_totp_nginx_auth.Authorization.Rules.{get_required_level}
use ldap_totp_nginx_auth.Middlewares.{Request, operation_failed, error, Env, State, next}
use ldap_totp_nginx_auth.Middlewares.Context.{
  HeaderError, get_original_url, reply_unauthorized, text_or_empty, remote_ip,
}
use ldap_totp_nginx_auth.Middlewares.Frames.{bind-eq-next}
use ldap_totp_nginx_auth.Handlers.{Configuration}
use ldap_totp_nginx_auth.Handlers.Verify.{
  is_url_under_protected_domain, is_target_url_authorized, verify_user, verify_protected,
  verify_target, verify_original, verify_get,
}
use ldap_totp_nginx_auth.Handlers.Identification.{Auth, verify_auth}
use ldap_totp_nginx_auth.Handlers.Profiles.{get_profile_refresh_settings}
use ldap_totp_nginx_auth.Handlers.Verify.Replies.{match_level_iff, verify_user_lem}

module _ (env : Env) (configuration : Configuration) (request : Request) where
  -- What stands behind a request that goes through.
  pub record IsGranted (s : State) : Type 0 where
    pub url : Url
    pub auth : Auth
    pub known : State
    pub target : get_original_url env request ≡ ok url
    pub secure : (url.scheme ≡ lit "https") ⊎ (url.scheme ≡ lit "wss")
    pub protected : has_suffix url.hostname configuration.session_domain ≡ true
    pub identified :
        verify_auth env configuration request
          (get_profile_refresh_settings configuration.ldap_refresh_interval).0
          (get_profile_refresh_settings configuration.ldap_refresh_interval).1
          s
        ≡ next auth known
    pub fine : auth.failed ≡ false
    pub sufficient :
        is_auth_level_sufficient auth.auth_level (
          get_required_level configuration.authorizer
            (record { username = auth.username; groups = auth.groups; ip = remote_ip env request })
            (new_object url (text_or_empty request.x_forwarded_method)))
        ≡ true

  verify_protected_lem :
      (url : Url) (s s' : State)
      → verify_protected env configuration request url s ≡ next tt s'
      → s'.response.status ≡ 200
      → s'.response.body ≢ error operation_failed
      → get_original_url env request ≡ ok url
      → (url.scheme ≡ lit "https") ⊎ (url.scheme ≡ lit "wss")
      → has_suffix url.hostname configuration.session_domain ≡ true
      → IsGranted s
  unfolding verify_protected is_target_url_authorized
  verify_protected_lem url s s' h good body target secure protected =
      let settings = get_profile_refresh_settings configuration.ldap_refresh_interval in
      let (auth, s1, identified, rest) =
        bind-eq-next (verify_auth env configuration request settings.0 settings.1)
          (λ auth. verify_user env configuration request url auth) s h in
      let (fine, verdict) =
        verify_user_lem env configuration request url auth s1 s' rest good body in
      record {
        url = url;
        auth = auth;
        known = s1;
        target = target;
        secure = secure;
        protected = protected;
        identified = identified;
        fine = fine;
        sufficient = (match_level_iff _ auth.username auth.auth_level).0.0 verdict;
      }

  reply_unauthorized-status :
      (s s' : State) → reply_unauthorized s ≡ next tt s' → s'.response.status ≢ 200
  unfolding reply_unauthorized
  reply_unauthorized-status s s' = ground arith

  secure_scheme :
      (scheme : Text)
      → (not (scheme == lit "https") && not (scheme == lit "wss")) ≡ false
      → (scheme ≡ lit "https") ⊎ (scheme ≡ lit "wss")
  secure_scheme scheme h = ground (arith, ==_iff scheme (lit "https"), ==_iff scheme (lit "wss"))

  verify_target_lem :
      (url : Url) (s s' : State)
      → verify_target env configuration request url s ≡ next tt s'
      → s'.response.status ≡ 200
      → s'.response.body ≢ error operation_failed
      → get_original_url env request ≡ ok url
      → IsGranted s
  unfolding verify_target is_url_under_protected_domain
  verify_target_lem url s s' h good body target =
      elim (Bool-cases (not (url.scheme == lit "https") && not (url.scheme == lit "wss"))) [
        | inl plain ↦ absurd (reply_unauthorized-status s s' (simp plain at h) good)
        | inr secure ↦ elim (Bool-cases (has_suffix url.hostname configuration.session_domain)) [
          | inl inside ↦
              verify_protected_lem url s s' (simp (secure, inside) at h) good body target
                (secure_scheme url.scheme secure) inside
          | inr outside ↦ absurd (reply_unauthorized-status s s' (simp (secure, outside) at h) good)
        ]
      ]

  verify_original_lem :
      (found : Result HeaderError Url) (s s' : State)
      → verify_original env configuration request found s ≡ next tt s'
      → s'.response.status ≡ 200
      → s'.response.body ≢ error operation_failed
      → get_original_url env request ≡ found
      → IsGranted s
  unfolding verify_original reply_unauthorized
  verify_original_lem (err e) s s' h good body target = ground arith
  verify_original_lem (ok url) s s' h good body target =
      verify_target_lem url s s' h good body target

  -- A reply of the proxy endpoint with status 200 that reports no error means that the target is
  -- an https or wss address whose host ends in the letters of the protected domain, that the user
  -- was identified without an error, and that the user's level suffices for the level that the
  -- rules require of the target.
  pub verify_get-IsGranted :
      (s s' : State)
      → verify_get env configuration request s ≡ next tt s'
      → s'.response.status ≡ 200
      → s'.response.body ≢ error operation_failed
      → IsGranted s
  unfolding verify_get
  verify_get-IsGranted s s' h good body =
      verify_original_lem (get_original_url env request) s s' h good body refl
