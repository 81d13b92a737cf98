-- ===== src/Handlers/Verify/Replies.antt =====
-- How the parts of `VerifyGet` answer, by the status of the reply.
use ldap_totp_nginx_auth.Prelude.{
  Text, [], ==_iff, Bool, true, false, ◌≡◌, ◌≢◌, refl, sym, ap, ◌∙◌, ◌↔◌, ◌⊎◌, inl, inr, arith,
  Bool-cases,
}
use ldap_totp_nginx_auth.Authentication
use ldap_totp_nginx_auth.Authorization.{Url, Level, is_auth_level_sufficient}
use ldap_totp_nginx_auth.Middlewares.{
  Request, operation_failed, error, Env, State, next, Handler, pure,
}
use ldap_totp_nginx_auth.Middlewares.Context.{
  get_session, save_session, reply_unauthorized, reply_forbidden, error_reply, text_or_empty,
  remote_ip,
}
use ldap_totp_nginx_auth.Middlewares.Frames.{
  quiet, IsQuiet, IsQuiet-response, bind-eq-next, bind-next,
}
use ldap_totp_nginx_auth.Handlers.{Configuration}
use ldap_totp_nginx_auth.Handlers.Verify.{
  AuthorizationMatching, forbidden, not_authorized, authorized, match_level,
  is_target_url_authorized, update_activity_timestamp, handle_unauthorized, reply_matching,
  unless_saved, reply_updated, verify_failed, keep_reply, verify_known, verify_user,
}
use ldap_totp_nginx_auth.Handlers.Identification.{Auth}

-- The endpoint authorizes a level exactly where the level check of the other handlers accepts it,
-- and forbids exactly the denied level to a named user.
pub match_level_iff :
    (level : Level) (username : Text) (auth_level : Authentication.Level)
    → ((match_level level username auth_level ≡ authorized)
        ↔ (is_auth_level_sufficient auth_level level ≡ true))
      × ((match_level level username auth_level ≡ forbidden)
          ↔ ((level ≡ Level.denied) × (username ≢ [])))
unfolding match_level is_auth_level_sufficient
match_level_iff level username auth_level = ground (arith, ==_iff username [])

module _ (env : Env) (configuration : Configuration) (request : Request) where
  update_activity_timestamp-IsQuiet :
      (is_basic_auth : Bool) (username : Text)
      → IsQuiet (update_activity_timestamp env is_basic_auth username)
  unfolding update_activity_timestamp get_session save_session
  update_activity_timestamp-IsQuiet is_basic_auth username = search quiet depth 8

  handle_unauthorized-status :
      (url : Url) (basic : Bool) (method : Text) (s s' : State)
      → handle_unauthorized env request url basic method s ≡ next tt s'
      → s'.response.status ≢ 200
  unfolding handle_unauthorized reply_unauthorized
  handle_unauthorized-status url basic method s s' = ground arith

  unless_saved-status :
      (saved : Bool) (k : Handler (Unit {0})) (s s' : State)
      → unless_saved env saved k s ≡ next tt s'
      → (s'.response.body ≡ error operation_failed) ⊎ (k s ≡ next tt s')
  unfolding error_reply
  unless_saved-status saved k s s' = ground arith

  abbrev pub matching : Url → Auth → AuthorizationMatching
  matching url auth =
      is_target_url_authorized configuration.authorizer url
        (record { username = auth.username; groups = auth.groups; ip = remote_ip env request })
        (text_or_empty request.x_forwarded_method) auth.auth_level

  verify_failed_lem :
      (url : Url) (auth : Auth) (s s' : State)
      → verify_failed env request url auth s ≡ next tt s'
      → s'.response.status ≡ 200
      → s'.response.body ≡ error operation_failed
  unfolding verify_failed reply_updated
  verify_failed_lem url auth s s' h good =
      let (saved, s1, _, rest) =
        bind-eq-next (update_activity_timestamp env auth.is_basic_auth auth.username)
          (reply_updated env request url auth) s h in
      elim (unless_saved-status saved _ s1 s' rest) [
        | inl body ↦ body
        | inr replied ↦
            absurd (handle_unauthorized-status url auth.is_basic_auth _ s1 s' replied good)
      ]

  reply_matching-status :
      (url : Url) (auth : Auth) (verdict : AuthorizationMatching) (s s' : State)
      → reply_matching env request url auth verdict s ≡ next tt s'
      → s'.response.status ≡ 200
      → verdict ≡ authorized
  unfolding reply_matching reply_forbidden
  reply_matching-status url auth forbidden s s' e good = ground arith
  reply_matching-status url auth not_authorized s s' e good =
      absurd (handle_unauthorized-status url auth.is_basic_auth _ s s' e good)
  reply_matching-status url auth authorized s s' e good = refl

  error_or_kept :
      (saved : Bool) (s s' : State)
      → unless_saved env saved (pure tt) s ≡ next tt s'
      → s'.response.status ≡ s.response.status
  unfolding error_reply
  error_or_kept saved s s' = ground arith

  keep_reply-status :
      (auth : Auth) (s s' : State)
      → keep_reply env auth s ≡ next tt s'
      → s'.response.status ≡ s.response.status
  unfolding keep_reply
  keep_reply-status auth s s' h =
      let (saved, s1, updated, last) =
        bind-eq-next (update_activity_timestamp env auth.is_basic_auth auth.username)
          (λ updated. unless_saved env updated (pure tt)) s h in
      error_or_kept saved s1 s' last
      ∙ ap (λ r. r.status)
          (IsQuiet-response _ (update_activity_timestamp-IsQuiet auth.is_basic_auth auth.username)
            updated)

  verify_known-authorized :
      (url : Url) (auth : Auth) (verdict : AuthorizationMatching) (s s' : State)
      → verify_known env request url auth verdict s ≡ next tt s'
      → s'.response.status ≡ 200
      → verdict ≡ authorized
  unfolding verify_known
  verify_known-authorized url auth verdict s s' h good =
      let (_, s1, replied, rest) =
        bind-eq-next (reply_matching env request url auth verdict) (λ _. keep_reply env auth) s h in
      reply_matching-status url auth verdict s s1 replied
        (sym (keep_reply-status auth s1 s' rest) ∙ good)

  pub verify_user_lem :
      (url : Url) (auth : Auth) (s s' : State)
      → verify_user env configuration request url auth s ≡ next tt s'
      → s'.response.status ≡ 200
      → s'.response.body ≢ error operation_failed
      → (auth.failed ≡ false) × (matching url auth ≡ authorized)
  unfolding verify_user
  verify_user_lem url auth s s' h good body = elim (Bool-cases auth.failed) [
    | inl failed ↦ absurd (body (verify_failed_lem url auth s s' (simp failed at h) good))
    | inr fine ↦
        (fine, verify_known-authorized url auth (matching url auth) s s' (simp fine at h) good)
  ]

  -- A request whose authentication failed, and whose session cannot be saved, gets an error as its
  -- reply, with the status that the reply had before.
  pub verify_user_unsaved :
      (url : Url) (auth : Auth) (s s1 : State)
      → auth.failed ≡ true
      → update_activity_timestamp env auth.is_basic_auth auth.username s ≡ next false s1
      → (s' : State) × (verify_user env configuration request url auth s ≡ next tt s')
        × (s'.response.status ≡ s.response.status)
        × (s'.response.body ≡ error operation_failed)
  unfolding verify_user verify_failed reply_updated error_reply
  verify_user_unsaved url auth s s1 failed unsaved =
      let kept =
        IsQuiet-response _ (update_activity_timestamp-IsQuiet auth.is_basic_auth auth.username)
          unsaved in
      let s' : State = record s1 {
        response = record s1.response { body = error operation_failed };
      } in
      (
        s',
        simp failed (
            bind-next (update_activity_timestamp env auth.is_basic_auth auth.username)
              (reply_updated env request url auth) unsaved),
        ap (λ r. r.status) kept,
        refl,
      )
