-- ===== src/Handlers/Sessions/Verify.antt =====
-- The endpoint of the proxy raises no session: what it saves keeps the user and the level of a
-- session that the store has given.
use ldap_totp_nginx_auth.Prelude.{
  Text, List, ◌∷◌, [], Bool, true, false, Option, none, some, Result, ok, err,
}
use ldap_totp_nginx_auth.Authorization.{Url}
use ldap_totp_nginx_auth.Middlewares.{Request, Env, State, Handler}
use ldap_totp_nginx_auth.Middlewares.Context.{
  HeaderError, get_original_url, reply_unauthorized, reply_forbidden,
}
use ldap_totp_nginx_auth.Handlers.{Configuration}
use ldap_totp_nginx_auth.Handlers.Identification.{Auth}
use ldap_totp_nginx_auth.Handlers.Verify.{
  AuthorizationMatching, forbidden, not_authorized, authorized, handle_unauthorized, first_email,
  set_forwarded_headers, reply_matching, unless_saved, reply_updated, verify_failed, keep_reply,
  verify_known, verify_user, verify_protected, verify_target, verify_original, verify_get,
}
use ldap_totp_nginx_auth.Handlers.Sessions.{IsLawful, IsLawfulEnd}
use ldap_totp_nginx_auth.Handlers.Sessions.Replies.{
  IsSafe, IsSafe-pure, IsSafe-respond, IsSafe-if, IsSafe-bind, error_reply-IsSafe,
}
use ldap_totp_nginx_auth.Handlers.Sessions.Identification.{
  verify_auth-IsSafe, update_activity_timestamp-IsSafe,
}

module _ (env : Env) (configuration : Configuration) (request : Request) where
  handle_unauthorized-IsSafe :
      (url : Url) (basic : Bool) (method : Text)
      → IsSafe env (handle_unauthorized env request url basic method)
  unfolding handle_unauthorized reply_unauthorized
  handle_unauthorized-IsSafe url basic method = search (IsSafe-if, IsSafe-respond) depth 8

  first_email-IsSafe : (emails : Option (List Text)) → IsSafe env (first_email env emails)
  unfolding first_email
  first_email-IsSafe none σ h = h
  first_email-IsSafe (some []) σ h = tt
  first_email-IsSafe (some (e ∷ emails)) σ h = h

  reply_matching-IsSafe :
      (url : Url) (auth : Auth) (verdict : AuthorizationMatching)
      → IsSafe env (reply_matching env request url auth verdict)
  unfolding reply_matching reply_forbidden set_forwarded_headers
  reply_matching-IsSafe url auth forbidden = search IsSafe-respond
  reply_matching-IsSafe url auth not_authorized = handle_unauthorized-IsSafe url _ _
  reply_matching-IsSafe url auth authorized =
      search (IsSafe-if, IsSafe-bind, IsSafe-pure, IsSafe-respond, first_email-IsSafe)

  unless_saved-IsSafe :
      (saved : Bool) (m : Handler (Unit {0})) → IsSafe env m → IsSafe env (unless_saved env saved m)
  unless_saved-IsSafe true m h = h
  unless_saved-IsSafe false m h = error_reply-IsSafe env _

  verify_user-IsSafe :
      (url : Url) (auth : Auth) → IsSafe env (verify_user env configuration request url auth)
  unfolding verify_user verify_failed reply_updated verify_known keep_reply
  verify_user-IsSafe url auth =
      search
        (
          IsSafe-if, IsSafe-bind, IsSafe-pure, update_activity_timestamp-IsSafe,
          unless_saved-IsSafe, handle_unauthorized-IsSafe, reply_matching-IsSafe,
        )
        depth 10

  verify_original-IsSafe :
      (found : Result HeaderError Url)
      → IsSafe env (verify_original env configuration request found)
  unfolding verify_original verify_target verify_protected reply_unauthorized
  verify_original-IsSafe (err e) = search IsSafe-respond
  verify_original-IsSafe (ok url) =
      search (IsSafe-if, IsSafe-bind, IsSafe-respond, verify_auth-IsSafe, verify_user-IsSafe)

  -- The endpoint of the proxy keeps it true, in the sense of the theorem on logging in, that every
  -- session that is saved has earned its level, though it saves sessions with the time of the
  -- request and with new details of the user.
  pub verify_get-IsLawful :
      (σ : State) → IsLawful env σ.trace → IsLawfulEnd env (verify_get env configuration request σ)
  unfolding verify_get
  verify_get-IsLawful σ h = verify_original-IsSafe (get_original_url env request) σ h
