-- ===== src/Handlers/Verify.antt =====
-- handler_verify.go: the endpoint that tells a proxy whether a request may go through.
pub mod Replies
pub mod Access
use ldap_totp_nginx_auth.Prelude.{
  if◌then◌else◌, Text, List, [], ◌∷◌, ◌++◌, ◌==◌, lit, Bool, true, false, not, ◌&&◌, ◌||◌, ℕ, ◌/◌,
  length, drop, is_empty, Option, none, some, has_prefix, has_suffix, cut_byte, join, equal_fold,
  Result, ok, err, ℤ, pos, negsuc, ◌+ℤ◌, ◌-ℤ◌, ltb_ℤ, suc,
}
use ldap_totp_nginx_auth.Utils.Strings.{is_string_slices_different}
use ldap_totp_nginx_auth.Utils.Time.{DurationError, parse_duration_string, durations}
use ldap_totp_nginx_auth.Authentication
use ldap_totp_nginx_auth.Authentication.{UserDetails, at_least}
use ldap_totp_nginx_auth.Authorization
use ldap_totp_nginx_auth.Authorization.{Url, Level, Subject, new_object}
use ldap_totp_nginx_auth.Authorization.Rules.{Authorizer, get_required_level, rules}
use ldap_totp_nginx_auth.Session.{UserSession, unix, new_default_user_session}
use ldap_totp_nginx_auth.Middlewares.{
  Request, Message, operation_failed, Body, found, Response, UserError, user_not_found, other_error,
  Call, Env, Handler, pure, return', perform, respond, ◌>>=◌, ◌>>◌, State, Outcome, panicked, next,
}
use ldap_totp_nginx_auth.Middlewares.Context.{
  error_reply, reply_unauthorized, reply_forbidden, HeaderError, forwarded_url, get_original_url,
  get_session, save_session, destroy_session, remote_ip, text_or_empty,
}
use ldap_totp_nginx_auth.Handlers.{Configuration}
use ldap_totp_nginx_auth.Handlers.Profiles.{
  whole_seconds, is_zero, get_profile_refresh_settings, has_profile_changed, save_profile,
  update_profile, is_profile_fresh, use_profile, refresh_profile,
  verify_session_has_up_to_date_profile, profiles,
}
use ldap_totp_nginx_auth.Handlers.Identification.{
  parse_basic_auth, nobody, auth_of_details, auth_of_session, has_user_been_inactive_too_long,
  use_details, use_checked, use_credentials, verify_basic_auth, finish_session_cookie,
  expire_session, check_profile, verify_session_cookie, is_basic, check_session_username,
  verify_cookie, verify_requested_auth, verify_proxy_auth, verify_auth, Auth, identifying,
}

unfoldable pub is_url_under_protected_domain : Url → Text → Bool
is_url_under_protected_domain url domain = has_suffix url.hostname domain

-- `authorizationMatching` of types.go and const.go.
pub data AuthorizationMatching : Type 0 where
  forbidden not_authorized authorized : AuthorizationMatching

-- The `switch` of `isTargetURLAuthorized`, over the required level.
unfoldable pub match_level : Level → Text → Authentication.Level → AuthorizationMatching
match_level Level.bypass username auth_level = authorized
match_level Level.denied username auth_level =
    if not (username == []) then forbidden else not_authorized
match_level Level.one_factor username auth_level =
    if at_least auth_level Authentication.Level.one_factor then authorized else not_authorized
match_level Level.two_factor username auth_level =
    if at_least auth_level Authentication.Level.two_factor then authorized else not_authorized

unfoldable pub is_target_url_authorized :
    Authorizer → Url → Subject → Text → Authentication.Level → AuthorizationMatching
is_target_url_authorized authorizer target_url subject method auth_level =
    match_level (get_required_level authorizer subject (new_object target_url method))
      subject.username auth_level

module _ (env : Env) where
  -- `updateActivityTimestamp`; `false` where the session cannot be saved.
  unfoldable pub update_activity_timestamp : Bool → Text → Handler Bool
  update_activity_timestamp is_basic_auth username =
      if is_basic_auth || username == []
      then pure true
      else (get_session env >>= λ s. if s.keep_me_logged_in then pure true else (do
        now ← perform Call.now env.now
        save_session env (record s { last_activity = unix now })))

  unfoldable pub redirection_url : Text → Url → Text → Text
  redirection_url rd target_url method =
      let target = rd ++ (lit "?rd=" ++ env.query_escape (env.url_string target_url)) in
      if not (method == []) then target ++ (lit "&rm=" ++ method) else target

  -- `handleUnauthorized`.
  unfoldable pub handle_unauthorized : Request → Url → Bool → Text → Handler (Unit {0})
  handle_unauthorized request target_url is_basic_auth method =
      if is_basic_auth
      then (do reply_unauthorized; respond (λ r. record r { basic_challenge = true }))
      else if not (text_or_empty request.query_rd == [])
      then (let url = redirection_url (text_or_empty request.query_rd) target_url method in
          respond (λ r. record r {
            status = 302;
            location = some (env.resolve_redirect url);
            body = found url;
          }))
      else reply_unauthorized

  -- `emails[0]`, or nothing for a nil slice; it panics for an empty one.
  unfoldable pub first_email : Option (List Text) → Handler Text
  first_email none = pure []
  first_email (some []) = λ s. panicked
  first_email (some (email ∷ _)) = pure email

  -- `setForwardedHeaders`.
  unfoldable pub set_forwarded_headers : Auth → Handler (Unit {0})
  set_forwarded_headers auth =
      if not (auth.username == [])
      then (do
        email ← first_email auth.emails
        respond (λ r. record r {
          forwarded = some (record {
            user = auth.username;
            groups = join (lit ",") auth.groups;
            name = auth.name;
            email = email;
          });
        }))
      else pure tt

  -- The reply of `VerifyGet` to each verdict.
  unfoldable pub reply_matching : Request → Url → Auth → AuthorizationMatching → Handler (Unit {0})
  reply_matching request target_url auth forbidden = reply_forbidden
  reply_matching request target_url auth not_authorized =
      handle_unauthorized request target_url auth.is_basic_auth
        (text_or_empty request.x_forwarded_method)
  reply_matching request target_url auth authorized = set_forwarded_headers auth

  abbrev pub unless_saved : Bool → Handler (Unit {0}) → Handler (Unit {0})
  unless_saved true k = k
  unless_saved false k = error_reply operation_failed

  -- `VerifyGet` from the authentication of the user on: its end where the authentication failed,
  -- and where it did not.
  unfoldable pub reply_updated : Request → Url → Auth → Bool → Handler (Unit {0})
  reply_updated request target_url auth updated = unless_saved updated (
      handle_unauthorized request target_url auth.is_basic_auth
        (text_or_empty request.x_forwarded_method))

  unfoldable pub verify_failed : Request → Url → Auth → Handler (Unit {0})
  verify_failed request target_url auth =
      update_activity_timestamp auth.is_basic_auth auth.username
      >>= reply_updated request target_url auth

  unfoldable pub keep_reply : Auth → Handler (Unit {0})
  keep_reply auth = update_activity_timestamp auth.is_basic_auth auth.username >>= λ updated.
      unless_saved updated (pure tt)

  unfoldable pub verify_known : Request → Url → Auth → AuthorizationMatching → Handler (Unit {0})
  verify_known request target_url auth verdict =
      reply_matching request target_url auth verdict >> keep_reply auth

  unfoldable pub verify_user : Configuration → Request → Url → Auth → Handler (Unit {0})
  verify_user configuration request target_url auth =
      if auth.failed
      then verify_failed request target_url auth
      else verify_known request target_url auth (
          is_target_url_authorized configuration.authorizer target_url
            (record { username = auth.username; groups = auth.groups; ip = remote_ip env request })
            (text_or_empty request.x_forwarded_method) auth.auth_level)

  unfoldable pub verify_protected : Configuration → Request → Url → Handler (Unit {0})
  verify_protected configuration request target_url =
      let settings = get_profile_refresh_settings configuration.ldap_refresh_interval in
      verify_auth env configuration request settings.0 settings.1 >>= λ auth.
      verify_user configuration request target_url auth

  unfoldable pub verify_target : Configuration → Request → Url → Handler (Unit {0})
  verify_target configuration request target_url =
      if not (target_url.scheme == lit "https") && not (target_url.scheme == lit "wss")
      then reply_unauthorized
      else if not (is_url_under_protected_domain target_url configuration.session_domain)
      then reply_unauthorized
      else verify_protected configuration request target_url

  unfoldable pub verify_original :
      Configuration → Request → Result HeaderError Url → Handler (Unit {0})
  verify_original configuration request (err _) = reply_unauthorized
  verify_original configuration request (ok target_url) =
      verify_target configuration request target_url

  -- `VerifyGet`.
  unfoldable pub verify_get : Configuration → Request → Handler (Unit {0})
  verify_get configuration request =
      verify_original configuration request (get_original_url env request)

-- What a test of the endpoint computes with.
unfoldable pub verifying : Unit {0}
unfolding is_url_under_protected_domain match_level is_target_url_authorized
    update_activity_timestamp redirection_url handle_unauthorized first_email set_forwarded_headers
    reply_matching reply_updated verify_failed keep_reply verify_known verify_user verify_protected
    verify_target verify_original verify_get get_original_url forwarded_url remote_ip
    reply_unauthorized reply_forbidden error_reply rules identifying
verifying = tt
