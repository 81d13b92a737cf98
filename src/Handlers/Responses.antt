-- ===== src/Handlers/Responses.antt =====
-- response.go, oidc.go and utils/safe_redirection.go: the replies after a factor was verified.
pub mod Redirection
pub mod Targets
use ldap_totp_nginx_auth.Prelude.{
  if◌then◌else◌, Text, List, [], ◌++◌, ◌==◌, lit, Bool, true, false, not, ◌&&◌, ◌||◌, is_empty,
  Option, none, some, has_suffix, Result, ok, err,
}
use ldap_totp_nginx_auth.Utils.Strings.{is_string_slices_different, is_string_slices_different_fold}
use ldap_totp_nginx_auth.Authorization.{Url, Subject, new_object, is_auth_level_sufficient}
use ldap_totp_nginx_auth.Authorization.Rules.{
  get_required_level, is_two_factor, is_second_factor_enabled, rules,
}
use ldap_totp_nginx_auth.Session.{UserSession, OidcWorkflowSession}
use ldap_totp_nginx_auth.Middlewares.{
  Request, Message, authentication_failed, mfa_validation_failed, redirect, Env, Handler, respond,
  ◌>>=◌, ◌>>◌, panicked,
}
use ldap_totp_nginx_auth.Middlewares.Context.{
  HeaderError, error_reply, reply_ok, set_json_body, forwarded_proto_host, get_session, remote_ip,
}
use ldap_totp_nginx_auth.Handlers.{Configuration}

-- `handleAuthenticationUnauthorized`.
unfoldable pub handle_authentication_unauthorized : Message → Handler (Unit {0})
handle_authentication_unauthorized message = do
  respond (λ r. record r { status = 401 })
  error_reply message

-- `IsRedirectionSafe`.
unfoldable pub is_redirection_safe : Url → Text → Bool
is_redirection_safe url protected_domain =
    if not (url.scheme == lit "https")
    then false
    else if not (has_suffix url.hostname protected_domain)
    then false
    else true

-- `isConsentMissing`.
unfoldable pub is_consent_missing : Option OidcWorkflowSession → List Text → List Text → Bool
is_consent_missing none requested_scopes requested_audience = true
is_consent_missing (some workflow) requested_scopes requested_audience =
    (not (is_empty requested_scopes)
      && is_string_slices_different requested_scopes workflow.granted_scopes)
    || (not (is_empty requested_audience)
        && is_string_slices_different_fold requested_audience workflow.granted_audience)

module _ (env : Env) (configuration : Configuration) (request : Request) where
  open configuration use {session_domain, default_redirection_url, authorizer}

  -- The reply to an OpenID Connect workflow that has the level it needs.
  unfoldable pub reply_workflow_at :
      OidcWorkflowSession → Result HeaderError Text → Handler (Unit {0})
  reply_workflow_at workflow (err _) = handle_authentication_unauthorized authentication_failed
  reply_workflow_at workflow (ok uri) =
      if is_consent_missing (some workflow) workflow.requested_scopes workflow.requested_audience
      then set_json_body (redirect (uri ++ lit "/consent"))
      else set_json_body (redirect workflow.auth_uri)

  -- `handleOIDCWorkflowResponse`, which panics where the session has no workflow.
  unfoldable pub reply_workflow : UserSession → Option OidcWorkflowSession → Handler (Unit {0})
  reply_workflow user_session none = λ s. panicked
  reply_workflow user_session (some workflow) =
      if is_auth_level_sufficient user_session.authentication_level
        workflow.required_authorization_level
      then reply_workflow_at workflow (forwarded_proto_host request)
      else reply_ok

  unfoldable pub handle_oidc_workflow_response : Handler (Unit {0})
  handle_oidc_workflow_response = get_session env >>= λ user_session.
      reply_workflow user_session user_session.oidc_workflow_session

  -- The reply where there is no safe target.
  unfoldable pub reply_default : Handler (Unit {0})
  reply_default =
      if not (is_second_factor_enabled authorizer) && not (default_redirection_url == [])
      then set_json_body (redirect default_redirection_url)
      else reply_ok

  unfoldable pub reply_1fa_target : Url → Text → Text → Text → List Text → Handler (Unit {0})
  reply_1fa_target target_url target_uri request_method username groups =
      let subject : Subject = record {
        username = username;
        groups = groups;
        ip = remote_ip env request;
      } in
      if is_two_factor
        (get_required_level authorizer subject (new_object target_url request_method))
      then reply_ok
      else if not (is_redirection_safe target_url session_domain)
      then reply_default
      else set_json_body (redirect target_uri)

  -- `Handle1FAResponse`.
  unfoldable pub reply_1fa_parsed : Text → Text → Text → List Text → Option Url → Handler (Unit {0})
  reply_1fa_parsed target_uri request_method username groups none =
      error_reply authentication_failed
  reply_1fa_parsed target_uri request_method username groups (some target_url) =
      reply_1fa_target target_url target_uri request_method username groups

  unfoldable pub handle_1fa_response : Text → Text → Text → List Text → Handler (Unit {0})
  handle_1fa_response target_uri request_method username groups =
      if target_uri == []
      then reply_default
      else reply_1fa_parsed target_uri request_method username groups
          (env.parse_request_uri target_uri)

  -- `Handle2FAResponse`.
  unfoldable pub reply_2fa_parsed : Text → Option Url → Handler (Unit {0})
  reply_2fa_parsed target_uri none = error_reply mfa_validation_failed
  reply_2fa_parsed target_uri (some target_url) =
      if is_redirection_safe target_url session_domain
      then set_json_body (redirect target_uri)
      else reply_ok

  unfoldable pub handle_2fa_response : Text → Handler (Unit {0})
  handle_2fa_response target_uri =
      if not (target_uri == [])
      then reply_2fa_parsed target_uri (env.parse_request_uri target_uri)
      else if not (default_redirection_url == [])
      then set_json_body (redirect default_redirection_url)
      else reply_ok

-- What a test of the replies computes with.
unfoldable pub replying : Unit {0}
unfolding handle_authentication_unauthorized is_redirection_safe is_consent_missing
    reply_workflow_at reply_workflow handle_oidc_workflow_response reply_default reply_1fa_target
    reply_1fa_parsed handle_1fa_response reply_2fa_parsed handle_2fa_response error_reply reply_ok
    set_json_body forwarded_proto_host get_session remote_ip rules
replying = tt
