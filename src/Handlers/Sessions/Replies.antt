-- ===== src/Handlers/Sessions/Replies.antt =====
-- The replies save no session.
use ldap_totp_nginx_auth.Prelude.{
  if◌then◌else◌, Text, List, Bool, true, false, Option, none, some, Result, ok, err,
}
use ldap_totp_nginx_auth.Authorization.{Url}
use ldap_totp_nginx_auth.Session.{UserSession, OidcWorkflowSession}
use ldap_totp_nginx_auth.Middlewares.{
  Request, Message, Body, Response, Call, Trace, Env, State, Outcome, next, returned, panicked,
  Handler, pure, perform, respond, ◌>>=◌,
}
use ldap_totp_nginx_auth.Middlewares.Context.{
  HeaderError, error_reply, reply_ok, set_json_body, get_session,
}
use ldap_totp_nginx_auth.Handlers.{Configuration}
use ldap_totp_nginx_auth.Handlers.Responses.{
  handle_authentication_unauthorized, reply_workflow_at, reply_workflow,
  handle_oidc_workflow_response, reply_default, reply_1fa_target, reply_1fa_parsed,
  reply_2fa_parsed, handle_1fa_response, handle_2fa_response,
}
use ldap_totp_nginx_auth.Handlers.Sessions.{IsLawful, IsLawfulEnd}

module _ (env : Env) where
  abbrev pub IsSafe {ℓ} : {A : Type ℓ} → Handler A → Type 0
  IsSafe m = (s : State) → IsLawful env s.trace → IsLawfulEnd env (m s)

  pub IsSafe-pure {ℓ} : {A : Type ℓ} (a : A) → IsSafe (pure a)
  IsSafe-pure a s h = h

  pub IsSafe-respond : (f : Response → Response) → IsSafe (respond f)
  IsSafe-respond f s h = h

  pub IsSafe-get_session {ℓ} : {A : Type ℓ} (f : Trace → A) → IsSafe (perform Call.get_session f)
  IsSafe-get_session f s h = h

  pub IsSafe-now {ℓ} : {A : Type ℓ} (f : Trace → A) → IsSafe (perform Call.now f)
  IsSafe-now f s h = h

  pub IsSafe-if {ℓ} :
      {A : Type ℓ} (b : Bool) (m n : Handler A) → IsSafe m → IsSafe n → IsSafe (if b then m else n)
  IsSafe-if true m n h k = h
  IsSafe-if false m n h k = k

  pub IsSafe-bind {ℓ κ} :
      {A : Type ℓ} {B : Type κ} (m : Handler A) (f : A → Handler B)
      → IsSafe m
      → ((a : A) → IsSafe (f a))
      → IsSafe (m >>= f)
  IsSafe-bind {A = A} {B = B} m f h k s lawful = bound (m s) (h s lawful)
    where
      bound :
          (o : Outcome A)
          → IsLawfulEnd env o
          → IsLawfulEnd env
              (elim o [ next a s' ↦ f a s' | returned s' ↦ returned s' | panicked ↦ panicked ])
      bound (next a s') e = k a s' e
      bound (returned s') e = e
      bound panicked e = tt

  pub handle_authentication_unauthorized-IsSafe :
      (message : Message) → IsSafe (handle_authentication_unauthorized message)
  unfolding handle_authentication_unauthorized error_reply
  handle_authentication_unauthorized-IsSafe message s h = h

  pub error_reply-IsSafe : (message : Message) → IsSafe (error_reply message)
  unfolding error_reply
  error_reply-IsSafe message s h = h

  pub reply_ok-IsSafe : IsSafe reply_ok
  unfolding reply_ok
  reply_ok-IsSafe s h = h

  set_json_body-IsSafe : (body : Body) → IsSafe (set_json_body body)
  unfolding set_json_body
  set_json_body-IsSafe body s h = h

ruleset safe = (
  IsSafe-pure, IsSafe-respond, IsSafe-get_session, IsSafe-now, IsSafe-if, IsSafe-bind,
  handle_authentication_unauthorized-IsSafe, error_reply-IsSafe, reply_ok-IsSafe,
  set_json_body-IsSafe,
)

module _ (env : Env) (configuration : Configuration) (request : Request) where
  reply_workflow_at-IsSafe :
      (w : OidcWorkflowSession) (uri : Result HeaderError Text)
      → IsSafe env (reply_workflow_at env configuration request w uri)
  unfolding reply_workflow_at
  reply_workflow_at-IsSafe w (err e) = search safe
  reply_workflow_at-IsSafe w (ok uri) = search safe

  reply_workflow-IsSafe :
      (u : UserSession) (w : Option OidcWorkflowSession)
      → IsSafe env (reply_workflow env configuration request u w)
  unfolding reply_workflow
  reply_workflow-IsSafe u none s h = tt
  reply_workflow-IsSafe u (some w) s h = search (safe, reply_workflow_at-IsSafe)

  pub handle_oidc_workflow_response-IsSafe :
      IsSafe env (handle_oidc_workflow_response env configuration request)
  unfolding handle_oidc_workflow_response get_session
  handle_oidc_workflow_response-IsSafe = search (safe, reply_workflow-IsSafe)

  reply_default-IsSafe : IsSafe env (reply_default env configuration request)
  unfolding reply_default
  reply_default-IsSafe = search safe

  reply_1fa_parsed-IsSafe :
      (target_uri method username : Text) (groups : List Text) (url : Option Url)
      → IsSafe env
          (reply_1fa_parsed env configuration request target_uri method username groups url)
  unfolding reply_1fa_parsed reply_1fa_target
  reply_1fa_parsed-IsSafe target_uri method username groups none = search safe
  reply_1fa_parsed-IsSafe target_uri method username groups (some url) =
      search (safe, reply_default-IsSafe)

  pub handle_1fa_response-IsSafe :
      (target_uri method username : Text) (groups : List Text)
      → IsSafe env (handle_1fa_response env configuration request target_uri method username groups)
  unfolding handle_1fa_response
  handle_1fa_response-IsSafe target_uri method username groups =
      search (safe, reply_default-IsSafe, reply_1fa_parsed-IsSafe)

  reply_2fa_parsed-IsSafe :
      (target_uri : Text) (url : Option Url)
      → IsSafe env (reply_2fa_parsed env configuration request target_uri url)
  unfolding reply_2fa_parsed
  reply_2fa_parsed-IsSafe target_uri none = search safe
  reply_2fa_parsed-IsSafe target_uri (some url) = search safe

  pub handle_2fa_response-IsSafe :
      (target_uri : Text) → IsSafe env (handle_2fa_response env configuration request target_uri)
  unfolding handle_2fa_response
  handle_2fa_response-IsSafe target_uri = search (safe, reply_2fa_parsed-IsSafe)
