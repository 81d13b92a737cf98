-- ===== src/Middlewares.antt =====
-- internal/middlewares: a request as a handler sees it, the replies of authelia_context.go, and
-- what a handler does to the world. A handler is a sequence of calls. Each call that leaves the
-- program (session store, user backend, storage, clock) is put on a trace, and its result is a
-- function of the trace so far, so any environment that answers a request is covered.
pub mod Context
pub mod Frames
pub mod IdentityVerification
pub mod RequireFirstFactor
use ldap_totp_nginx_auth.Prelude.{
  Text, List, [], ◌∷◌, Bool, true, false, Option, none, some, ℕ, ℤ, Result, ok, err,
}
use ldap_totp_nginx_auth.Authentication
use ldap_totp_nginx_auth.Authentication.{UserDetails}
use ldap_totp_nginx_auth.Authorization.{Url}
use ldap_totp_nginx_auth.Regulation.{AuthenticationAttempt}
use ldap_totp_nginx_auth.Session.{U2fRegistration, UserSession}

-- The headers and query arguments that the handlers read; `none` where `Peek` returns nil.
pub record Request : Type 0 where
  pub x_original_url : Option Text
  pub x_forwarded_proto : Option Text
  pub x_forwarded_host : Option Text
  pub x_forwarded_uri : Option Text
  pub x_forwarded_method : Option Text
  pub x_forwarded_for : Option Text
  pub authorization : Option Text
  pub proxy_authorization : Option Text
  pub session_username : Option Text
  pub query_auth : Option Text
  pub query_rd : Option Text
  pub peer_ip : List ℕ

-- The texts of const.go that a reply can show.
pub data Message : Type 0 where
  operation_failed authentication_failed user_banned mfa_validation_failed : Message
  unable_to_reset_password ldap_password_complexity token_already_used token_has_expired : Message
  unable_to_register_one_time_password unable_to_register_security_key : Message

-- What the portal shows of a user; a method that was not loaded is empty.
pub record UserInfo : Type 0 where
  pub display_name : Text
  pub method : Text
  pub has_u2f : Bool
  pub has_totp : Bool

-- A key for one-time passwords, and the address that holds it.
pub record TotpKey : Type 0 where
  pub secret : Text
  pub url : Text

pub data Body : Type 0 where
  empty okay : Body
  status_text : ℕ → Body
  error : Message → Body
  redirect : Text → Body
  found : Text → Body
  safe_target_url : Bool → Body
  sign_request : Text → U2fRegistration → Body
  register_request : Text → Body
  totp_key : TotpKey → Body
  user_info : UserInfo → Body
  state : Text → Authentication.Level → Text → Body
  methods : List Text → Bool → ℤ → Body

-- The headers that `setForwardedHeaders` sets.
pub record ForwardedHeaders : Type 0 where
  pub user : Text
  pub groups : Text
  pub name : Text
  pub email : Text

pub record Response : Type 0 where
  pub status : ℕ
  pub body : Body
  pub location : Option Text
  pub basic_challenge : Bool
  pub forwarded : Option ForwardedHeaders

abbrev pub blank : Response
blank = record {
  status = 200;
  body = empty;
  location = none;
  basic_challenge = false;
  forwarded = none;
}

-- What a user backend can fail with; `user_not_found` is `ErrUserNotFound`.
pub data UserError : Type 0 where
  user_not_found other_error : UserError

-- The claims of a verified token, and what its verification fails with.
pub record IdentityVerificationClaim : Type 0 where
  pub action : Text
  pub username : Text

pub data TokenError : Type 0 where
  malformed expired_or_not_valid_yet other_token_error : TokenError

-- The claims of a token that is made, with its end in seconds.
pub record SignedClaims : Type 0 where
  pub expires_at : ℤ
  pub issuer : Text
  pub action : Text
  pub username : Text

-- A mail: to whom, its title, its plain text and its HTML.
pub record Mail : Type 0 where
  pub recipient : Text
  pub title : Text
  pub text : Text
  pub html : Text

pub data Call : Type 0 where
  now get_session regenerate_session destroy_session : Call
  save_session : UserSession → Call
  update_expiration : ℤ → Call
  check_user_password : Text → Text → Call
  get_details : Text → Call
  append_authentication_log : AuthenticationAttempt → Call
  load_latest_authentication_logs : Text → ℤ → Call
  load_totp_secret : Text → Call
  verify_totp : Text → Text → Call
  verify_u2f : U2fRegistration → Text → Text → Call
  call_duo : Text → Text → Call
  new_u2f_challenge : Text → Call
  load_u2f_device_handle : Text → Call
  find_identity_verification_token parse_token remove_identity_verification_token : Text → Call
  update_password : Text → Text → Call
  save_identity_verification_token : Text → Call
  send_mail : Mail → Call
  generate_totp_key save_totp_secret : Text → Text → Call
  save_u2f_device_handle : Text → U2fRegistration → Call
  load_preferred_2fa_method : Text → Call
  save_preferred_2fa_method : Text → Text → Call

-- The trace, the latest call first.
abbrev pub Trace : Type 0
Trace = List Call

-- How the world answers; `false` and `none` are errors. The libraries that parse URLs, addresses
-- and base64 stand here too, and `resolve_redirect` is what fasthttp makes of a redirection. `no_totp_secret` and
-- `no_u2f_device_handle` tell whether a load that failed did so for want of an entry.
pub record Env : Type 0 where
  pub now : Trace → ℤ
  pub get_session : Trace → Option UserSession
  pub save_session : UserSession → Trace → Bool
  pub regenerate_session : Trace → Bool
  pub destroy_session : Trace → Bool
  pub update_expiration : ℤ → Trace → Bool
  pub check_user_password : Text → Text → Trace → Result UserError Bool
  pub get_details : Text → Trace → Result UserError UserDetails
  pub append_authentication_log : AuthenticationAttempt → Trace → Bool
  pub load_latest_authentication_logs : Text → ℤ → Trace → Option (List AuthenticationAttempt)
  pub load_totp_secret : Text → Trace → Option Text
  pub verify_totp : Text → Text → Trace → Option Bool
  pub verify_u2f : U2fRegistration → Text → Text → Trace → Bool
  pub call_duo : Text → Text → Trace → Option Text
  pub new_u2f_challenge : Text → Trace → Option Text
  pub load_u2f_device_handle : Text → Trace → Option U2fRegistration
  pub find_identity_verification_token : Text → Trace → Option Bool
  pub parse_token : Text → Trace → Result TokenError IdentityVerificationClaim
  pub remove_identity_verification_token : Text → Trace → Bool
  pub update_password : Text → Text → Trace → Result Text (Unit {0})
  pub save_identity_verification_token : Text → Trace → Bool
  pub send_mail : Mail → Trace → Bool
  pub generate_totp_key : Text → Text → Trace → Option TotpKey
  pub save_totp_secret : Text → Text → Trace → Bool
  pub save_u2f_device_handle : Text → U2fRegistration → Trace → Bool
  pub load_preferred_2fa_method : Text → Trace → Option Text
  pub save_preferred_2fa_method : Text → Text → Trace → Bool
  pub no_totp_secret : Text → Trace → Bool
  pub no_u2f_device_handle : Text → Trace → Bool
  pub sign_token : Text → SignedClaims → Option Text
  pub register_u2f : Text → Text → Option U2fRegistration
  pub html_email : Text → Text → Text → Option Text
  pub plain_text_email : Text → Option Text
  pub parse_request_uri : Text → Option Url
  pub query_escape : Text → Text
  pub url_string : Url → Text
  pub resolve_redirect : Text → Text
  pub parse_ip : Text → List ℕ
  pub decode_base64 : Text → Option Text

pub record State : Type 0 where
  pub trace : Trace
  pub response : Response

-- A handler goes on with a value, has returned, or has panicked.
pub data Outcome {ℓ} (A : Type ℓ) : Type ℓ where
  next : A → State → Outcome A
  returned : State → Outcome A
  panicked : Outcome A

abbrev pub Handler {ℓ} : Type ℓ → Type ℓ
Handler A = State → Outcome A

infixl 5 ◌>>=◌ ◌>>◌
abbrev pub ◌>>=◌ {ℓ κ} : {A : Type ℓ} {B : Type κ} → Handler A → (A → Handler B) → Handler B
◌>>=◌ m f s = elim (m s) [ next a s' ↦ f a s' | returned s' ↦ returned s' | panicked ↦ panicked ]

abbrev pub ◌>>◌ {ℓ κ} : {A : Type ℓ} {B : Type κ} → Handler A → Handler B → Handler B
m >> k = m >>= λ _. k

abbrev pub pure {ℓ} : {A : Type ℓ} → A → Handler A
pure a s = next a s

-- `return` out of the handler.
abbrev pub return' {ℓ} : {A : Type ℓ} → Handler A
return' s = returned s

-- A call and its result.
abbrev pub perform {ℓ} : {A : Type ℓ} → Call → (Trace → A) → Handler A
perform call result s = next (result s.trace) (record s { trace = call ∷ s.trace })

abbrev pub respond : (Response → Response) → Handler (Unit {0})
respond f s = next tt (record s { response = f s.response })
