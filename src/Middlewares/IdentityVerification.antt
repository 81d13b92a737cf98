-- ===== src/Middlewares/IdentityVerification.antt =====
-- identity_verification.go: a link with a signed token is mailed to a user, and the token is
-- redeemed. The signature, its verification and the mail are calls of the environment.
use ldap_totp_nginx_auth.Prelude.{
  if◌then◌else◌, Text, List, [], ◌∷◌, ◌++◌, ◌==◌, lit, not, Bool, true, false, Option, none, some,
  Result, ok, err, ℤ, pos, ◌+ℤ◌,
}
use ldap_totp_nginx_auth.Session.{unix}
use ldap_totp_nginx_auth.Middlewares.{
  Request, Message, operation_failed, token_already_used, token_has_expired,
  IdentityVerificationClaim, SignedClaims, Mail, TokenError, malformed, expired_or_not_valid_yet,
  other_token_error, Call, Env, Handler, pure, perform, ◌>>=◌,
}
use ldap_totp_nginx_auth.Middlewares.Context.{
  HeaderError, error_reply, reply_ok, forwarded_proto_host,
}

-- `session.Identity`: who is mailed, and where.
pub record Identity : Type 0 where
  pub username : Text
  pub email : Text

-- The first address of a user, if there is one.
unfoldable pub first_email : Text → Option (List Text) → Option Identity
first_email username none = none
first_email username (some []) = none
first_email username (some (email ∷ emails)) = some (record { username = username; email = email })

pub record IdentityVerificationStartArgs : Type 0 where
  pub mail_title : Text
  pub mail_button_content : Text
  pub target_endpoint : Text
  pub action_claim : Text

-- What the configuration says of tokens and mails: `JWTSecret`, `Server.Path`, and the option
-- `DisableHTMLEmails` of the SMTP notifier, false where there is none.
pub record MailSettings : Type 0 where
  pub jwt_secret : Text
  pub server_path : Text
  pub disable_html : Bool

module _ (env : Env) (args : IdentityVerificationStartArgs) (settings : MailSettings)
    (request : Request) where
  -- The claims end five minutes after the time in nanoseconds.
  unfoldable pub claims_of : Identity → ℤ → SignedClaims
  claims_of identity now = record {
    expires_at = unix (now +ℤ pos 300_000_000_000);
    issuer = lit "Authelia";
    action = args.action_claim;
    username = identity.username;
  }

  unfoldable pub link_of : Text → Text → Text
  link_of uri token =
      uri ++ (settings.server_path ++ (args.target_endpoint ++ (lit "?token=" ++ token)))

  -- The HTML of the mail, empty where it is disabled; `none` where the template fails.
  unfoldable pub html_of : Text → Option Text
  html_of link =
      if settings.disable_html
      then some []
      else env.html_email args.mail_title link args.mail_button_content

  unfoldable pub reply_sent : Bool → Handler (Unit {0})
  reply_sent false = error_reply operation_failed
  reply_sent true = reply_ok

  unfoldable pub send_text : Identity → Text → Option Text → Handler (Unit {0})
  send_text identity html none = error_reply operation_failed
  send_text identity html (some text) =
      let mail : Mail = record {
        recipient = identity.email;
        title = args.mail_title;
        text = text;
        html = html;
      } in
      perform (Call.send_mail mail) (env.send_mail mail) >>= reply_sent

  unfoldable pub send_html : Identity → Text → Option Text → Handler (Unit {0})
  send_html identity link none = error_reply operation_failed
  send_html identity link (some html) = send_text identity html (env.plain_text_email link)

  unfoldable pub send_link : Identity → Text → Result HeaderError Text → Handler (Unit {0})
  send_link identity token (err e) = error_reply operation_failed
  send_link identity token (ok uri) =
      send_html identity (link_of uri token) (html_of (link_of uri token))

  unfoldable pub use_saved : Identity → Text → Bool → Handler (Unit {0})
  use_saved identity token false = error_reply operation_failed
  use_saved identity token true = send_link identity token (forwarded_proto_host request)

  unfoldable pub use_signed : Identity → Option Text → Handler (Unit {0})
  use_signed identity none = error_reply operation_failed
  use_signed identity (some token) =
      perform (Call.save_identity_verification_token token)
        (env.save_identity_verification_token token)
      >>= use_saved identity token

  unfoldable pub sign_claims : Identity → ℤ → Handler (Unit {0})
  sign_claims identity now =
      use_signed identity (env.sign_token settings.jwt_secret (claims_of identity now))

  -- A user that is not known gets the reply of one that is mailed.
  unfoldable pub use_identity : Option Identity → Handler (Unit {0})
  use_identity none = reply_ok
  use_identity (some identity) = perform Call.now env.now >>= sign_claims identity

  -- `IdentityVerificationStart`, over `IdentityRetrieverFunc`.
  unfoldable pub identity_verification_start : Handler (Option Identity) → Handler (Unit {0})
  identity_verification_start retrieve = retrieve >>= use_identity

-- The reply to a token that does not verify.
unfoldable pub token_error_message : TokenError → Message
token_error_message malformed = operation_failed
token_error_message expired_or_not_valid_yet = token_has_expired
token_error_message other_token_error = operation_failed

-- `IsTokenUserValidFunc`, where it is set.
unfoldable pub is_token_user_valid : Option (Text → Handler Bool) → Text → Handler Bool
is_token_user_valid none username = pure true
is_token_user_valid (some valid) username = valid username

module _ (env : Env) (action : Text) (user_valid : Option (Text → Handler Bool))
    (then' : Text → Handler (Unit {0})) where
  unfoldable pub after_removal : Text → Bool → Handler (Unit {0})
  after_removal username false = error_reply operation_failed
  after_removal username true = then' username

  unfoldable pub remove_valid : Text → Text → Bool → Handler (Unit {0})
  remove_valid token username false = error_reply operation_failed
  remove_valid token username true =
      perform (Call.remove_identity_verification_token token)
        (env.remove_identity_verification_token token)
      >>= after_removal username

  unfoldable pub use_claims :
      Text → Result TokenError IdentityVerificationClaim → Handler (Unit {0})
  use_claims token (err e) = error_reply (token_error_message e)
  use_claims token (ok claims) =
      if not (claims.action == action)
      then error_reply operation_failed
      else (is_token_user_valid user_valid claims.username >>= remove_valid token claims.username)

  unfoldable pub use_found : Text → Option Bool → Handler (Unit {0})
  use_found token none = error_reply operation_failed
  use_found token (some false) = error_reply token_already_used
  use_found token (some true) =
      perform (Call.parse_token token) (env.parse_token token) >>= use_claims token

  unfoldable pub find_token : Text → Handler (Unit {0})
  find_token token =
      if token == []
      then error_reply operation_failed
      else (perform (Call.find_identity_verification_token token)
            (env.find_identity_verification_token token)
          >>= use_found token)

  -- `IdentityVerificationFinish`, over the token of the body, `none` where the body is no JSON.
  unfoldable pub identity_verification_finish : Option Text → Handler (Unit {0})
  identity_verification_finish none = error_reply operation_failed
  identity_verification_finish (some token) = find_token token
