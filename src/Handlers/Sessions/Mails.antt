-- ===== src/Handlers/Sessions/Mails.antt =====
-- The start of the identity verification: what is mailed.
use ldap_totp_nginx_auth.Prelude.{
  Text, [], ◌∷◌, Bool, true, false, Option, none, some, Result, ok, err, ℤ, ◌≡◌, refl, sym,
}
use ldap_totp_nginx_auth.Middlewares.{Request, Mail, Call, Trace, Env, State}
use ldap_totp_nginx_auth.Middlewares.Context.{
  HeaderError, error_reply, reply_ok, forwarded_proto_host,
}
use ldap_totp_nginx_auth.Middlewares.IdentityVerification.{
  Identity, IdentityVerificationStartArgs, MailSettings, claims_of, link_of, reply_sent, send_text,
  send_html, send_link, use_saved, use_signed, sign_claims, use_identity,
}
use ldap_totp_nginx_auth.Handlers.Sessions.{Happened, at_last}
use ldap_totp_nginx_auth.Handlers.Sessions.Tokens.{EndsIn}

module _ (env : Env) (args : IdentityVerificationStartArgs) (settings : MailSettings)
    (request : Request) where
  abbrev pub SavesToken : Text → Call → Trace → Type 0
  SavesToken token c t =
      (c ≡ Call.save_identity_verification_token token)
      × (env.save_identity_verification_token token t ≡ true)

  -- The mail goes to the address of the identity, and its text is made of the link with a token
  -- that was signed for the user and the action, and that the storage has saved.
  pub record MailsLink (R : Identity → Trace → Type 0) (mail : Mail) (t : Trace) : Type 0 where
    pub identity : Identity
    pub token : Text
    pub uri : Text
    pub now : ℤ
    pub recipient : mail.recipient ≡ identity.email
    pub origin : forwarded_proto_host request ≡ ok uri
    pub text : env.plain_text_email (link_of env args settings request uri token) ≡ some mail.text
    pub signed :
        env.sign_token settings.jwt_secret (claims_of env args settings request identity now)
        ≡ some token
    pub saved : Happened (SavesToken token) t
    pub retrieved : R identity t

  abbrev pub IsMailed : (Identity → Trace → Type 0) → Trace → Type 0
  IsMailed R [] = Unit
  IsMailed R (Call.send_mail mail ∷ t) = MailsLink R mail t × IsMailed R t
  IsMailed R (_ ∷ t) = IsMailed R t

  module _ (R : Identity → Trace → Type 0)
      (later : (i : Identity) (c : Call) (t : Trace) → R i t → R i (c ∷ t)) where
    reply_sent-EndsIn :
        (sent : Bool) (σ : State)
        → IsMailed R σ.trace
        → EndsIn (IsMailed R) (reply_sent env args settings request sent σ)
    unfolding reply_sent error_reply reply_ok
    reply_sent-EndsIn true σ h = h
    reply_sent-EndsIn false σ h = h

    -- The text of the mail is that of the template.
    send_text-EndsIn :
        (i : Identity) (token uri html : Text) (now : ℤ) (text : Option Text) (σ : State)
        → env.plain_text_email (link_of env args settings request uri token) ≡ text
        → forwarded_proto_host request ≡ ok uri
        → env.sign_token settings.jwt_secret (claims_of env args settings request i now)
          ≡ some token
        → Happened (SavesToken token) σ.trace
        → R i σ.trace
        → IsMailed R σ.trace
        → EndsIn (IsMailed R) (send_text env args settings request i html text σ)
    unfolding send_text error_reply
    send_text-EndsIn i token uri html now none σ made origin signed saved r h = h
    send_text-EndsIn i token uri html now (some text) σ made origin signed saved r h =
        reply_sent-EndsIn _ _ (
          record {
            identity = i;
            token = token;
            uri = uri;
            now = now;
            recipient = refl;
            origin = origin;
            text = made;
            signed = signed;
            saved = saved;
            retrieved = r;
          },
          h,
        )

    send_html-EndsIn :
        (i : Identity) (token uri : Text) (now : ℤ) (html : Option Text) (σ : State)
        → forwarded_proto_host request ≡ ok uri
        → env.sign_token settings.jwt_secret (claims_of env args settings request i now)
          ≡ some token
        → Happened (SavesToken token) σ.trace
        → R i σ.trace
        → IsMailed R σ.trace
        → EndsIn (IsMailed R) (
            send_html env args settings request i
              (link_of env args settings request uri token)
              html
              σ)
    unfolding send_html error_reply
    send_html-EndsIn i token uri now none σ origin signed saved r h = h
    send_html-EndsIn i token uri now (some html) σ origin signed saved r h =
        send_text-EndsIn i token uri html now _ σ refl origin signed saved r h

    send_link-EndsIn :
        (i : Identity) (token : Text) (now : ℤ) (origin : Result HeaderError Text) (σ : State)
        → forwarded_proto_host request ≡ origin
        → env.sign_token settings.jwt_secret (claims_of env args settings request i now)
          ≡ some token
        → Happened (SavesToken token) σ.trace
        → R i σ.trace
        → IsMailed R σ.trace
        → EndsIn (IsMailed R) (send_link env args settings request i token origin σ)
    unfolding send_link error_reply
    send_link-EndsIn i token now (err e) σ origin signed saved r h = h
    send_link-EndsIn i token now (ok uri) σ origin signed saved r h =
        send_html-EndsIn i token uri now _ σ origin signed saved r h

    use_saved-EndsIn :
        (i : Identity) (token : Text) (now : ℤ) (done : Bool) (σ : State)
        → done ≡ env.save_identity_verification_token token σ.trace
        → env.sign_token settings.jwt_secret (claims_of env args settings request i now)
          ≡ some token
        → R i σ.trace
        → IsMailed R σ.trace
        → EndsIn (IsMailed R) (
            use_saved env args settings request i token done
              (record σ { trace = Call.save_identity_verification_token token ∷ σ.trace }))
    unfolding use_saved error_reply
    use_saved-EndsIn i token now false σ answered signed r h = h
    use_saved-EndsIn i token now true σ answered signed r h =
        send_link-EndsIn i token now _ _ refl signed (at_last (refl, sym answered)) (later i _ _ r)
          h

    use_signed-EndsIn :
        (i : Identity) (now : ℤ) (token : Option Text) (σ : State)
        → env.sign_token settings.jwt_secret (claims_of env args settings request i now) ≡ token
        → R i σ.trace
        → IsMailed R σ.trace
        → EndsIn (IsMailed R) (use_signed env args settings request i token σ)
    unfolding use_signed error_reply
    use_signed-EndsIn i now none σ signed r h = h
    use_signed-EndsIn i now (some token) σ signed r h =
        use_saved-EndsIn i token now _ σ refl signed r h

    -- What the identity that was retrieved gives.
    pub use_identity-EndsIn :
        (i : Option Identity) (σ : State)
        → ((j : Identity) → i ≡ some j → R j σ.trace)
        → IsMailed R σ.trace
        → EndsIn (IsMailed R) (use_identity env args settings request i σ)
    unfolding use_identity sign_claims reply_ok
    use_identity-EndsIn none σ r h = h
    use_identity-EndsIn (some i) σ r h = use_signed-EndsIn i _ _ _ refl (later i _ _ (r i refl)) h
