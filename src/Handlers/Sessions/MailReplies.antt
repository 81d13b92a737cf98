-- ===== src/Handlers/Sessions/MailReplies.antt =====
-- What the reply of the start of the identity verification tells.
use ldap_totp_nginx_auth.Prelude.{
  Text, [], ◌∷◌, Bool, true, false, Option, none, some, Result, ok, err, ◌≡◌, refl, sym, subst, ◌↔◌,
  ◌⊎◌, inl, inr,
}
use ldap_totp_nginx_auth.Middlewares.{
  Request, okay, operation_failed, Mail, Call, Trace, Env, State, Outcome, next, returned, panicked,
  Handler,
}
use ldap_totp_nginx_auth.Middlewares.Context.{HeaderError, error_reply, reply_ok}
use ldap_totp_nginx_auth.Middlewares.IdentityVerification.{
  Identity, IdentityVerificationStartArgs, MailSettings, reply_sent, send_text, send_html,
  send_link, use_saved, use_signed, sign_claims, use_identity, identity_verification_start,
}
use ldap_totp_nginx_auth.Middlewares.Frames.{bind-next}

module _ (env : Env) (args : IdentityVerificationStartArgs) (settings : MailSettings)
    (request : Request) where
  -- The last call has sent a mail.
  abbrev pub SentMail : Trace → Type 0
  SentMail [] = ⊥
  SentMail (Call.send_mail mail ∷ t) = env.send_mail mail t ≡ true
  SentMail (_ ∷ t) = ⊥

  -- The reply is OK exactly where there was nobody to mail, or the mail was sent.
  abbrev pub Replies : Option Identity → Outcome (Unit {0}) → Type 0
  Replies i (next u σ) = (σ.response.body ≡ okay) ↔ ((i ≡ none) ⊎ SentMail σ.trace)
  Replies i (returned σ) = ⊥
  Replies i panicked = ⊥

  Replies-error :
      (i : Identity) (σ : State)
      → (SentMail σ.trace → ⊥)
      → Replies (some i) (error_reply operation_failed σ)
  unfolding error_reply
  Replies-error i σ unsent =
      (λ e. absurd (cc e), λ h. elim h [ inl e ↦ absurd (cc e) | inr sent ↦ absurd (unsent sent) ])

  reply_sent-Replies :
      (i : Identity) (mail : Mail) (sent : Bool) (σ : State)
      → sent ≡ env.send_mail mail σ.trace
      → Replies (some i) (
          reply_sent env args settings request sent
            (record σ { trace = Call.send_mail mail ∷ σ.trace }))
  unfolding reply_sent reply_ok
  reply_sent-Replies i mail true σ e = (λ _. inr (sym e), λ _. refl)
  reply_sent-Replies i mail false σ e = Replies-error i _ (λ sent. absurd (cc (e, sent)))

  send_text-Replies :
      (i : Identity) (html : Text) (text : Option Text) (σ : State)
      → (SentMail σ.trace → ⊥)
      → Replies (some i) (send_text env args settings request i html text σ)
  unfolding send_text
  send_text-Replies i html none σ unsent = Replies-error i σ unsent
  send_text-Replies i html (some text) σ unsent = reply_sent-Replies i _ _ σ refl

  send_html-Replies :
      (i : Identity) (link : Text) (html : Option Text) (σ : State)
      → (SentMail σ.trace → ⊥)
      → Replies (some i) (send_html env args settings request i link html σ)
  unfolding send_html
  send_html-Replies i link none σ unsent = Replies-error i σ unsent
  send_html-Replies i link (some html) σ unsent = send_text-Replies i html _ σ unsent

  send_link-Replies :
      (i : Identity) (token : Text) (origin : Result HeaderError Text) (σ : State)
      → (SentMail σ.trace → ⊥)
      → Replies (some i) (send_link env args settings request i token origin σ)
  unfolding send_link
  send_link-Replies i token (err e) σ unsent = Replies-error i σ unsent
  send_link-Replies i token (ok uri) σ unsent = send_html-Replies i _ _ σ unsent

  use_saved-Replies :
      (i : Identity) (token : Text) (done : Bool) (σ : State)
      → (SentMail σ.trace → ⊥)
      → Replies (some i) (use_saved env args settings request i token done σ)
  unfolding use_saved
  use_saved-Replies i token false σ unsent = Replies-error i σ unsent
  use_saved-Replies i token true σ unsent = send_link-Replies i token _ σ unsent

  use_signed-Replies :
      (i : Identity) (token : Option Text) (σ : State)
      → (SentMail σ.trace → ⊥)
      → Replies (some i) (use_signed env args settings request i token σ)
  unfolding use_signed
  use_signed-Replies i none σ unsent = Replies-error i σ unsent
  use_signed-Replies i (some token) σ unsent = use_saved-Replies i token _ _ (λ sent. sent)

  use_identity-Replies :
      (i : Option Identity) (σ : State) → Replies i (use_identity env args settings request i σ)
  unfolding use_identity sign_claims reply_ok
  use_identity-Replies none σ = (λ _. inl refl, λ _. refl)
  use_identity-Replies (some i) σ = use_signed-Replies i _ _ (λ sent. sent)

  -- Once the user has been looked up, the start of the identity verification replies OK exactly
  -- where there is nobody to mail or the notifier has sent the mail.
  pub identity_verification_start_iff :
      (retrieve : Handler (Option Identity)) (i : Option Identity) (σ σ1 : State)
      → retrieve σ ≡ next i σ1
      → Replies i (identity_verification_start env args settings request retrieve σ)
  unfolding identity_verification_start
  identity_verification_start_iff retrieve i σ σ1 e =
      subst (Replies i) (sym (bind-next retrieve (use_identity env args settings request) e))
        (use_identity-Replies i σ1)
