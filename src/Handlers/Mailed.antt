-- ===== src/Handlers/Mailed.antt =====
-- Who is mailed a link: the user of the session for a device, the named user for a new password.
use ldap_totp_nginx_auth.Prelude.{
  Text, List, [], ◌∷◌, Option, none, some, ok, ◌≡◌, refl, sym, arith,
}
use ldap_totp_nginx_auth.Authentication.{UserDetails}
use ldap_totp_nginx_auth.Session.{UserSession}
use ldap_totp_nginx_auth.Middlewares.{Request, Call, Trace, Env, State}
use ldap_totp_nginx_auth.Middlewares.Context.{get_session}
use ldap_totp_nginx_auth.Middlewares.IdentityVerification.{
  Identity, first_email, identity_verification_start,
}
use ldap_totp_nginx_auth.Handlers.{Configuration}
use ldap_totp_nginx_auth.Handlers.Registration.{
  identity_of_session, identity_retriever_from_session, totp_args, u2f_args,
  second_factor_totp_identity_start, second_factor_u2f_identity_start,
}
use ldap_totp_nginx_auth.Handlers.Sessions.{Happened, at_last, earlier, GivesSession}
use ldap_totp_nginx_auth.Handlers.Sessions.Tokens.{EndsIn}
use ldap_totp_nginx_auth.Handlers.Sessions.Mails.{IsMailed, use_identity-EndsIn}

first_email_lem :
    (username : Text) (emails : Option (List Text)) {i : Identity}
    → first_email username emails ≡ some i
    → (i.username ≡ username) × (others : List Text) × (emails ≡ some (i.email ∷ others))
unfolding first_email
first_email_lem username none e = absurd (cc e)
first_email_lem username (some []) e = absurd (cc e)
first_email_lem username (some (email ∷ others)) e = (ground arith, others, ground arith)

module _ (env : Env) where
  -- The store has given a session of the user whose first address this is.
  abbrev pub IsOfSession : Identity → Trace → Type 0
  IsOfSession i t =
      (s : UserSession) × (others : List Text) × (s.username ≡ i.username)
      × (s.emails ≡ some (i.email ∷ others))
      × Happened (GivesSession env s) t

  -- The backend has given details of the user whose first address this is.
  abbrev pub IsOfBackend : Identity → Trace → Type 0
  IsOfBackend i t =
      (details : UserDetails) × (others : List Text) × (details.emails ≡ some (i.email ∷ others))
      × Happened
          (λ c t'. (c ≡ Call.get_details i.username) × (env.get_details i.username t' ≡ ok details))
          t

  IsOfSession-later :
      (i : Identity) (c : Call) (t : Trace) → IsOfSession i t → IsOfSession i (c ∷ t)
  IsOfSession-later i c t (s, others, named, first, given) =
      (s, others, named, first, earlier given)

  session_identity :
      (s : UserSession) (t : Trace) (i : Identity)
      → first_email s.username s.emails ≡ some i
      → Happened (GivesSession env s) t
      → IsOfSession i t
  session_identity s t i e given =
      let (named, others, first) = first_email_lem s.username s.emails e in
      (s, others, sym named, first, given)

  -- The request to register a mobile keeps it true that every mail goes to the first address of a
  -- session that the store has given, and that its text is made of a link with a token that is
  -- signed for the user of that session and this action and that the storage has saved.
  pub second_factor_totp_identity_start-IsMailed :
      (c : Configuration) (request : Request) (σ : State)
      → IsMailed env (totp_args env) c.mail_settings request IsOfSession σ.trace
      → EndsIn
          (IsMailed env (totp_args env) c.mail_settings request IsOfSession)
          (second_factor_totp_identity_start env c request σ)
  unfolding second_factor_totp_identity_start identity_verification_start
      identity_retriever_from_session identity_of_session get_session
  second_factor_totp_identity_start-IsMailed c request σ h =
      use_identity-EndsIn env _ c.mail_settings request IsOfSession IsOfSession-later _ _
        (λ i e. session_identity _ _ i e (at_last (refl, refl))) h

  -- The request to register a security key, like that of a mobile.
  pub second_factor_u2f_identity_start-IsMailed :
      (c : Configuration) (request : Request) (σ : State)
      → IsMailed env (u2f_args env) c.mail_settings request IsOfSession σ.trace
      → EndsIn
          (IsMailed env (u2f_args env) c.mail_settings request IsOfSession)
          (second_factor_u2f_identity_start env c request σ)
  unfolding second_factor_u2f_identity_start identity_verification_start
      identity_retriever_from_session identity_of_session get_session
  second_factor_u2f_identity_start-IsMailed c request σ h =
      use_identity-EndsIn env _ c.mail_settings request IsOfSession IsOfSession-later _ _
        (λ i e. session_identity _ _ i e (at_last (refl, refl))) h
