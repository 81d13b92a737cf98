-- ===== src/Handlers/Sessions.antt =====
-- The sessions that the handlers save, over all of them: a level that a session claims has been
-- earned by the calls before it.
pub mod FirstFactor
pub mod SecondFactor
pub mod Replies
pub mod Keeping
pub mod Tokens
pub mod Mails
pub mod MailReplies
pub mod Identification
pub mod Verify
pub mod U2fSign
use ldap_totp_nginx_auth.Prelude.{
  Text, List, [], ◌∷◌, Bool, true, Option, some, none, Result, ok, ◌≡◌, ◌⊎◌, lit,
}
use ldap_totp_nginx_auth.Authentication
use ldap_totp_nginx_auth.Authentication.{UserDetails}
use ldap_totp_nginx_auth.Session.{U2fRegistration, UserSession}
use ldap_totp_nginx_auth.Middlewares.{Call, Trace, Env, State, Outcome, next, returned, panicked}
use ldap_totp_nginx_auth.Middlewares.Context.{session_or_default}

-- A call of the trace for which `P` holds, with the trace before it.
pub data Happened (P : Call → Trace → Type 0) : Trace → Type 0 where
  at_last : {c : Call} {t : Trace} → P c t → Happened P (c ∷ t)
  earlier : {c : Call} {t : Trace} → Happened P t → Happened P (c ∷ t)

module _ (env : Env) where
  abbrev pub ConfirmsPassword : Text → Text → Call → Trace → Type 0
  ConfirmsPassword username password c t =
      (c ≡ Call.check_user_password username password)
      × (env.check_user_password username password t ≡ ok true)

  -- The backend has given details with the name `name` of the user `username`.
  abbrev pub NamesUser : Text → Text → Call → Trace → Type 0
  NamesUser username name c t =
      (c ≡ Call.get_details username)
      × (details : UserDetails) × (env.get_details username t ≡ ok details)
      × (details.username ≡ name)

  abbrev pub Regenerates : Call → Trace → Type 0
  Regenerates c t = (c ≡ Call.regenerate_session) × (env.regenerate_session t ≡ true)

  -- The session store has been asked for the session, and has given this one.
  abbrev pub GivesSession : UserSession → Call → Trace → Type 0
  GivesSession s c t = (c ≡ Call.get_session) × (session_or_default (env.get_session t) ≡ s)

  -- A one-time password, a security key or Duo has accepted the user of the session.
  pub data AcceptsFactor (s : UserSession) : Call → Trace → Type 0 where
    totp :
        {token secret : Text} {t : Trace}
        → Happened
            (λ c t'.
              (c ≡ Call.load_totp_secret s.username)
              × (env.load_totp_secret s.username t' ≡ some secret))
            t
        → env.verify_totp token secret t ≡ some true
        → AcceptsFactor s (Call.verify_totp token secret) t
    u2f :
        {registration : U2fRegistration} {response challenge : Text} {t : Trace}
        → s.u2f_registration ≡ some registration
        → s.u2f_challenge ≡ some challenge
        → env.verify_u2f registration response challenge t ≡ true
        → AcceptsFactor s (Call.verify_u2f registration response challenge) t
    duo :
        {target_url : Text} {t : Trace}
        → env.call_duo s.username target_url t ≡ some (lit "allow")
        → AcceptsFactor s (Call.call_duo s.username target_url) t

  -- What has earned the level of a session that is saved after the trace.
  pub data IsEarned (s : UserSession) (t : Trace) : Type 0 where
    anonymous :
        s.username ≡ []
        → s.authentication_level ≡ Authentication.Level.not_authenticated
        → IsEarned s t
    first :
        (username password : Text)
        → s.authentication_level ≡ Authentication.Level.one_factor
        → Happened (ConfirmsPassword username password) t
        → Happened Regenerates t
        → Happened (NamesUser username s.username) t
        → IsEarned s t
    second :
        (before : UserSession)
        → s.authentication_level ≡ Authentication.Level.two_factor
        → s.username ≡ before.username
        → Happened (GivesSession before) t
        → Happened (AcceptsFactor before) t
        → Happened Regenerates t
        → IsEarned s t
    kept :
        (before : UserSession)
        → s.authentication_level ≡ before.authentication_level
        → s.username ≡ before.username
        → Happened (GivesSession before) t
        → IsEarned s t

  -- A trace on which every session that is saved has earned its level.
  abbrev pub IsLawful : Trace → Type 0
  IsLawful [] = Unit
  IsLawful (Call.save_session s ∷ t) = IsEarned s t × IsLawful t
  IsLawful (_ ∷ t) = IsLawful t

  -- Where a handler stops. A panic leaves the sessions of the trace before it.
  abbrev pub IsLawfulEnd {ℓ} : {A : Type ℓ} → Outcome A → Type 0
  IsLawfulEnd (next a s) = IsLawful s.trace
  IsLawfulEnd (returned s) = IsLawful s.trace
  IsLawfulEnd panicked = Unit
