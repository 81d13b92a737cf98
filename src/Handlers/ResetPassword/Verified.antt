-- ===== src/Handlers/ResetPassword/Verified.antt =====
-- Who may reset a password: the user of a token that was found, verified and removed.
use ldap_totp_nginx_auth.Prelude.{
  Text, [], ◌∷◌, lit, ◌||◌, Bool, true, false, Bool-cases, inl, inr, Option, none, some, Result, ok,
  err, ◌≡◌, refl,
}
use ldap_totp_nginx_auth.Utils.Strings.{is_string_in_slice_contains}
use ldap_totp_nginx_auth.Session.{UserSession}
use ldap_totp_nginx_auth.Middlewares.{Call, Trace, Env, State, Outcome}
use ldap_totp_nginx_auth.Middlewares.Context.{error_reply, reply_ok, get_session, save_session}
use ldap_totp_nginx_auth.Middlewares.IdentityVerification.{is_token_user_valid}
use ldap_totp_nginx_auth.Handlers.ResetPassword.{
  allow_reset, finish_reset, reset_password_identity_finish, ldap_password_complexity_codes,
  ldap_password_complexity_errors, reply_reset, use_updated, update_password, reset_password_post,
}
use ldap_totp_nginx_auth.Handlers.Sessions.{Happened, at_last, GivesSession}
use ldap_totp_nginx_auth.Handlers.Sessions.Tokens.{
  IsRedeemed, IsRedeemed-earlier, IsTokenCall, find, parse, remove, same, EndsIn,
  identity_verification_finish_rule,
}

module _ (env : Env) where
  -- Why a session may allow a reset, or not.
  pub data IsAllowed (s : UserSession) (t : Trace) : Type 0 where
    cleared : s.password_reset_username ≡ none → IsAllowed s t
    verified :
        (username : Text)
        → s.password_reset_username ≡ some username
        → IsRedeemed env (lit "ResetPassword") username t
        → IsAllowed s t

  -- A session that the store has given allows the reset of the password of the user.
  abbrev pub AllowsReset : Text → Trace → Type 0
  AllowsReset username t =
      (s : UserSession) × (s.password_reset_username ≡ some username)
      × Happened (GivesSession env s) t

  abbrev pub IsVerified : Trace → Type 0
  IsVerified [] = Unit
  IsVerified (Call.save_session s ∷ t) = IsAllowed s t × IsVerified t
  IsVerified (Call.update_password username password ∷ t) = AllowsReset username t × IsVerified t
  IsVerified (_ ∷ t) = IsVerified t

  abbrev pub IsVerifiedEnd {ℓ} : {A : Type ℓ} → Outcome A → Type 0
  IsVerifiedEnd = EndsIn IsVerified

  IsVerified-token : (c : Call) (t : Trace) → IsTokenCall c → IsVerified t → IsVerified (c ∷ t)
  IsVerified-token _ t (find token) h = h
  IsVerified-token _ t (parse token) h = h
  IsVerified-token _ t (remove token) h = h

  finish_reset_lem :
      (username : Text) (s : State)
      → IsRedeemed env (lit "ResetPassword") username s.trace
      → Unit {0}
      → IsVerified s.trace
      → EndsIn IsVerified (finish_reset env username s)
  unfolding finish_reset allow_reset get_session save_session reply_ok
  finish_reset_lem username s r valid h = (verified username refl (IsRedeemed-earlier env r), h)

  -- The end of the identity verification keeps it true that every saved session either allows no
  -- reset of a password, or allows it for the user of a token that was found in the storage,
  -- verified for this action, and removed, and that passwords are updated only for the user of a
  -- session that the store has given and that allows it.
  pub reset_password_identity_finish-IsVerified :
      (body : Option Text) (s : State)
      → IsVerified s.trace
      → IsVerifiedEnd (reset_password_identity_finish env body s)
  unfolding reset_password_identity_finish is_token_user_valid
  reset_password_identity_finish-IsVerified body s h =
      identity_verification_finish_rule env (lit "ResetPassword") none (finish_reset env) IsVerified
        (λ u t. Unit) IsVerified-token (λ u c t valid. tt) (λ u σ k. (k, same, λ e. tt))
        finish_reset_lem body s h

  reply_reset_lem :
      (done : Bool) (s : State) → IsVerified s.trace → IsVerifiedEnd (reply_reset env done s)
  unfolding reply_reset error_reply reply_ok
  reply_reset_lem true s h = h
  reply_reset_lem false s h = h

  use_updated_lem :
      (u : UserSession) (answer : Result Text (Unit {0})) (s : State)
      → IsVerified s.trace
      → IsVerifiedEnd (use_updated env u answer s)
  unfolding use_updated save_session error_reply
  use_updated_lem u (ok done) s h = reply_reset_lem _ _ (cleared refl, h)
  use_updated_lem u (err e) s h =
      elim (Bool-cases (
        is_string_in_slice_contains e (ldap_password_complexity_codes env)
        || is_string_in_slice_contains e (ldap_password_complexity_errors env))) [
          | inl complex ↦ simp complex h
          | inr other ↦ simp other h
        ]

  update_password_lem :
      (u : UserSession) (name body : Option Text) (s : State)
      → u.password_reset_username ≡ name
      → Happened (GivesSession env u) s.trace
      → IsVerified s.trace
      → IsVerifiedEnd (update_password env u name body s)
  unfolding update_password error_reply
  update_password_lem u none body s named given h = h
  update_password_lem u (some name) none s named given h = h
  update_password_lem u (some name) (some password) s named given h =
      use_updated_lem u _ _ ((u, named, given), h)

  -- The reset of a password keeps it true, in the sense of the theorem on the end of the identity
  -- verification, that sessions allow only verified resets and that passwords are updated only
  -- where a session allows it.
  pub reset_password_post-IsVerified :
      (body : Option Text) (s : State)
      → IsVerified s.trace
      → IsVerifiedEnd (reset_password_post env body s)
  unfolding reset_password_post get_session
  reset_password_post-IsVerified body s h =
      update_password_lem _ _ body _ refl (at_last (refl, refl)) h
