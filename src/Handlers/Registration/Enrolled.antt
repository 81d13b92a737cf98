-- ===== src/Handlers/Registration/Enrolled.antt =====
-- Whose devices are registered: those of the user of the session, who has redeemed a token for it.
use ldap_totp_nginx_auth.Prelude.{
  Text, [], ◌∷◌, ==_iff, lit, Bool, true, false, Option, none, some, Result, ok, err, ◌≡◌, ◌≢◌,
  refl,
}
use ldap_totp_nginx_auth.Session.{U2fRegistration, UserSession}
use ldap_totp_nginx_auth.Middlewares.{Request, TotpKey, Call, Trace, Env, State, ◌>>=◌, ◌>>◌}
use ldap_totp_nginx_auth.Middlewares.Context.{
  HeaderError, error_reply, reply_ok, set_json_body, get_session, save_session, session_or_default,
}
use ldap_totp_nginx_auth.Middlewares.IdentityVerification.{is_token_user_valid}
use ldap_totp_nginx_auth.Handlers.{Configuration}
use ldap_totp_nginx_auth.Handlers.Registration.{
  has_username, is_token_user_valid_for_2fa_registration, reply_key, save_key, generate_key,
  second_factor_totp_identity_finish, request_registration, keep_challenge, store_challenge,
  challenge_for, new_registration, second_factor_u2f_identity_finish, reply_registered, save_device,
  clear_challenge, ignore_failure, answer_challenge, register_device, report_unparsed,
  second_factor_u2f_register,
}
use ldap_totp_nginx_auth.Handlers.Sessions.{Happened, at_last, earlier, GivesSession}
use ldap_totp_nginx_auth.Handlers.Sessions.Tokens.{
  IsRedeemed, IsRedeemed-earlier, IsTokenCall, find, parse, remove, same, more, EndsIn, Checks,
  identity_verification_finish_rule,
}

module _ (env : Env) where
  -- The store has given a session of the user.
  abbrev pub IsUser : Text → Trace → Type 0
  IsUser username t = (s : UserSession) × (s.username ≡ username) × Happened (GivesSession env s) t

  IsUser-later : (u : Text) (c : Call) (t : Trace) → IsUser u t → IsUser u (c ∷ t)
  IsUser-later u c t (s, named, given) = (s, named, earlier given)

  -- A user of the session has redeemed a token for the action.
  abbrev pub MayRegister : Text → Text → Trace → Type 0
  MayRegister action username t = IsRedeemed env action username t × IsUser username t

  -- The response answers the challenge of a session of the user that the store has given.
  pub data IsAnswered (username : Text) (registration : U2fRegistration) (t : Trace) : Type 0 where
    answered :
        (s : UserSession) (response challenge : Text)
        → s.username ≡ username
        → s.u2f_challenge ≡ some challenge
        → Happened (GivesSession env s) t
        → env.register_u2f response challenge ≡ some registration
        → IsAnswered username registration t

  -- A saved session has no challenge, or is one that the store has given, with a challenge, after a
  -- token for the registration of a key.
  pub data IsChallenged (s : UserSession) (t : Trace) : Type 0 where
    unchallenged : s.u2f_challenge ≡ none → IsChallenged s t
    invited :
        (username : Text) (before : UserSession)
        → MayRegister (lit "RegisterU2FDevice") username t
        → Happened (GivesSession env before) t
        → s ≡ record before { u2f_challenge = s.u2f_challenge }
        → IsChallenged s t

  abbrev pub IsEnrolled : Trace → Type 0
  IsEnrolled [] = Unit
  IsEnrolled (Call.save_totp_secret username secret ∷ t) =
      MayRegister (lit "RegisterTOTPDevice") username t × IsEnrolled t
  IsEnrolled (Call.save_u2f_device_handle username registration ∷ t) =
      IsAnswered username registration t × IsEnrolled t
  IsEnrolled (Call.save_session s ∷ t) = IsChallenged s t × IsEnrolled t
  IsEnrolled (_ ∷ t) = IsEnrolled t

  IsEnrolled-token : (c : Call) (t : Trace) → IsTokenCall c → IsEnrolled t → IsEnrolled (c ∷ t)
  IsEnrolled-token _ t (find token) h = h
  IsEnrolled-token _ t (parse token) h = h
  IsEnrolled-token _ t (remove token) h = h

  IsUser-checked :
      (username : Text) (σ : State)
      → IsEnrolled σ.trace
      → Checks IsEnrolled IsUser username σ.trace
          (is_token_user_valid (some (is_token_user_valid_for_2fa_registration env)) username σ)
  unfolding is_token_user_valid is_token_user_valid_for_2fa_registration has_username get_session
  IsUser-checked username σ h =
      (h, more same, λ e. (_, (==_iff _ username).0 e, at_last (refl, refl)))

  reply_key-EndsIn :
      (key : TotpKey) (saved : Bool) (σ : State)
      → IsEnrolled σ.trace
      → EndsIn IsEnrolled (reply_key env key saved σ)
  unfolding reply_key error_reply set_json_body
  reply_key-EndsIn key true σ h = h
  reply_key-EndsIn key false σ h = h

  save_key-EndsIn :
      (username : Text) (key : Option TotpKey) (σ : State)
      → MayRegister (lit "RegisterTOTPDevice") username σ.trace
      → IsEnrolled σ.trace
      → EndsIn IsEnrolled (save_key env username key σ)
  unfolding save_key error_reply
  save_key-EndsIn username none σ may h = h
  save_key-EndsIn username (some key) σ may h = reply_key-EndsIn key _ _ (may, h)

  generate_key-EndsIn :
      (c : Configuration) (username : Text) (σ : State)
      → IsRedeemed env (lit "RegisterTOTPDevice") username σ.trace
      → IsUser username σ.trace
      → IsEnrolled σ.trace
      → EndsIn IsEnrolled (generate_key env c username σ)
  unfolding generate_key
  generate_key-EndsIn c username σ r user h =
      save_key-EndsIn username _ _ (IsRedeemed-earlier env r, IsUser-later username _ _ user) h

  -- The registration of a mobile keeps it true that a secret is saved only for a user who has
  -- redeemed a token for this action and of whom the store has given a session, that a security
  -- key is saved only for the user of a session whose challenge its response answers, and that a
  -- session is saved without a challenge, or is one that the store has given, with a challenge,
  -- after some user of whom the store has given a session has redeemed a token for a security key.
  pub second_factor_totp_identity_finish-IsEnrolled :
      (c : Configuration) (body : Option Text) (σ : State)
      → IsEnrolled σ.trace
      → EndsIn IsEnrolled (second_factor_totp_identity_finish env c body σ)
  unfolding second_factor_totp_identity_finish
  second_factor_totp_identity_finish-IsEnrolled c body σ h =
      identity_verification_finish_rule env (lit "RegisterTOTPDevice")
        (some (is_token_user_valid_for_2fa_registration env)) (generate_key env c) IsEnrolled IsUser
        IsEnrolled-token IsUser-later IsUser-checked (generate_key-EndsIn c) body σ h

  request_registration-EndsIn :
      (challenge : Text) (saved : Bool) (σ : State)
      → IsEnrolled σ.trace
      → EndsIn IsEnrolled (request_registration env challenge saved σ)
  unfolding request_registration error_reply set_json_body
  request_registration-EndsIn challenge true σ h = h
  request_registration-EndsIn challenge false σ h = h

  store_challenge-EndsIn :
      (challenge : Option Text) (username : Text) (σ : State)
      → MayRegister (lit "RegisterU2FDevice") username σ.trace
      → IsEnrolled σ.trace
      → EndsIn IsEnrolled (store_challenge env challenge σ)
  unfolding store_challenge keep_challenge error_reply get_session save_session
  store_challenge-EndsIn none username σ may h = h
  store_challenge-EndsIn (some challenge) username σ (r, user) h =
      request_registration-EndsIn challenge _ _ (
        invited username _ (IsRedeemed-earlier env r, IsUser-later username _ _ user)
            (at_last (refl, refl)) refl,
        h,
      )

  challenge_for-EndsIn :
      (app_id : Result HeaderError Text) (username : Text) (σ : State)
      → MayRegister (lit "RegisterU2FDevice") username σ.trace
      → IsEnrolled σ.trace
      → EndsIn IsEnrolled (challenge_for env app_id σ)
  unfolding challenge_for error_reply
  challenge_for-EndsIn (err e) username σ may h = h
  challenge_for-EndsIn (ok app_id) username σ (r, user) h =
      store_challenge-EndsIn _ username _ (IsRedeemed-earlier env r, IsUser-later username _ _ user)
        h

  -- The challenge for a new security key keeps it true, in the sense of the theorem on the
  -- registration of a mobile, that secrets, keys and challenges are saved only where they may be.
  pub second_factor_u2f_identity_finish-IsEnrolled :
      (request : Request) (body : Option Text) (σ : State)
      → IsEnrolled σ.trace
      → EndsIn IsEnrolled (second_factor_u2f_identity_finish env request body σ)
  unfolding second_factor_u2f_identity_finish new_registration
  second_factor_u2f_identity_finish-IsEnrolled request body σ h =
      identity_verification_finish_rule env (lit "RegisterU2FDevice")
        (some (is_token_user_valid_for_2fa_registration env)) (new_registration env request)
        IsEnrolled IsUser IsEnrolled-token IsUser-later IsUser-checked
        (λ username τ r user k. challenge_for-EndsIn _ username τ (r, user) k) body σ h

  reply_registered-EndsIn :
      (s : UserSession) (saved : Bool) (σ : State)
      → IsEnrolled σ.trace
      → EndsIn IsEnrolled
          ((reply_registered env saved >> (clear_challenge env s >>= ignore_failure env)) σ)
  unfolding reply_registered error_reply reply_ok clear_challenge save_session ignore_failure
  reply_registered-EndsIn s true σ h = (unchallenged refl, h)
  reply_registered-EndsIn s false σ h = (unchallenged refl, h)

  save_device-EndsIn :
      (response challenge : Text) (s : UserSession) (registration : Option U2fRegistration)
      (σ : State)
      → env.register_u2f response challenge ≡ registration
      → s.u2f_challenge ≡ some challenge
      → Happened (GivesSession env s) σ.trace
      → IsEnrolled σ.trace
      → EndsIn IsEnrolled
          ((save_device env s registration >> (clear_challenge env s >>= ignore_failure env)) σ)
  unfolding save_device error_reply clear_challenge save_session ignore_failure
  save_device-EndsIn response challenge s none σ answer e given h = (unchallenged refl, h)
  save_device-EndsIn response challenge s (some registration) σ answer e given h =
      reply_registered-EndsIn s _ _ (answered s response challenge refl e given answer, h)

  answer_challenge-EndsIn :
      (response : Text) (s : UserSession) (challenge : Option Text) (σ : State)
      → s.u2f_challenge ≡ challenge
      → Happened (GivesSession env s) σ.trace
      → IsEnrolled σ.trace
      → EndsIn IsEnrolled (answer_challenge env response s challenge σ)
  unfolding answer_challenge error_reply
  answer_challenge-EndsIn response s none σ e given h = h
  answer_challenge-EndsIn response s (some challenge) σ e given h =
      save_device-EndsIn response challenge s _ σ refl e given h

  register_stored_device-EndsIn :
      (response : Text) (σ : State)
      → IsEnrolled σ.trace
      → EndsIn IsEnrolled ((get_session env >>= register_device env response) σ)
  unfolding register_device get_session
  register_stored_device-EndsIn response σ h =
      answer_challenge-EndsIn response _ _ _ refl (at_last (refl, refl)) h

  -- The last call saves the session `s` without its challenge.
  abbrev pub IsCleared : UserSession → Trace → Type 0
  IsCleared s [] = ⊥
  IsCleared s (c ∷ t) = c ≡ Call.save_session (record s { u2f_challenge = none })

  clear_challenge-IsCleared :
      (s : UserSession) (σ : State)
      → EndsIn (IsCleared s) ((clear_challenge env s >>= ignore_failure env) σ)
  unfolding clear_challenge save_session ignore_failure
  clear_challenge-IsCleared s σ = refl

  reply_registered-IsCleared :
      (s : UserSession) (saved : Bool) (σ : State)
      → EndsIn
          (IsCleared s)
          ((reply_registered env saved >> (clear_challenge env s >>= ignore_failure env)) σ)
  unfolding reply_registered error_reply reply_ok
  reply_registered-IsCleared s true σ = clear_challenge-IsCleared s _
  reply_registered-IsCleared s false σ = clear_challenge-IsCleared s _

  save_device-IsCleared :
      (s : UserSession) (registration : Option U2fRegistration) (σ : State)
      → EndsIn
          (IsCleared s)
          ((save_device env s registration >> (clear_challenge env s >>= ignore_failure env)) σ)
  unfolding save_device error_reply
  save_device-IsCleared s none σ = clear_challenge-IsCleared s _
  save_device-IsCleared s (some registration) σ = reply_registered-IsCleared s _ _

  answer_challenge-IsCleared :
      (response : Text) (s : UserSession) (challenge : Option Text) (σ : State)
      → challenge ≢ none
      → EndsIn (IsCleared s) (answer_challenge env response s challenge σ)
  unfolding answer_challenge
  answer_challenge-IsCleared response s none σ asked = absurd (asked refl)
  answer_challenge-IsCleared response s (some challenge) σ asked = save_device-IsCleared s _ σ

  -- The registration of a security key keeps it true, in the sense of the theorem on the
  -- registration of a mobile, that secrets, keys and challenges are saved only where they may be,
  -- also where the body does not parse; and where the session that the store gives has a
  -- challenge, the last call saves it without.
  pub second_factor_u2f_register-IsEnrolled :
      (parsed : Bool) (response : Text) (σ : State)
      → IsEnrolled σ.trace
      → let s = session_or_default (env.get_session σ.trace) in
        EndsIn IsEnrolled (second_factor_u2f_register env parsed response σ)
        × (s.u2f_challenge ≢ none
            → EndsIn (IsCleared s) (second_factor_u2f_register env parsed response σ))
  unfolding second_factor_u2f_register report_unparsed error_reply register_device get_session
  second_factor_u2f_register-IsEnrolled true response σ h =
      (register_stored_device-EndsIn response σ h, answer_challenge-IsCleared response _ _ _)
  second_factor_u2f_register-IsEnrolled false response σ h =
      (register_stored_device-EndsIn response _ h, answer_challenge-IsCleared response _ _ _)
