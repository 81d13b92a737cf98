-- ===== src/Handlers/Sessions/Keeping.antt =====
-- Parts of a handler that save only sessions of a user and a level that the store has given.
use ldap_totp_nginx_auth.Prelude.{
  if◌then◌else◌, Text, Bool, true, false, Bool-cases, inl, inr, ℤ, ◌≡◌, refl,
}
use ldap_totp_nginx_auth.Session.{UserSession}
use ldap_totp_nginx_auth.Middlewares.{
  Call, Trace, Env, State, Outcome, next, returned, panicked, Handler, pure, perform, ◌>>=◌,
}
use ldap_totp_nginx_auth.Middlewares.Context.{
  session_or_default, get_session, save_session, destroy_session,
}
use ldap_totp_nginx_auth.Handlers.Profiles.{is_profile_fresh, is_zero}
use ldap_totp_nginx_auth.Handlers.Sessions.{
  Happened, at_last, earlier, GivesSession, kept, IsLawful, IsLawfulEnd,
}
use ldap_totp_nginx_auth.Handlers.Sessions.Replies.{IsSafe}

module _ (env : Env) where
  -- A part of a handler that is lawful once the store has given the session `u`.
  abbrev pub IsKeeping {ℓ} : {A : Type ℓ} → UserSession → Handler A → Type 0
  IsKeeping u m =
      (σ : State)
      → Happened (GivesSession env u) σ.trace
      → IsLawful env σ.trace
      → IsLawfulEnd env (m σ)

  pub IsKeeping-pure {ℓ} : {A : Type ℓ} (u : UserSession) (a : A) → IsKeeping u (pure a)
  IsKeeping-pure u a σ given h = h

  pub IsKeeping-if {ℓ} :
      {A : Type ℓ} (u : UserSession) (b : Bool) (m n : Handler A)
      → IsKeeping u m
      → IsKeeping u n
      → IsKeeping u (if b then m else n)
  IsKeeping-if u true m n h k = h
  IsKeeping-if u false m n h k = k

  pub IsKeeping-now {ℓ κ} :
      {A : Type ℓ} {B : Type κ} (u : UserSession) (g : Trace → A) (f : A → Handler B)
      → ((a : A) → IsKeeping u (f a))
      → IsKeeping u (perform Call.now g >>= f)
  IsKeeping-now u g f k σ given h = k (g σ.trace) _ (earlier given) h

  pub IsKeeping-get_details {ℓ κ} :
      {A : Type ℓ} {B : Type κ} (u : UserSession) (n : Text) (g : Trace → A) (f : A → Handler B)
      → ((a : A) → IsKeeping u (f a))
      → IsKeeping u (perform (Call.get_details n) g >>= f)
  IsKeeping-get_details u n g f k σ given h = k (g σ.trace) _ (earlier given) h

  pub IsKeeping-save_session :
      (u v : UserSession)
      → v.authentication_level ≡ u.authentication_level
      → v.username ≡ u.username
      → IsKeeping u (save_session env v)
  unfolding save_session
  IsKeeping-save_session u v level name σ given h = (kept u level name given, h)

  pub IsKeeping-then {ℓ κ} :
      {A : Type ℓ} {B : Type κ} (u : UserSession) (m : Handler A) (f : A → Handler B)
      → IsKeeping u m
      → ((a : A) → IsSafe env (f a))
      → IsKeeping u (m >>= f)
  IsKeeping-then {A = A} u m f h k σ given lawful = bound (m σ) (h σ given lawful)
    where
      bound :
          (o : Outcome A)
          → IsLawfulEnd env o
          → IsLawfulEnd env
              (elim o [ next a s' ↦ f a s' | returned s' ↦ returned s' | panicked ↦ panicked ])
      bound (next a s') e = k a s' e
      bound (returned s') e = e
      bound panicked e = tt

  pub get_session-IsKeeping {ℓ} :
      {A : Type ℓ} (f : UserSession → Handler A)
      → ((u : UserSession) → IsKeeping u (f u))
      → IsSafe env (get_session env >>= f)
  unfolding get_session
  get_session-IsKeeping f k σ h =
      k (session_or_default (env.get_session σ.trace)) _ (at_last (refl, refl)) h

  pub is_profile_fresh-IsKeeping {ℓ} :
      {A : Type ℓ} (interval : ℤ) (u s : UserSession) (f : Bool → Handler A)
      → ((b : Bool) → IsKeeping u (f b))
      → IsKeeping u (is_profile_fresh env interval s >>= f)
  unfolding is_profile_fresh
  is_profile_fresh-IsKeeping interval u s f k σ given h = elim (Bool-cases (is_zero interval)) [
    | inl always ↦ simp always (k false σ given h)
    | inr sometimes ↦ simp sometimes (k _ _ (earlier given) h)
  ]

  pub IsSafe-destroy_session : IsSafe env (destroy_session env)
  unfolding destroy_session
  IsSafe-destroy_session σ h = h
