-- ===== src/Handlers/Identification/Inactivity.antt =====
-- A session that has been left alone for too long identifies nobody.
use ldap_totp_nginx_auth.Prelude.{
  if◌then◌else◌, [], ◌==◌, ==_iff, ◌∷◌, Bool, true, false, ℤ, ◌-ℤ◌, ◌<ℤ◌, ltb_ℤ, ◌≡◌, ◌≢◌, refl, ap,
  ◌∙◌, arith, Bool-cases, inl, inr,
}
use ldap_totp_nginx_auth.Session.{UserSession, unix}
use ldap_totp_nginx_auth.Middlewares.{Call, Env, State, next}
use ldap_totp_nginx_auth.Middlewares.Context.{session_or_default, get_session, destroy_session}
use ldap_totp_nginx_auth.Middlewares.Frames.{bind-next}
use ldap_totp_nginx_auth.Handlers.Profiles.{whole_seconds, is_zero}
use ldap_totp_nginx_auth.Handlers.Identification.{
  Auth, has_user_been_inactive_too_long, expire_session, check_profile, verify_session_cookie,
}

module _ (env : Env) (inactivity : ℤ) where
  -- The trace of a look at the clock after the session was read.
  abbrev looked : State → State
  looked s = record s { trace = Call.now ∷ Call.get_session ∷ s.trace }

  has_user_been_inactive_too_long-next :
      (s : State)
      → is_zero (whole_seconds inactivity) ≡ false
      → whole_seconds inactivity
        <ℤ unix (env.now (Call.get_session ∷ s.trace))
          -ℤ (session_or_default (env.get_session s.trace)).last_activity
      → has_user_been_inactive_too_long env inactivity s ≡ next true (looked s)
  unfolding has_user_been_inactive_too_long get_session
  has_user_been_inactive_too_long-next s limited long =
      let now = unix (env.now (Call.get_session ∷ s.trace)) in
      let idle : ltb_ℤ (whole_seconds inactivity)
            (now -ℤ (session_or_default (env.get_session s.trace)).last_activity)
          ≡ true =
        ground arith in
      simp limited (ap (λ b. next b (looked s)) idle)

  expire_session-failed :
      (u : UserSession) (s : State)
      → (auth : Auth) × (expire_session env u s
          ≡ next auth (record s { trace = Call.destroy_session ∷ s.trace }))
        × (auth.failed ≡ true)
  unfolding expire_session destroy_session
  expire_session-failed u s = elim (Bool-cases (env.destroy_session s.trace)) [
    | inl done ↦ (_, refl, simp done refl)
    | inr kept ↦ (_, refl, simp kept refl)
  ]

  -- A session of a named user that is not to be kept, and whose last activity lies back further
  -- than the limit of inactivity, which is not 0, is destroyed and identifies nobody.
  pub verify_session_cookie_inactive :
      (refresh : Bool) (interval : ℤ) (u : UserSession) (s : State)
      → u.keep_me_logged_in ≡ false
      → u.username ≢ []
      → is_zero (whole_seconds inactivity) ≡ false
      → whole_seconds inactivity
        <ℤ unix (env.now (Call.get_session ∷ s.trace))
          -ℤ (session_or_default (env.get_session s.trace)).last_activity
      → (auth : Auth) × (verify_session_cookie env inactivity refresh interval u s
          ≡ next auth (record (looked s) { trace = Call.destroy_session ∷ (looked s).trace }))
        × (auth.failed ≡ true)
  unfolding verify_session_cookie
  verify_session_cookie_inactive refresh interval u s brief named limited long =
      let named_test : (u.username == []) ≡ false = ground (arith, ==_iff u.username []) in
      let (auth, expired, failed) = expire_session-failed u (looked s) in
      let inactive = has_user_been_inactive_too_long-next s limited long in
      (
        auth,
        simp (named_test, brief)
            (bind-next (has_user_been_inactive_too_long env inactivity)
                (λ inactive.
                  if inactive then expire_session env u else check_profile env refresh interval u)
                inactive
              ∙ expired),
        failed,
      )
