-- ===== src/Handlers/Sessions/Tokens.antt =====
-- Redeeming a token: what is known once the next step of the identity verification begins.
use ldap_totp_nginx_auth.Prelude.{
  Text, [], ◌∷◌, ◌==◌, ==_iff, Bool, true, false, Bool-cases, inl, inr, Option, none, some, Result,
  ok, err, ◌≡◌, refl, sym, ap, ◌∙◌,
}
use ldap_totp_nginx_auth.Middlewares.{
  IdentityVerificationClaim, TokenError, Call, Trace, Env, State, Outcome, next, returned, panicked,
  Handler,
}
use ldap_totp_nginx_auth.Middlewares.Context.{error_reply}
use ldap_totp_nginx_auth.Middlewares.IdentityVerification.{
  is_token_user_valid, after_removal, remove_valid, use_claims, use_found, find_token,
  identity_verification_finish,
}
use ldap_totp_nginx_auth.Handlers.Sessions.{Happened, at_last, earlier}

module _ (env : Env) where
  abbrev pub FindsToken : Text → Call → Trace → Type 0
  FindsToken token c t =
      (c ≡ Call.find_identity_verification_token token)
      × (env.find_identity_verification_token token t ≡ some true)

  -- The token verifies, for the action and the user.
  abbrev pub NamesUserFor : Text → Text → Text → Call → Trace → Type 0
  NamesUserFor action token username c t =
      (c ≡ Call.parse_token token)
      × (env.parse_token token t ≡ ok (record { action = action; username = username }))

  abbrev pub RemovesToken : Text → Call → Trace → Type 0
  RemovesToken token c t =
      (c ≡ Call.remove_identity_verification_token token)
      × (env.remove_identity_verification_token token t ≡ true)

  -- A token for the action and the user was found in the storage, verified and removed.
  pub data IsRedeemed (action username : Text) (t : Trace) : Type 0 where
    redeemed :
        (token : Text)
        → Happened (FindsToken token) t
        → Happened (NamesUserFor action token username) t
        → Happened (RemovesToken token) t
        → IsRedeemed action username t

  pub IsRedeemed-earlier :
      {action username : Text} {c : Call} {t : Trace}
      → IsRedeemed action username t
      → IsRedeemed action username (c ∷ t)
  IsRedeemed-earlier (redeemed token found named removed) =
      redeemed token (earlier found) (earlier named) (earlier removed)

-- The calls of the end of the identity verification.
pub data IsTokenCall : Call → Type 0 where
  find : (token : Text) → IsTokenCall (Call.find_identity_verification_token token)
  parse : (token : Text) → IsTokenCall (Call.parse_token token)
  remove : (token : Text) → IsTokenCall (Call.remove_identity_verification_token token)

-- A trace that goes on from another.
pub data Extends (t : Trace) : Trace → Type 0 where
  same : Extends t t
  more : {c : Call} {u : Trace} → Extends t u → Extends t (c ∷ u)

pub Happened-Extends :
    (P : Call → Trace → Type 0) {t u : Trace} → Happened P t → Extends t u → Happened P u
Happened-Extends P h same = h
Happened-Extends P h (more e) = earlier (Happened-Extends P h e)

-- What holds of the trace where a handler stops.
abbrev pub EndsIn {ℓ} : {A : Type ℓ} → (Trace → Type 0) → Outcome A → Type 0
EndsIn I (next a s) = I s.trace
EndsIn I (returned s) = I s.trace
EndsIn I panicked = Unit

-- A test of a token's user goes on, keeps `I`, and is passed only by a user with `V`.
abbrev pub Checks :
    (Trace → Type 0) → (Text → Trace → Type 0) → Text → Trace → Outcome Bool → Type 0
Checks I V username t (next b s) = I s.trace × Extends t s.trace × (b ≡ true → V username s.trace)
Checks I V username t (returned s) = ⊥
Checks I V username t panicked = ⊥

module _ (env : Env) (action : Text) (user_valid : Option (Text → Handler Bool))
    (then' : Text → Handler (Unit {0})) (I : Trace → Type 0) (V : Text → Trace → Type 0)
    (kept : (c : Call) (t : Trace) → IsTokenCall c → I t → I (c ∷ t))
    (later : (username : Text) (c : Call) (t : Trace) → V username t → V username (c ∷ t))
    (checked : (username : Text) (σ : State)
      → I σ.trace
      → Checks I V username σ.trace (is_token_user_valid user_valid username σ))
    (finished : (username : Text) (σ : State)
      → IsRedeemed env action username σ.trace
      → V username σ.trace
      → I σ.trace
      → EndsIn I (then' username σ)) where
  after_removal_lem :
      (token username : Text) (done : Bool) (σ : State)
      → done ≡ env.remove_identity_verification_token token σ.trace
      → Happened (FindsToken env token) σ.trace
      → Happened (NamesUserFor env action token username) σ.trace
      → V username σ.trace
      → I σ.trace
      → EndsIn I (
          after_removal env action user_valid then' username done
            (record σ { trace = Call.remove_identity_verification_token token ∷ σ.trace }))
  unfolding after_removal error_reply
  after_removal_lem token username false σ answered found named valid h =
      kept _ _ (IsTokenCall.remove token) h
  after_removal_lem token username true σ answered found named valid h =
      finished username _
        (redeemed token (earlier found) (earlier named) (at_last (refl, sym answered)))
        (later username _ _ valid) (kept _ _ (IsTokenCall.remove token) h)

  remove_valid_lem :
      (token username : Text) (t : Trace) (o : Outcome Bool)
      → Checks I V username t o
      → Happened (FindsToken env token) t
      → Happened (NamesUserFor env action token username) t
      → EndsIn I (elim o [
        | next b s ↦ remove_valid env action user_valid then' token username b s
        | returned s ↦ returned s
        | panicked ↦ panicked
      ])
  unfolding remove_valid error_reply
  remove_valid_lem token username t (next false s) (h, e, valid) found named = h
  remove_valid_lem token username t (next true s) (h, e, valid) found named =
      after_removal_lem token username _ s refl (Happened-Extends (FindsToken env token) found e)
        (Happened-Extends (NamesUserFor env action token username) named e) (valid refl) h
  remove_valid_lem token username t (returned s) h found named = absurd h
  remove_valid_lem token username t panicked h found named = absurd h

  use_claims_lem :
      (token : Text) (answer : Result TokenError IdentityVerificationClaim) (σ : State)
      → answer ≡ env.parse_token token σ.trace
      → Happened (FindsToken env token) σ.trace
      → I σ.trace
      → EndsIn I (
          use_claims env action user_valid then' token answer
            (record σ { trace = Call.parse_token token ∷ σ.trace }))
  unfolding use_claims error_reply
  use_claims_lem token (err e) σ answered found h = kept _ _ (parse token) h
  use_claims_lem token (ok claims) σ answered found h =
      elim (Bool-cases (claims.action == action)) [
        | inl fits ↦
            let e = (==_iff claims.action action).0 fits in
            simp fits (
              remove_valid_lem token claims.username _ _
                (checked claims.username _ (kept _ _ (parse token) h)) (earlier found)
                (at_last (refl, sym answered ∙ ap (λ a. ok (record claims { action = a })) e)))
        | inr other ↦ simp other (kept _ _ (parse token) h)
      ]

  use_found_lem :
      (token : Text) (answer : Option Bool) (σ : State)
      → answer ≡ env.find_identity_verification_token token σ.trace
      → I σ.trace
      → EndsIn I (
          use_found env action user_valid then' token answer
            (record σ { trace = Call.find_identity_verification_token token ∷ σ.trace }))
  unfolding use_found error_reply
  use_found_lem token none σ answered h = kept _ _ (find token) h
  use_found_lem token (some false) σ answered h = kept _ _ (find token) h
  use_found_lem token (some true) σ answered h =
      use_claims_lem token _ _ refl (at_last (refl, sym answered)) (kept _ _ (find token) h)

  -- A property of traces that the calls of the verification, the test of the user and the next
  -- step keep is kept by the whole, where the next step begins with a redeemed token.
  pub identity_verification_finish_rule :
      (body : Option Text) (σ : State)
      → I σ.trace
      → EndsIn I (identity_verification_finish env action user_valid then' body σ)
  unfolding identity_verification_finish find_token error_reply
  identity_verification_finish_rule none σ h = h
  identity_verification_finish_rule (some token) σ h = elim (Bool-cases (token == [])) [
    | inl missing ↦ simp missing h
    | inr given ↦ simp given (use_found_lem token _ σ refl h)
  ]
