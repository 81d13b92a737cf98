-- ===== src/Middlewares/Frames.antt =====
-- Rules for parts of a handler: those that always go on and leave the response as it was, and what
-- a part gives the parts after it.
use ldap_totp_nginx_auth.Prelude.{if◌then◌else◌, Bool, true, false, ◌≡◌, refl, ap, ◌∙◌, subst}
use ldap_totp_nginx_auth.Middlewares.{
  Call, Trace, State, Outcome, next, returned, panicked, Handler, ◌>>=◌, pure, perform,
}

abbrev pub IsQuietOutcome {ℓ} : {A : Type ℓ} → State → Outcome A → Type 0
IsQuietOutcome s (next a s') = s'.response ≡ s.response
IsQuietOutcome s (returned s') = ⊥
IsQuietOutcome s panicked = ⊥

abbrev pub IsQuiet {ℓ} : {A : Type ℓ} → Handler A → Type 0
IsQuiet m = (s : State) → IsQuietOutcome s (m s)

pub IsQuiet-pure {ℓ} : {A : Type ℓ} (a : A) → IsQuiet (pure a)
IsQuiet-pure a s = refl

pub IsQuiet-perform {ℓ} : {A : Type ℓ} (c : Call) (f : Trace → A) → IsQuiet (perform c f)
IsQuiet-perform c f s = refl

IsQuiet-elim {ℓ κ} :
    {A : Type ℓ} {B : Type κ} (s : State) (o : Outcome A) (f : A → Handler B)
    → IsQuietOutcome s o
    → ((a : A) → IsQuiet (f a))
    → IsQuietOutcome s
        (elim o [ next a s' ↦ f a s' | returned s' ↦ returned s' | panicked ↦ panicked ])
IsQuiet-elim {B = B} s (next a s') f h k = follow (f a s') (k a s')
  where
    follow : (o : Outcome B) → IsQuietOutcome s' o → IsQuietOutcome s o
    follow (next b s'') e = e ∙ h
    follow (returned s'') e = e
    follow panicked e = e
IsQuiet-elim s (returned s') f h k = h
IsQuiet-elim s panicked f h k = h

pub IsQuiet-bind {ℓ κ} :
    {A : Type ℓ} {B : Type κ} (m : Handler A) (f : A → Handler B)
    → IsQuiet m
    → ((a : A) → IsQuiet (f a))
    → IsQuiet (m >>= f)
IsQuiet-bind m f h k s = IsQuiet-elim s (m s) f (h s) k

pub IsQuiet-if {ℓ} :
    {A : Type ℓ} (b : Bool) (m n : Handler A) → IsQuiet m → IsQuiet n → IsQuiet (if b then m else n)
IsQuiet-if true m n h k = h
IsQuiet-if false m n h k = k

pub ruleset quiet = (IsQuiet-pure, IsQuiet-perform, IsQuiet-bind, IsQuiet-if)

pub IsQuiet-response {ℓ} :
    {A : Type ℓ} (m : Handler A) {s s' : State} {a : A}
    → IsQuiet m
    → m s ≡ next a s'
    → s'.response ≡ s.response
IsQuiet-response m {s} h e = subst (IsQuietOutcome s) e (h s)

-- What a sequence of two parts did, where it goes on.
pub bind-eq-next {ℓ κ} :
    {A : Type ℓ} {B : Type κ} (m : Handler A) (f : A → Handler B) (s : State) {b : B} {s' : State}
    → (m >>= f) s ≡ next b s'
    → (a : A) × (s1 : State) × (m s ≡ next a s1) × (f a s1 ≡ next b s')
bind-eq-next {A = A} {B = B} m f s {b} {s'} = inverted (m s)
  where
    inverted :
        (o : Outcome A)
        → elim o [ next a s1 ↦ f a s1 | returned s1 ↦ returned s1 | panicked ↦ panicked ]
          ≡ next b s'
        → (a : A) × (s1 : State) × (o ≡ next a s1) × (f a s1 ≡ next b s')
    inverted (next a s1) e = (a, s1, refl, e)
    inverted (returned s1) e = absurd (cc e)
    inverted panicked e = absurd (cc e)

-- What holds of every value that a part of a handler goes on with.
abbrev pub IsGivenBy {ℓ κ} : {A : Type ℓ} → (A → Type κ) → Outcome A → Type κ
IsGivenBy P (next a s) = P a
IsGivenBy P (returned s) = Unit
IsGivenBy P panicked = Unit

abbrev pub IsGiving {ℓ κ} : {A : Type ℓ} → (A → Type κ) → Handler A → Type κ
IsGiving P m = (s : State) → IsGivenBy P (m s)

pub IsGiving-pure {ℓ κ} : {A : Type ℓ} (P : A → Type κ) (a : A) → P a → IsGiving P (pure a)
IsGiving-pure P a h s = h

pub IsGiving-bind {ℓ κ ι ν} :
    {A : Type ℓ} {B : Type κ} (Q : A → Type ι) (P : B → Type ν) (m : Handler A) (f : A → Handler B)
    → IsGiving Q m
    → ((a : A) → Q a → IsGiving P (f a))
    → IsGiving P (m >>= f)
IsGiving-bind {A = A} Q P m f h k s = bound (m s) (h s)
  where
    bound :
        (o : Outcome A)
        → IsGivenBy Q o
        → IsGivenBy P
            (elim o [ next a s' ↦ f a s' | returned s' ↦ returned s' | panicked ↦ panicked ])
    bound (next a s') q = k a q s'
    bound (returned s') q = tt
    bound panicked q = tt

pub IsGiving-if {ℓ κ} :
    {A : Type ℓ} (P : A → Type κ) (b : Bool) (m n : Handler A)
    → (b ≡ true → IsGiving P m)
    → (b ≡ false → IsGiving P n)
    → IsGiving P (if b then m else n)
IsGiving-if P true m n h k = h refl
IsGiving-if P false m n h k = k refl

-- Where the result of the first part does not matter.
pub IsGiving-after {ℓ κ ν} :
    {A : Type ℓ} {B : Type κ} (P : B → Type ν) (m : Handler A) (f : A → Handler B)
    → ((a : A) → IsGiving P (f a))
    → IsGiving P (m >>= f)
IsGiving-after {A = A} P m f k = IsGiving-bind (λ _. Unit {0}) P m f (λ s. given (m s)) (λ a _. k a)
  where
    given : (o : Outcome A) → IsGivenBy (λ _. Unit {0}) o
    given (next a s) = tt
    given (returned s) = tt
    given panicked = tt

pub bind-next {ℓ κ} :
    {A : Type ℓ} {B : Type κ} (m : Handler A) (f : A → Handler B) {s s' : State} {a : A}
    → m s ≡ next a s'
    → (m >>= f) s ≡ f a s'
bind-next {A = A} {B = B} m f e =
    ap
      (λ (o : Outcome A). elim o [
        | next a s' ↦ f a s'
        | returned s' ↦ returned s'
        | panicked ↦ panicked
      ])
      e
