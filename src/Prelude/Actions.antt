-- ===== src/Prelude/Actions.antt =====
-- Calls of an outside system in turn, with errors: the calls so far, the latest first, go along.
use mathlib.Core.Path.{◌≡◌, refl}
use mathlib.Core.Bool.{Bool, true, false}
use mathlib.Core.Option.{Option, none, some}
use mathlib.Core.List.{List, ◌∷◌}
use ldap_totp_nginx_auth.Prelude.Errors.{Result, ok, err}

abbrev pub Action {ℓ κ ι} : Type ℓ → Type κ → Type ι → Type (ℓ ⊔ κ ⊔ ι)
Action C E A = List C → Result E A × List C

module _ {ℓ κ} {C : Type ℓ} {E : Type κ} where
  abbrev pub proceed {ι υ} :
      {A : Type ι} {B : Type υ} → (A → Action C E B) → Result E A × List C → Result E B × List C
  proceed f (ok a, t) = f a t
  proceed f (err e, t) = (err e, t)

  infixl 5 ◌>>=◌
  abbrev pub ◌>>=◌ {ι υ} :
      {A : Type ι} {B : Type υ} → Action C E A → (A → Action C E B) → Action C E B
  ◌>>=◌ m f t = proceed f (m t)

  abbrev pub give {ι} : {A : Type ι} → Result E A → Action C E A
  give r t = (r, t)

  -- A call, and what is made of its answer.
  abbrev pub ask {ι} : {A : Type ι} → C → (List C → Result E A) → Action C E A
  ask call answer t = (answer t, call ∷ t)

  -- A sequence that succeeds has succeeded in both its parts.
  pub proceed-eq-ok {ι υ} :
      {A : Type ι} {B : Type υ} (f : A → Action C E B) (r : Result E A × List C) {b : B}
      {t : List C}
      → proceed f r ≡ (ok b, t)
      → (a : A) × (t' : List C) × (r ≡ (ok a, t')) × (f a t' ≡ (ok b, t))
  proceed-eq-ok f (ok a, t') h = (a, t', refl, h)
  proceed-eq-ok f (err e, t') h = absurd (cc h)

module _ {κ} {E : Type κ} where
  abbrev pub some_or {ι} : {A : Type ι} → E → Option A → Result E A
  some_or e none = err e
  some_or e (some a) = ok a

  abbrev pub done_or : E → Bool → Result E (Unit {0})
  done_or e false = err e
  done_or e true = ok tt

  pub some_or-eq-ok {ι} :
      {A : Type ι} (e : E) (found : Option A) {a : A} → some_or e found ≡ ok a → found ≡ some a
  some_or-eq-ok e none h = absurd (cc h)
  some_or-eq-ok e (some a) h = cc h

  pub done_or-eq-ok : (e : E) (done : Bool) {u : Unit {0}} → done_or e done ≡ ok u → done ≡ true
  done_or-eq-ok e false h = absurd (cc h)
  done_or-eq-ok e true h = refl
