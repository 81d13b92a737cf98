-- ===== src/Configuration.antt =====
-- internal/configuration: the validators. Each takes a part of the configuration and gives it back
-- with its defaults, and the errors that it pushes to the `StructValidator`, in their order.
pub mod Regulation
pub mod Session
pub mod Password
pub mod Ldap
pub mod AccessControl
use ldap_totp_nginx_auth.Prelude.{
  if◌then◌else◌, Text, List, [], ◌∷◌, ◌++◌, ◌==◌, Bool, true, false, ◌≡◌, refl, ℤ, ltb_ℤ, not, ◌&&◌,
  All,
}

-- `if bad { validator.Push(e) }`.
abbrev pub check {ℓ} : {E : Type ℓ} → Bool → E → List E
check true e = e ∷ []
check false e = []

-- `if s == "" { s = default }`.
unfoldable pub defaulted : Text → Text → Text
defaulted s default = if s == [] then default else s

-- `a == b` on `int`.
unfoldable pub int_eq : ℤ → ℤ → Bool
int_eq a b = not (ltb_ℤ a b) && not (ltb_ℤ b a)

pub check-eq-nil {ℓ} : {E : Type ℓ} (b : Bool) (e : E) → check b e ≡ [] → b ≡ false
check-eq-nil true e h = absurd (cc h)
check-eq-nil false e h = refl

-- No errors in all means none in each part.
pub append-eq-nil {ℓ} : {E : Type ℓ} (xs ys : List E) → (xs ++ ys) ≡ [] → (xs ≡ []) × (ys ≡ [])
append-eq-nil [] ys h = (refl, h)
append-eq-nil (x ∷ xs) ys h = absurd (cc h)

-- `for _, x := range xs { if bad(x) { validator.Push(e) } }`.
unfoldable pub each {ℓ κ} : {A : Type ℓ} {E : Type κ} → (A → Bool) → E → List A → List E
each bad e [] = []
each bad e (x ∷ xs) = check (bad x) e ++ each bad e xs

module _ {ℓ κ} {A : Type ℓ} {E : Type κ} (bad : A → Bool) (e : E) where
  pub each-eq-nil : (xs : List A) → each bad e xs ≡ [] → All (λ x. bad x ≡ false) xs
  unfolding each
  each-eq-nil [] h = tt
  each-eq-nil (x ∷ xs) h =
      let (first, rest) = append-eq-nil (check (bad x) e) (each bad e xs) h in
      (check-eq-nil (bad x) e first, each-eq-nil xs rest)
