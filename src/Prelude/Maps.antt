-- ===== src/Prelude/Maps.antt =====
-- Go maps keyed by strings: the writes, the latest first, each hiding the earlier ones of its key.
use mathlib.Core.Path.{◌≡◌, refl}
use mathlib.Core.Option.{Option, none, some}
use mathlib.Core.List.{List, [], ◌∷◌}
use ldap_totp_nginx_auth.Prelude.Tests.{if◌then◌else◌}
use ldap_totp_nginx_auth.Prelude.Bytes.{Text, ◌==◌}

module _ {ℓ} {V : Type ℓ} where
  unfoldable pub lookup : Text → List (Text × V) → Option V
  lookup key [] = none
  lookup key (write ∷ older) =
      let hidden = lookup key older in if write.0 == key then some write.1 else hidden

  unfoldable pub insert : Text → V → List (Text × V) → List (Text × V)
  insert key value writes = (key, value) ∷ writes

  pub lookup-insert :
      (key k : Text) (value : V) (writes : List (Text × V))
      → lookup k (insert key value writes) ≡ (if key == k then some value else lookup k writes)
  unfolding lookup insert
  lookup-insert key k value writes = refl
