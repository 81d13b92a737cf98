-- ===== src/Authentication.antt =====
-- internal/authentication: levels (const.go) and what a backend says of a user (types.go). The
-- levels of the source are the integers 0, 1 and 2, and are compared as such.
pub mod Hash
pub mod FileProvider
pub mod Directory
pub mod LdapProfile
pub mod LdapProvider
use ldap_totp_nginx_auth.Prelude.{Text, List, Option, ℕ, Bool, leb}

pub data Level : Type 0 where
  not_authenticated one_factor two_factor : Level

abbrev pub rank : Level → ℕ
rank not_authenticated = 0
rank one_factor = 1
rank two_factor = 2

-- `a >= b`.
abbrev pub at_least : Level → Level → Bool
at_least a b = leb (rank b) (rank a)

-- `emails` is `none` where the slice of the source is nil.
pub record UserDetails : Type 0 where
  pub username : Text
  pub display_name : Text
  pub emails : Option (List Text)
  pub groups : List Text
