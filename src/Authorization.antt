-- ===== src/Authorization.antt =====
-- internal/authorization: who may access what. types.go, const.go and the two level functions of
-- util.go stand here; the children have the rules and the way a configuration becomes rules.
pub mod Rules
pub mod Config
pub mod Matching
pub mod Domains
pub mod Decisions
pub mod Parsing
pub mod Alike
pub mod Networks
use ldap_totp_nginx_auth.Prelude.{
  Text, List, [], ◌++◌, ◌==◌, lit, Bool, true, false, ◌&&◌, ℕ, is_empty, if◌then◌else◌,
}
use ldap_totp_nginx_auth.Authentication

-- `Level` of const.go.
pub data Level : Type 0 where
  bypass one_factor two_factor denied : Level

-- An address is its bytes, and a nil `net.IP` has none.
pub record Subject : Type 0 where
  pub username : Text
  pub groups : List Text
  pub ip : List ℕ

pub record Object : Type 0 where
  pub scheme : Text
  pub domain : Text
  pub path : Text
  pub method : Text

-- The parts of a `url.URL` that the program reads; `hostname` is the result of `Hostname()`.
pub record Url : Type 0 where
  pub scheme : Text
  pub hostname : Text
  pub path : Text
  pub raw_query : Text

unfoldable pub is_anonymous : Subject → Bool
is_anonymous s = s.username == [] && is_empty s.groups

unfoldable pub new_object : Url → Text → Object
new_object target_url method = record {
  scheme = target_url.scheme;
  domain = target_url.hostname;
  path =
      if target_url.raw_query == []
      then target_url.path
      else target_url.path ++ (lit "?" ++ target_url.raw_query);
  method = method;
}

-- `PolicyToLevel`: what is no policy counts as `deny`.
unfoldable pub policy_to_level : Text → Level
policy_to_level policy =
    if policy == lit "bypass"
    then bypass
    else if policy == lit "one_factor"
    then one_factor
    else if policy == lit "two_factor"
    then two_factor
    else denied

unfoldable pub is_auth_level_sufficient : Authentication.Level → Level → Bool
is_auth_level_sufficient level denied = false
is_auth_level_sufficient level one_factor =
    Authentication.at_least level Authentication.Level.one_factor
is_auth_level_sufficient level two_factor =
    Authentication.at_least level Authentication.Level.two_factor
is_auth_level_sufficient level bypass = true
