-- ===== src/Authentication/Directory.antt =====
-- ldap_connection_factory.go: the connections to a directory. It answers each call by a function of
-- the calls before it; the escaping of filters and UTF-16 are those of the libraries.
use ldap_totp_nginx_auth.Prelude.Actions.{Action}
use ldap_totp_nginx_auth.Prelude.{◌≡◌, sym, ap, Text, List, ◌∷◌, Bool, Option, Result, ok, err, ℕ}

pub record Attribute : Type 0 where
  pub name : Text
  pub values : List Text

pub record Entry : Type 0 where
  pub dn : Text
  pub attributes : List Attribute

-- `ldap.SearchRequest`: of one object or the whole tree below it, with a limit, 0 for none.
pub record SearchRequest : Type 0 where
  pub base_dn : Text
  pub whole_subtree : Bool
  pub size_limit : ℕ
  pub filter : Text
  pub attributes : List Text

-- The calls of a connection, which has a number.
pub data LdapCall : Type 0 where
  dial : Text → LdapCall
  start_tls close : ℕ → LdapCall
  bind : ℕ → Text → Text → LdapCall
  search : ℕ → SearchRequest → LdapCall
  replace : ℕ → Text → Text → Text → LdapCall
  password_modify : ℕ → Text → Text → LdapCall

abbrev pub LdapTrace : Type 0
LdapTrace = List LdapCall

-- How the directory answers; `none` and `false` are errors.
pub record Directory : Type 0 where
  pub dial : Text → LdapTrace → Option ℕ
  pub start_tls : ℕ → LdapTrace → Bool
  pub bind : ℕ → Text → Text → LdapTrace → Bool
  pub search : ℕ → SearchRequest → LdapTrace → Option (List Entry)
  pub replace : ℕ → Text → Text → Text → LdapTrace → Bool
  pub password_modify : ℕ → Text → Text → LdapTrace → Bool
  pub escape_filter : Text → Text
  pub utf16 : Text → Text

-- `panics` is the index of the first value of an attribute that has none.
pub data LdapError : Type 0 where
  no_connection no_tls not_bound search_failed not_found multiple_users : LdapError
  multiple_usernames no_dn groups_failed authentication_failed update_failed panics : LdapError

abbrev pub LdapAction : Type 0 → Type 0
LdapAction = Action LdapCall LdapError

-- `defer conn.Close()`.
abbrev pub deferring : {A : Type 0} → ℕ → LdapAction A → LdapAction A
deferring conn m t = ((m t).0, close conn ∷ (m t).1)

-- Another message in place of an error.
abbrev pub relabel_error : LdapError → LdapError → LdapError
relabel_error e panics = panics
relabel_error e _ = e

abbrev pub relabel :
    {A : Type 0} → LdapError → Result LdapError A × LdapTrace → Result LdapError A × LdapTrace
relabel e (ok a, t) = (ok a, t)
relabel e (err e', t) = (err (relabel_error e e'), t)

abbrev pub relabelled : {A : Type 0} → LdapError → LdapAction A → LdapAction A
relabelled e m t = relabel e (m t)

pub deferring-eq-ok :
    {A : Type 0} (conn : ℕ) (m : LdapAction A) (t : LdapTrace) {a : A} {t' : LdapTrace}
    → deferring conn m t ≡ (ok a, t')
    → (t'' : LdapTrace) × (m t ≡ (ok a, t'')) × (t' ≡ close conn ∷ t'')
deferring-eq-ok conn m t h = ((m t).1, ap (λ x. (x.0, (m t).1)) h, sym (ap (λ x. x.1) h))

pub relabel-eq-ok :
    {A : Type 0} (e : LdapError) (r : Result LdapError A × LdapTrace) {a : A} {t : LdapTrace}
    → relabel e r ≡ (ok a, t)
    → r ≡ (ok a, t)
relabel-eq-ok e (ok a, t') h = h
relabel-eq-ok e (err e', t') h = absurd (cc h)
