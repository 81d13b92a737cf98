-- ===== src/Authentication/LdapProvider.antt =====
-- ldap_user_provider.go: the users of a directory.
pub mod Escaping
pub mod Binding
pub mod Checking
use ldap_totp_nginx_auth.Prelude.{
  if◌then◌else◌, Text, List, [], ◌∷◌, ◌++◌, ◌==◌, lit, not, replace_all, Bool, true, false, none,
  Result, ok, err, ℕ,
}
use ldap_totp_nginx_auth.Utils.Strings.{is_string_in_slice}
use ldap_totp_nginx_auth.Authentication.{UserDetails}
use ldap_totp_nginx_auth.Prelude.Actions.{◌>>=◌, give, ask, some_or, done_or}
use ldap_totp_nginx_auth.Authentication.Directory.{
  Entry, SearchRequest, dial, start_tls, close, bind, search, replace, password_modify, Directory,
  LdapError, no_connection, no_tls, not_bound, search_failed, not_found, multiple_users, no_dn,
  groups_failed, authentication_failed, update_failed, deferring, relabelled, Attribute, LdapAction,
}
use ldap_totp_nginx_auth.Authentication.LdapProfile.{
  LdapConfiguration, LdapUserProfile, read_attributes,
}

pub record LdapUserProvider : Type 0 where
  pub configuration : LdapConfiguration
  pub users_base_dn : Text
  pub groups_base_dn : Text
  pub support_extension_passwd_modify : Bool

-- `specialLDAPRunes`.
abbrev pub special_ldap_runes : Text
special_ldap_runes = lit ",#+<>;\"="

unfoldable pub escape_runes : Text → Text → Text
escape_runes [] s = s
escape_runes (c ∷ cs) s = escape_runes cs (replace_all s (c ∷ []) (b'\\' ∷ c ∷ []))

-- `parseDynamicConfiguration`.
unfoldable pub users_filter_of : LdapConfiguration → Text
users_filter_of c =
    replace_all
      (replace_all (replace_all c.users_filter (lit "{username_attribute}") c.username_attribute)
        (lit "{mail_attribute}") c.mail_attribute)
      (lit "{display_name_attribute}") c.display_name_attribute

unfoldable pub parse_dynamic_configuration : Directory → LdapConfiguration → LdapUserProvider
parse_dynamic_configuration dir c = record {
  configuration = record c { users_filter = users_filter_of c };
  users_base_dn =
      if not (c.additional_users_dn == [])
      then c.additional_users_dn ++ (lit "," ++ c.base_dn)
      else c.base_dn;
  groups_base_dn =
      if not (c.additional_groups_dn == [])
      then dir.escape_filter (c.additional_groups_dn ++ (lit "," ++ c.base_dn))
      else c.base_dn;
  support_extension_passwd_modify = false;
}

module _ (dir : Directory) where
  unfoldable pub ldap_escape : Text → Text
  ldap_escape input_username = escape_runes special_ldap_runes (dir.escape_filter input_username)

  unfoldable pub resolve_users_filter : Text → Text → Text
  resolve_users_filter user_filter input_username =
      replace_all user_filter (lit "{input}") (ldap_escape input_username)

  module _ (p : LdapUserProvider) where
    unfoldable pub bind_user : Text → Text → ℕ → LdapAction ℕ
    bind_user user_dn password conn =
        ask (bind conn user_dn password) (λ t. done_or not_bound (dir.bind conn user_dn password t))
        >>= λ bound. give (ok conn)

    unfoldable pub secure : ℕ → LdapAction (Unit {0})
    secure conn =
        if p.configuration.start_tls
        then ask (start_tls conn) (λ t. done_or no_tls (dir.start_tls conn t))
        else give (ok tt)

    -- `connect`, which leaves a connection open where it fails later on.
    unfoldable pub connect : Text → Text → LdapAction ℕ
    connect user_dn password =
        ask (dial p.configuration.url) (λ t. some_or no_connection (dir.dial p.configuration.url t))
        >>= λ conn. secure conn >>= λ secured. bind_user user_dn password conn

    unfoldable pub connect_as_configured : LdapAction ℕ
    connect_as_configured = connect p.configuration.user p.configuration.password

    -- The request of `getUserProfile`.
    unfoldable pub user_request : Text → SearchRequest
    user_request input_username = record {
      base_dn = p.users_base_dn;
      whole_subtree = true;
      size_limit = 1;
      filter = resolve_users_filter p.configuration.users_filter input_username;
      attributes =
          lit "dn"
          ∷ p.configuration.display_name_attribute
          ∷ p.configuration.mail_attribute
          ∷ p.configuration.username_attribute
          ∷ [];
    }

    unfoldable pub with_dn : Result LdapError LdapUserProfile → Result LdapError LdapUserProfile
    with_dn (err e) = err e
    with_dn (ok profile) = if profile.dn == [] then err no_dn else ok profile

    unfoldable pub use_entries : List Entry → Result LdapError LdapUserProfile
    use_entries [] = err not_found
    use_entries (entry ∷ []) = with_dn (
        read_attributes p.configuration entry.attributes
          (ok (record { dn = entry.dn; emails = none; display_name = []; username = [] })))
    use_entries (entry ∷ entry' ∷ entries) = err multiple_users

    unfoldable pub get_user_profile : ℕ → Text → LdapAction LdapUserProfile
    get_user_profile conn input_username =
        let request = user_request input_username in
        ask (search conn request) (λ t. some_or search_failed (dir.search conn request t))
        >>= λ entries. give (use_entries entries)

    -- `CheckUserPassword`: the password is right where the user can bind with it.
    unfoldable pub bind_profile : Text → LdapUserProfile → LdapAction Bool
    bind_profile password profile =
        relabelled authentication_failed (connect profile.dn password) >>= λ user_conn.
        deferring user_conn (give (ok true))

    unfoldable pub check_with : Text → Text → ℕ → LdapAction Bool
    check_with input_username password conn =
        deferring conn (get_user_profile conn input_username >>= bind_profile password)

    unfoldable pub check_user_password : Text → Text → LdapAction Bool
    check_user_password input_username password =
        connect_as_configured >>= check_with input_username password

    unfoldable pub resolve_groups_filter : Text → LdapUserProfile → Text
    resolve_groups_filter input_username profile =
        let filter =
          replace_all p.configuration.groups_filter (lit "{input}") (ldap_escape input_username) in
        replace_all (replace_all filter (lit "{username}") (dir.escape_filter profile.username))
          (lit "{dn}") (dir.escape_filter profile.dn)

    -- The loop over the groups, which stops at an entry without attributes.
    unfoldable pub groups_of : List Entry → List Text
    groups_of [] = []
    groups_of (res ∷ entries) =
        let later = groups_of entries in
        elim res.attributes [ [] ↦ [] | attr ∷ attributes ↦ attr.values ++ later ]

    unfoldable pub group_request : Text → LdapUserProfile → SearchRequest
    group_request input_username profile = record {
      base_dn = p.groups_base_dn;
      whole_subtree = true;
      size_limit = 0;
      filter = resolve_groups_filter input_username profile;
      attributes = p.configuration.group_name_attribute ∷ [];
    }

    unfoldable pub details_of : LdapUserProfile → List Entry → UserDetails
    details_of profile entries = record {
      username = profile.username;
      display_name = profile.display_name;
      emails = profile.emails;
      groups = groups_of entries;
    }

    unfoldable pub find_groups : Text → ℕ → LdapUserProfile → LdapAction UserDetails
    find_groups input_username conn profile =
        let request = group_request input_username profile in
        ask (search conn request) (λ t. some_or groups_failed (dir.search conn request t))
        >>= λ entries. give (ok (details_of profile entries))

    unfoldable pub details_with : Text → ℕ → LdapAction UserDetails
    details_with input_username conn =
        deferring conn (get_user_profile conn input_username >>= find_groups input_username conn)

    unfoldable pub get_details : Text → LdapAction UserDetails
    get_details input_username = connect_as_configured >>= details_with input_username

    -- The three ways to change a password.
    unfoldable pub modify : Text → ℕ → LdapUserProfile → LdapAction (Unit {0})
    modify new_password conn profile =
        let quoted = dir.utf16 (lit "\"" ++ (new_password ++ lit "\"")) in
        if p.support_extension_passwd_modify
        then ask (password_modify conn profile.dn new_password)
            (λ t. done_or update_failed (dir.password_modify conn profile.dn new_password t))
        else if p.configuration.implementation == lit "activedirectory"
        then ask (replace conn profile.dn (lit "unicodePwd") quoted)
            (λ t. done_or update_failed (dir.replace conn profile.dn (lit "unicodePwd") quoted t))
        else ask (replace conn profile.dn (lit "userPassword") new_password) (λ t.
          done_or update_failed (dir.replace conn profile.dn (lit "userPassword") new_password t))

    unfoldable pub update_with : Text → Text → ℕ → LdapAction (Unit {0})
    update_with input_username new_password conn = deferring conn (
        relabelled update_failed (get_user_profile conn input_username)
        >>= modify new_password conn)

    unfoldable pub update_password : Text → Text → LdapAction (Unit {0})
    update_password input_username new_password =
        relabelled update_failed connect_as_configured >>= update_with input_username new_password

    -- `checkServer`: whether the server knows the extension, false where it does not say.
    unfoldable pub supports : List Attribute → Bool
    supports [] = false
    supports (attr ∷ attributes) =
        let later = supports attributes in
        if attr.name == lit "supportedExtension"
        then is_string_in_slice (lit "1.3.6.1.4.1.4203.1.11.1") attr.values
        else later

    unfoldable pub with_support : List Entry → LdapUserProvider
    with_support (entry ∷ []) = record p {
      support_extension_passwd_modify =
          if supports entry.attributes then true else p.support_extension_passwd_modify;
    }
    with_support _ = p

    unfoldable pub check_server : LdapAction LdapUserProvider
    check_server =
        let request : SearchRequest = record {
          base_dn = [];
          whole_subtree = false;
          size_limit = 1;
          filter = lit "(objectClass=*)";
          attributes = lit "supportedExtension" ∷ [];
        } in
        connect_as_configured >>= λ conn.
        ask (search conn request) (λ t. some_or search_failed (dir.search conn request t))
        >>= λ entries. give (ok (with_support entries))

  -- `NewLDAPUserProvider`.
  unfoldable pub new_ldap_user_provider : LdapConfiguration → LdapAction LdapUserProvider
  new_ldap_user_provider c = check_server (parse_dynamic_configuration dir c)
