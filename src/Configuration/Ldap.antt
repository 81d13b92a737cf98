-- ===== src/Configuration/Ldap.antt =====
-- The LDAP backend of validator/authentication.go, with the versions of TLS of utils/certificates.go.
-- The parser of URLs is a parameter.
pub mod Usable
use ldap_totp_nginx_auth.Prelude.{
  if◌then◌else◌, Text, List, [], ◌∷◌, ◌++◌, ◌==◌, lit, not, ◌&&◌, ◌||◌, contains, has_prefix,
  has_suffix, to_upper, Bool, true, false, Option, none, some,
}
use ldap_totp_nginx_auth.Authentication.LdapProfile.{LdapConfiguration}
use ldap_totp_nginx_auth.Configuration.{check, defaulted}

-- `schema.TLSConfig`, without the option not to verify.
pub record TlsConfig : Type 0 where
  pub minimum_version : Text
  pub server_name : Text

-- What the parser finds in a URL, with its text.
pub record LdapUrl : Type 0 where
  pub scheme : Text
  pub hostname : Text
  pub url_string : Text

pub data LdapConfigurationError : Type 0 where
  bad_tls_version bad_implementation removed_users_placeholder removed_groups_placeholder :
      LdapConfigurationError
  url_missing url_unparsed unknown_scheme user_missing password_missing base_dn_missing :
      LdapConfigurationError
  users_filter_missing users_filter_open no_username_attribute no_input groups_filter_missing :
      LdapConfigurationError
  groups_filter_open : LdapConfigurationError

-- `TLSStringToTLSConfigVersion` knows the version.
unfoldable pub is_tls_version : Text → Bool
is_tls_version input =
    let version = to_upper input in
    (version == lit "TLS1.3" || version == lit "1.3")
    || ((version == lit "TLS1.2" || version == lit "1.2")
        || ((version == lit "TLS1.1" || version == lit "1.1")
            || (version == lit "TLS1.0" || version == lit "1.0")))

-- `TLS`, with the defaults.
unfoldable pub tls_of : Option TlsConfig → TlsConfig
tls_of none = record { minimum_version = lit "TLS1.2"; server_name = [] }
tls_of (some tls) = record tls { minimum_version = defaulted tls.minimum_version (lit "TLS1.2") }

unfoldable pub set_default_custom : LdapConfiguration → LdapConfiguration
set_default_custom c = record c {
  username_attribute = defaulted c.username_attribute (lit "uid");
  group_name_attribute = defaulted c.group_name_attribute (lit "cn");
  mail_attribute = defaulted c.mail_attribute (lit "mail");
  display_name_attribute = defaulted c.display_name_attribute (lit "displayname");
}

abbrev pub active_directory_users_filter : Text
active_directory_users_filter =
    lit "(&(|({username_attribute}={input})({mail_attribute}={input}))"
    ++ (lit "(objectCategory=person)(objectClass=user)"
        ++ lit "(!userAccountControl:1.2.840.113556.1.4.803:=2)(!pwdLastSet=0))")

unfoldable pub set_default_active_directory : LdapConfiguration → LdapConfiguration
set_default_active_directory c = record c {
  users_filter = defaulted c.users_filter active_directory_users_filter;
  username_attribute = defaulted c.username_attribute (lit "sAMAccountName");
  display_name_attribute = defaulted c.display_name_attribute (lit "displayName");
  mail_attribute = defaulted c.mail_attribute (lit "mail");
  groups_filter = defaulted c.groups_filter (lit "(&(member={dn})(objectClass=group))");
  group_name_attribute = defaulted c.group_name_attribute (lit "cn");
}

-- The switch on the implementation, which is set.
unfoldable pub set_defaults : LdapConfiguration → LdapConfiguration × List LdapConfigurationError
set_defaults c =
    if c.implementation == lit "custom"
    then (set_default_custom c, [])
    else if c.implementation == lit "activedirectory"
    then (set_default_active_directory c, [])
    else (c, bad_implementation ∷ [])

unfoldable pub placeholder_errors : LdapConfiguration → List LdapConfigurationError
placeholder_errors c =
    check (contains c.users_filter (lit "{0}")) removed_users_placeholder
    ++ check (contains c.groups_filter (lit "{0}") || contains c.groups_filter (lit "{1}"))
        removed_groups_placeholder

-- `validateLDAPURL`: the URL and the host.
unfoldable pub use_url : Option LdapUrl → (Text × Text) × List LdapConfigurationError
use_url none = (([], []), url_unparsed ∷ [])
use_url (some url) =
    if not (url.scheme == lit "ldap" || url.scheme == lit "ldaps")
    then (([], []), unknown_scheme ∷ [])
    else ((url.url_string, url.hostname), [])

unfoldable pub is_enclosed : Text → Bool
is_enclosed filter = has_prefix filter (lit "(") && has_suffix filter (lit ")")

unfoldable pub users_filter_errors : Text → List LdapConfigurationError
users_filter_errors filter =
    if filter == []
    then users_filter_missing ∷ []
    else check (not (is_enclosed filter)) users_filter_open
      ++ (check (not (contains filter (lit "{username_attribute}"))) no_username_attribute
          ++ check (not (contains filter (lit "{0}")) && not (contains filter (lit "{input}")))
              no_input)

unfoldable pub groups_filter_errors : Text → List LdapConfigurationError
groups_filter_errors filter =
    if filter == []
    then groups_filter_missing ∷ []
    else check (not (is_enclosed filter)) groups_filter_open

-- `validateLDAPRequiredParameters`.
unfoldable pub required_errors : LdapConfiguration → List LdapConfigurationError
required_errors c =
    check (c.user == []) user_missing
    ++ (check (c.password == []) password_missing
        ++ (check (c.base_dn == []) base_dn_missing
            ++ (users_filter_errors c.users_filter ++ groups_filter_errors c.groups_filter)))

module _ (parse_url : Text → Option LdapUrl) where
  unfoldable pub validate_url :
      LdapConfiguration → TlsConfig → (LdapConfiguration × TlsConfig) × List LdapConfigurationError
  validate_url c tls = if c.url == [] then ((c, tls), url_missing ∷ []) else (
    (
      record c { url = (use_url (parse_url c.url)).0.0 },
      record tls { server_name = defaulted tls.server_name (use_url (parse_url c.url)).0.1 },
    ),
    (use_url (parse_url c.url)).1,
  )

  -- `validateLDAPAuthenticationBackend`.
  unfoldable pub validate_ldap :
      LdapConfiguration
      → Option TlsConfig
      → (LdapConfiguration × TlsConfig) × List LdapConfigurationError
  validate_ldap c given =
      let tls = tls_of given in
      let (c', errors) =
        set_defaults (record c { implementation = defaulted c.implementation (lit "custom") }) in
      let (validated, url_errors) = validate_url c' tls in
      (
        validated,
        check (not (is_tls_version tls.minimum_version)) bad_tls_version
            ++ (errors ++ (placeholder_errors c' ++ (url_errors ++ required_errors c'))),
      )
