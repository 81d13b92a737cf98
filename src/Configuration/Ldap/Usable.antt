-- ===== src/Configuration/Ldap/Usable.antt =====
-- What an LDAP configuration without errors is good for.
use ldap_totp_nginx_auth.Prelude.{
  Text, [], ◌==◌, ==_iff, lit, not, ◌&&◌, contains, true, false, Bool-cases, Option, inl, inr, ◌≡◌,
  ◌≢◌, arith,
}
use ldap_totp_nginx_auth.Authentication.LdapProfile.{LdapConfiguration}
use ldap_totp_nginx_auth.Configuration.{check, check-eq-nil, append-eq-nil, defaulted}
use ldap_totp_nginx_auth.Configuration.Ldap.{
  TlsConfig, LdapUrl, bad_tls_version, removed_users_placeholder, user_missing, password_missing,
  base_dn_missing, users_filter_open, no_username_attribute, no_input, is_tls_version, tls_of,
  set_default_custom, set_default_active_directory, set_defaults, placeholder_errors, is_enclosed,
  users_filter_errors, groups_filter_errors, required_errors, validate_url, validate_ldap,
}

-- The provider can look for users: it may bind, its filter of users is enclosed in parentheses and
-- asks for the name that is given, and all attributes that it reads are named.
pub record IsUsable (c : LdapConfiguration) : Type 0 where
  pub binds : (c.user ≢ []) × (c.password ≢ []) × (c.base_dn ≢ [])
  pub enclosed : is_enclosed c.users_filter ≡ true
  pub with_attribute : contains c.users_filter (lit "{username_attribute}") ≡ true
  pub with_input : contains c.users_filter (lit "{input}") ≡ true
  pub with_removed : contains c.users_filter (lit "{0}") ≡ false
  pub named :
      (c.username_attribute ≢ [])
      × (c.mail_attribute ≢ [])
      × (c.display_name_attribute ≢ [])
      × (c.group_name_attribute ≢ [])

given_lem : (s : Text) → (s == []) ≡ false → s ≢ []
given_lem s h e = absurd (cc (h, (==_iff s []).1 e))

defaulted-ne-nil : (s default : Text) → default ≢ [] → defaulted s default ≢ []
unfolding defaulted
defaulted-ne-nil s default h = elim (Bool-cases (s == [])) [
  | inl e ↦ rw e h
  | inr e ↦ rw e (given_lem s e)
]

abbrev Named : LdapConfiguration → Type 0
Named c =
    (c.username_attribute ≢ [])
    × (c.mail_attribute ≢ [])
    × (c.display_name_attribute ≢ [])
    × (c.group_name_attribute ≢ [])

set_default_custom-Named : (c : LdapConfiguration) → Named (set_default_custom c)
unfolding set_default_custom lit
set_default_custom-Named c = (
  defaulted-ne-nil c.username_attribute (lit "uid") (λ e. cc e),
  defaulted-ne-nil c.mail_attribute (lit "mail") (λ e. cc e),
  defaulted-ne-nil c.display_name_attribute (lit "displayname") (λ e. cc e),
  defaulted-ne-nil c.group_name_attribute (lit "cn") (λ e. cc e),
)

set_default_active_directory-Named :
    (c : LdapConfiguration) → Named (set_default_active_directory c)
unfolding set_default_active_directory lit
set_default_active_directory-Named c = (
  defaulted-ne-nil c.username_attribute (lit "sAMAccountName") (λ e. cc e),
  defaulted-ne-nil c.mail_attribute (lit "mail") (λ e. cc e),
  defaulted-ne-nil c.display_name_attribute (lit "displayName") (λ e. cc e),
  defaulted-ne-nil c.group_name_attribute (lit "cn") (λ e. cc e),
)

set_defaults-Named : (c : LdapConfiguration) → (set_defaults c).1 ≡ [] → Named (set_defaults c).0
unfolding set_defaults
set_defaults-Named c = elim (Bool-cases (c.implementation == lit "custom")) [
  | inl e ↦ simp e (λ h. set_default_custom-Named c)
  | inr n ↦ elim (Bool-cases (c.implementation == lit "activedirectory")) [
    | inl e ↦ simp (n, e) (λ h. set_default_active_directory-Named c)
    | inr m ↦ simp (n, m) (λ h. absurd (cc h))
  ]
]

users_filter_lem :
    (filter : Text)
    → contains filter (lit "{0}") ≡ false
    → users_filter_errors filter ≡ []
    → (is_enclosed filter ≡ true)
      × (contains filter (lit "{username_attribute}") ≡ true)
      × (contains filter (lit "{input}") ≡ true)
unfolding users_filter_errors
users_filter_lem filter kept = elim (Bool-cases (filter == [])) [
  | inl e ↦ rw e (λ h. absurd (cc h))
  | inr e ↦ rw e (λ h.
      let (open', rest) = append-eq-nil (check (not (is_enclosed filter)) users_filter_open) _ h in
      let (attribute, input) =
        append-eq-nil
          (check (not (contains filter (lit "{username_attribute}"))) no_username_attribute) _
          rest in
      let a = check-eq-nil (not (is_enclosed filter)) users_filter_open open' in
      let b =
        check-eq-nil (not (contains filter (lit "{username_attribute}"))) no_username_attribute
          attribute in
      let c =
        check-eq-nil (not (contains filter (lit "{0}")) && not (contains filter (lit "{input}")))
          no_input input in
      (ground arith, ground arith, ground arith))
]

required_errors-IsUsable :
    (c : LdapConfiguration)
    → Named c
    → placeholder_errors c ≡ []
    → required_errors c ≡ []
    → IsUsable c
unfolding placeholder_errors required_errors
required_errors-IsUsable c named placeholders h =
    let removed = contains c.users_filter (lit "{0}") in
    let (kept, others) = append-eq-nil (check removed removed_users_placeholder) _ placeholders in
    let no_removed = check-eq-nil removed removed_users_placeholder kept in
    let (user, h1) = append-eq-nil (check (c.user == []) user_missing) _ h in
    let (password, h2) = append-eq-nil (check (c.password == []) password_missing) _ h1 in
    let (base, h3) = append-eq-nil (check (c.base_dn == []) base_dn_missing) _ h2 in
    let (users, groups) =
      append-eq-nil (users_filter_errors c.users_filter) (groups_filter_errors c.groups_filter)
        h3 in
    let (enclosed, attribute, input) = users_filter_lem c.users_filter no_removed users in
    record {
      binds = (
        given_lem c.user (check-eq-nil (c.user == []) user_missing user),
        given_lem c.password (check-eq-nil (c.password == []) password_missing password),
        given_lem c.base_dn (check-eq-nil (c.base_dn == []) base_dn_missing base),
      );
      enclosed = enclosed;
      with_attribute = attribute;
      with_input = input;
      with_removed = no_removed;
      named = named;
    }

module _ (parse_url : Text → Option LdapUrl) where
  with_url-IsUsable :
      (c : LdapConfiguration) (url : Text) → IsUsable c → IsUsable (record c { url = url })
  with_url-IsUsable c url u = record {
    binds = u.binds;
    enclosed = u.enclosed;
    with_attribute = u.with_attribute;
    with_input = u.with_input;
    with_removed = u.with_removed;
    named = u.named;
  }

  validate_url-IsUsable :
      (c : LdapConfiguration) (tls : TlsConfig)
      → IsUsable c
      → IsUsable (validate_url parse_url c tls).0.0
  unfolding validate_url
  validate_url-IsUsable c tls u = elim (Bool-cases (c.url == [])) [
    | inl e ↦ simp e u
    | inr e ↦ simp e (with_url-IsUsable c _ u)
  ]

  -- An LDAP configuration in which the validator finds no error, with its defaults, has a user, a
  -- password and a base DN, names all attributes, and has a filter of users in parentheses that
  -- holds the placeholders for the attribute and the input and not the removed one.
  pub validate_ldap-IsUsable :
      (c : LdapConfiguration) (given : Option TlsConfig)
      → (validate_ldap parse_url c given).1 ≡ []
      → IsUsable (validate_ldap parse_url c given).0.0
  unfolding validate_ldap
  validate_ldap-IsUsable c given h =
      let tls = tls_of given in
      let set = record c { implementation = defaulted c.implementation (lit "custom") } in
      let c' = (set_defaults set).0 in
      let (version, h1) =
        append-eq-nil (check (not (is_tls_version tls.minimum_version)) bad_tls_version) _ h in
      let (known, h2) = append-eq-nil (set_defaults set).1 _ h1 in
      let (placeholders, h3) = append-eq-nil (placeholder_errors c') _ h2 in
      let (url, required) =
        append-eq-nil (validate_url parse_url c' tls).1 (required_errors c') h3 in
      validate_url-IsUsable c' tls
        (required_errors-IsUsable c' (set_defaults-Named set known) placeholders required)
