-- ===== src/Tests/Directories.antt =====
-- A directory with one user, who may bind and whose password may be changed.
use ldap_totp_nginx_auth.Prelude.{Text, [], ◌∷◌, lit, texts, All, true, false, some, ok, ◌≡◌, refl}
use ldap_totp_nginx_auth.Authentication.Directory.{
  Entry, LdapTrace, Directory, close, bind, dial, search, replace,
}
use ldap_totp_nginx_auth.Authentication.LdapProfile.{
  first_value, only_value, read_display_name, read_emails, read_username, read_emails_and_username,
  read_attributes,
}
use ldap_totp_nginx_auth.Authentication.LdapProvider.{
  LdapUserProvider, special_ldap_runes, ldap_escape, bind_user, secure, connect,
  connect_as_configured, user_request, with_dn, use_entries, get_user_profile, bind_profile,
  check_with, check_user_password, modify, update_with, update_password,
}
use ldap_totp_nginx_auth.Authentication.LdapProvider.Escaping.{
  IsPlain, IsGuarded, ldap_escape-IsGuarded,
}
use ldap_totp_nginx_auth.Authentication.LdapProvider.Checking.{
  IsBound, IsUpdated, check_user_password-IsBound, update_password-IsUpdated,
}

abbrev entry_of_john : Entry
entry_of_john = record {
  dn = lit "uid=john,dc=example";
  attributes =
      record { name = lit "displayName"; values = lit "John" ∷ [] }
      ∷ record { name = lit "uid"; values = lit "john" ∷ [] }
      ∷ [];
}

abbrev one_user : Directory
one_user = record {
  dial = λ url t. elim t [ [] ↦ some 1 | _ ∷ _ ↦ some 2 ];
  start_tls = λ conn t. true;
  bind = λ conn dn password t. true;
  search = λ conn request t. some (entry_of_john ∷ []);
  replace = λ conn dn attribute value t. true;
  password_modify = λ conn dn password t. true;
  escape_filter = λ s. s;
  utf16 = λ s. s;
}

abbrev url_of_directory : Text
url_of_directory = lit "ldaps://directory"

abbrev users_of_directory : LdapUserProvider
users_of_directory = record {
  configuration = record {
    implementation = lit "custom";
    url = url_of_directory;
    base_dn = lit "dc=example";
    additional_users_dn = [];
    users_filter = lit "(uid={input})";
    additional_groups_dn = [];
    groups_filter = lit "(member={dn})";
    group_name_attribute = lit "cn";
    username_attribute = lit "uid";
    mail_attribute = lit "mail";
    display_name_attribute = lit "displayName";
    user = lit "cn=admin";
    password = lit "admin";
    start_tls = false;
  };
  users_base_dn = lit "dc=example";
  groups_base_dn = lit "dc=example";
  support_extension_passwd_modify = false;
}

-- The calls up to the search for John.
abbrev searched_john : LdapTrace
searched_john =
    search 1 (user_request one_user users_of_directory (lit "john"))
    ∷ bind 1 (lit "cn=admin") (lit "admin")
    ∷ dial url_of_directory
    ∷ []

abbrev checked_john : LdapTrace
checked_john =
    close 1
    ∷ close 2
    ∷ bind 2 (lit "uid=john,dc=example") (lit "secret")
    ∷ dial url_of_directory
    ∷ searched_john

checks_john :
    check_user_password one_user users_of_directory (lit "john") (lit "secret") []
    ≡ (ok true, checked_john)
unfolding check_user_password check_with connect_as_configured connect secure bind_user
    get_user_profile use_entries with_dn read_attributes read_emails_and_username read_username
    read_emails read_display_name first_value only_value bind_profile texts
checks_john = refl

check_user_password-IsBound_example :
    (true ≡ true) × IsBound one_user users_of_directory (lit "john") (lit "secret") checked_john
check_user_password-IsBound_example =
    check_user_password-IsBound one_user users_of_directory (lit "john") (lit "secret") []
      checks_john

abbrev updated_john : LdapTrace
updated_john =
    close 1
    ∷ replace 1 (lit "uid=john,dc=example") (lit "userPassword") (lit "secret")
    ∷ searched_john

updates_john :
    update_password one_user users_of_directory (lit "john") (lit "secret") []
    ≡ (ok tt, updated_john)
unfolding update_password update_with connect_as_configured connect secure bind_user
    get_user_profile use_entries with_dn read_attributes read_emails_and_username read_username
    read_emails read_display_name first_value only_value modify texts
updates_john = refl

update_password-IsUpdated_example :
    IsUpdated one_user users_of_directory (lit "john") (lit "secret") updated_john
update_password-IsUpdated_example =
    update_password-IsUpdated one_user users_of_directory (lit "john") (lit "secret") []
      updates_john

-- A name with a comma in it.
abbrev name_with_comma : Text
name_with_comma = lit "a,b"

name_with_comma-IsPlain : All IsPlain name_with_comma
unfolding lit
name_with_comma-IsPlain = (
  (λ e. cc e, λ e. cc e, λ e. cc e, λ e. cc e),
  (
    (λ e. cc e, λ e. cc e, λ e. cc e, λ e. cc e),
    ((λ e. cc e, λ e. cc e, λ e. cc e, λ e. cc e), tt),
  ),
)

ldap_escape-IsGuarded_example :
    All IsPlain (ldap_escape one_user name_with_comma)
    × All (λ d. IsGuarded d 0 (ldap_escape one_user name_with_comma)) special_ldap_runes
ldap_escape-IsGuarded_example =
    ldap_escape-IsGuarded one_user name_with_comma name_with_comma-IsPlain
