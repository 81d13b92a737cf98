-- ===== src/Authentication/LdapProfile.antt =====
-- What getUserProfile of ldap_user_provider.go reads of the entry of a user.
use ldap_totp_nginx_auth.Prelude.{
  if◌then◌else◌, Text, List, [], ◌∷◌, ◌==◌, Bool, Option, some, Result, ok, err,
}
use ldap_totp_nginx_auth.Authentication.Directory.{Attribute, LdapError, panics, multiple_usernames}

-- `schema.LDAPAuthenticationBackendConfiguration`, without the TLS settings.
pub record LdapConfiguration : Type 0 where
  pub implementation : Text
  pub url : Text
  pub base_dn : Text
  pub additional_users_dn : Text
  pub users_filter : Text
  pub additional_groups_dn : Text
  pub groups_filter : Text
  pub group_name_attribute : Text
  pub username_attribute : Text
  pub mail_attribute : Text
  pub display_name_attribute : Text
  pub user : Text
  pub password : Text
  pub start_tls : Bool

-- `ldapUserProfile`.
pub record LdapUserProfile : Type 0 where
  pub dn : Text
  pub emails : Option (List Text)
  pub display_name : Text
  pub username : Text

unfoldable pub first_value : List Text → LdapUserProfile → Result LdapError LdapUserProfile
first_value [] profile = err panics
first_value (value ∷ values) profile = ok (record profile { display_name = value })

unfoldable pub only_value : List Text → LdapUserProfile → Result LdapError LdapUserProfile
only_value (value ∷ []) profile = ok (record profile { username = value })
only_value _ profile = err multiple_usernames

module _ (c : LdapConfiguration) where
  unfoldable pub read_display_name : Attribute → LdapUserProfile → Result LdapError LdapUserProfile
  read_display_name attr profile =
      if attr.name == c.display_name_attribute then first_value attr.values profile else ok profile

  unfoldable pub read_emails : Attribute → LdapUserProfile → LdapUserProfile
  read_emails attr profile =
      if attr.name == c.mail_attribute
      then record profile { emails = some attr.values }
      else profile

  unfoldable pub read_username : Attribute → LdapUserProfile → Result LdapError LdapUserProfile
  read_username attr profile =
      if attr.name == c.username_attribute then only_value attr.values profile else ok profile

  unfoldable pub read_emails_and_username :
      Attribute → Result LdapError LdapUserProfile → Result LdapError LdapUserProfile
  read_emails_and_username attr (err e) = err e
  read_emails_and_username attr (ok profile) = read_username attr (read_emails attr profile)

  -- The loop over the attributes of the entry.
  unfoldable pub read_attributes :
      List Attribute → Result LdapError LdapUserProfile → Result LdapError LdapUserProfile
  read_attributes attributes (err e) = err e
  read_attributes [] (ok profile) = ok profile
  read_attributes (attr ∷ attributes) (ok profile) =
      read_attributes attributes (read_emails_and_username attr (read_display_name attr profile))
