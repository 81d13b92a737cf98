-- ===== src/Tests/Configurations.antt =====
-- Configurations that the validators accept.
use ldap_totp_nginx_auth.Prelude.{
  Text, List, [], ◌∷◌, lit, false, Option, none, some, ok, All, pos, ◌≡◌, ◌↔◌, refl, texts, arith,
  wrap_int64, to_int64, Bool, true, ◌==◌,
}
use ldap_totp_nginx_auth.Utils.Strings.{strings}
use ldap_totp_nginx_auth.Regulation.{Regulator, RegulationConfiguration, new_regulator}
use ldap_totp_nginx_auth.Authentication.FileProvider.{PasswordConfiguration, hash_new}
use ldap_totp_nginx_auth.Authorization.Rules.{AccessControlRule, domain_to_prefix_suffix}
use ldap_totp_nginx_auth.Authorization.Config.{
  AclRule, AccessControlConfiguration, domain_of_rule, new_access_control_rules,
}
use ldap_totp_nginx_auth.Configuration.{defaulted, int_eq, each}
use ldap_totp_nginx_auth.Configuration.Regulation.{validate_regulation, validate_regulation_iff}
use ldap_totp_nginx_auth.Configuration.Session.{SessionConfiguration}
use ldap_totp_nginx_auth.Configuration.Password.{
  int_or, below, algorithm_of, algorithm_errors, validate_argon2id, validate_common,
  validate_algorithm, validate_password, validate_file,
}
use ldap_totp_nginx_auth.Configuration.Password.Hashes.{hash_new-validate_file}
use ldap_totp_nginx_auth.Configuration.AccessControl.{
  is_policy_valid, is_subject_valid, is_resource_valid, is_network_valid, validate_networks,
  validate_resources, validate_subjects_loop, validate_subjects, validate_methods, validate_rule,
  validate_rules_loop, validate_rules,
}
use ldap_totp_nginx_auth.Configuration.AccessControl.Constructs.{
  IsSound, new_access_control_rules-validate_rules,
}
use ldap_totp_nginx_auth.Authentication.LdapProfile.{LdapConfiguration}
use ldap_totp_nginx_auth.Configuration.Ldap.{
  LdapUrl, is_tls_version, tls_of, set_default_active_directory, set_defaults, placeholder_errors,
  use_url, is_enclosed, users_filter_errors, groups_filter_errors, required_errors, validate_url,
  validate_ldap,
}
use ldap_totp_nginx_auth.Configuration.Ldap.Usable.{IsUsable, validate_ldap-IsUsable}
use ldap_totp_nginx_auth.Session.Provider.{Provider, Store, memory, redis, redis_sentinel, Stores}
use ldap_totp_nginx_auth.Tests.Rules.{one_network}
use ldap_totp_nginx_auth.Tests.Passwords.{plain_crypt}

abbrev unset_times : RegulationConfiguration
unset_times = record { max_retries = 3; find_time = []; ban_time = [] }

validate_regulation_iff_example :
    ((validate_regulation unset_times).1 ≡ [])
    ↔ ((r : Regulator) × (new_regulator (some (validate_regulation unset_times).0) ≡ some r))
validate_regulation_iff_example = validate_regulation_iff unset_times

abbrev redis_session : SessionConfiguration
redis_session = record {
  name = [];
  domain = lit "example.com";
  same_site = lit "strict";
  secret = lit "secret";
  expiration = lit "1h";
  inactivity = [];
  remember_me_duration = [];
  redis = some (record {
    host = lit "redis";
    port = pos 6379;
    username = [];
    password = [];
    database_index = pos 0;
    maximum_active_connections = pos 0;
    minimum_idle_connections = pos 0;
    high_availability = none;
  });
}

-- A Redis that listens at one address, and no other store.
abbrev makes : Store → Bool
makes memory = false
makes (redis c) = c.addr == lit "redis:6379"
makes (redis_sentinel c) = false

abbrev one_redis : Stores
one_redis = record { makes = makes; accepts = λ s. true }

abbrev upper_case : PasswordConfiguration
upper_case = record {
  iterations = pos 0;
  key_length = pos 0;
  salt_length = pos 0;
  algorithm = lit "ARGON2ID";
  memory = pos 128;
  parallelism = pos 4;
}

upper_case_valid :
    (validate_file (record { path = lit "users.yml"; password = some upper_case })).1 ≡ []
unfolding validate_file validate_password validate_algorithm validate_common validate_argon2id
    algorithm_errors algorithm_of below int_or int_eq wrap_int64 to_int64 texts
upper_case_valid = refl

hash_new-validate_file_example :
    (hash : Text) × (hash_new plain_crypt
        (lit "saltsaltsaltsalt")
        (validate_file (record { path = lit "users.yml"; password = some upper_case })).0.1
        (lit "secret")
      ≡ ok hash)
hash_new-validate_file_example =
    hash_new-validate_file plain_crypt (lit "users.yml") upper_case (lit "saltsaltsaltsalt")
      (lit "secret") (omega arith) (omega arith) upper_case_valid

abbrev internal_rule : AclRule
internal_rule = record {
  domains = lit "*.Example.com" ∷ [];
  policy = lit "two_factor";
  subjects = (lit "group:admins" ∷ []) ∷ [];
  networks = lit "10.0.0.0/8" ∷ [];
  resources = lit "^/admin" ∷ [];
  methods = lit "get" ∷ [];
}

abbrev internal_only : AccessControlConfiguration
internal_only = record { default_policy = lit "deny"; networks = []; rules = internal_rule ∷ [] }

internal_only_valid : (validate_rules one_network internal_only).0 ≡ []
unfolding validate_rules validate_rules_loop validate_rule validate_networks validate_resources
    validate_subjects validate_subjects_loop validate_methods is_policy_valid is_subject_valid
    is_resource_valid is_network_valid each strings texts
internal_only_valid = refl

new_access_control_rules-validate_rules_example :
    (rules : List AccessControlRule) × (new_access_control_rules one_network internal_only
      ≡ some rules)
    × All (IsSound one_network) rules
unfolding domain_of_rule domain_to_prefix_suffix texts
new_access_control_rules-validate_rules_example =
    new_access_control_rules-validate_rules one_network internal_only (((_, refl), tt), tt)
      internal_only_valid

abbrev active_directory_backend : LdapConfiguration
active_directory_backend = record {
  implementation = lit "activedirectory";
  url = lit "ldaps://directory";
  base_dn = lit "dc=example";
  additional_users_dn = [];
  users_filter = [];
  additional_groups_dn = [];
  groups_filter = [];
  group_name_attribute = [];
  username_attribute = [];
  mail_attribute = [];
  display_name_attribute = [];
  user = lit "cn=admin";
  password = lit "admin";
  start_tls = false;
}

-- A parser that takes every text for a URL of one host.
abbrev one_host : Text → Option LdapUrl
one_host s = some (record { scheme = lit "ldaps"; hostname = lit "directory"; url_string = s })

active_directory_valid : (validate_ldap one_host active_directory_backend none).1 ≡ []
unfolding validate_ldap set_defaults set_default_active_directory placeholder_errors validate_url
    use_url required_errors users_filter_errors groups_filter_errors is_enclosed is_tls_version
    tls_of defaulted texts
active_directory_valid = refl

validate_ldap-IsUsable_example : IsUsable (validate_ldap one_host active_directory_backend none).0.0
validate_ldap-IsUsable_example =
    validate_ldap-IsUsable one_host active_directory_backend none active_directory_valid
