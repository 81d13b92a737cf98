-- ===== src/Configuration/AccessControl.antt =====
-- validator/access_control.go: the access control rules. The packages `net` and `regexp` are the
-- parameter that the construction of the rules takes.
pub mod Constructs
use ldap_totp_nginx_auth.Prelude.{
  if◌then◌else◌, Text, List, [], ◌∷◌, ◌++◌, ◌==◌, lit, not, Bool, true, false, ◌&&◌, ◌||◌, Option,
  none, some, ℕ, ◌+◌, has_prefix, is_empty,
}
use ldap_totp_nginx_auth.Utils.Strings.{is_string_in_slice_fold}
use ldap_totp_nginx_auth.Authorization.Config.{
  AclNetwork, AclRule, AccessControlConfiguration, Parsers,
}
use ldap_totp_nginx_auth.Configuration.{check, each}

-- The errors name the position of their rule.
pub data AccessControlError : Type 0 where
  bad_default_policy bad_group_network rules_missing : AccessControlError
  domains_missing bad_policy bad_network bad_resource : ℕ → AccessControlError
  bad_subject bad_method bypass_with_subjects : ℕ → AccessControlError

pub data AccessControlWarning : Type 0 where
  no_rules_defined : AccessControlWarning

unfoldable pub is_policy_valid : Text → Bool
is_policy_valid policy =
    policy == lit "deny"
    || (policy == lit "one_factor" || (policy == lit "two_factor" || policy == lit "bypass"))

unfoldable pub is_subject_valid : Text → Bool
is_subject_valid subject =
    subject == [] || (has_prefix subject (lit "user:") || has_prefix subject (lit "group:"))

unfoldable pub is_network_group_valid : List AclNetwork → Text → Bool
is_network_group_valid [] network = false
is_network_group_valid (n ∷ ns) network =
    let rest = is_network_group_valid ns network in if not (network == n.name) then rest else true

abbrev pub valid_http_request_methods : List Text
valid_http_request_methods =
    lit "GET"
    ∷ lit "HEAD"
    ∷ lit "POST"
    ∷ lit "PUT"
    ∷ lit "PATCH"
    ∷ lit "DELETE"
    ∷ lit "TRACE"
    ∷ lit "CONNECT"
    ∷ lit "OPTIONS"
    ∷ []

abbrev is_some {ℓ} : {A : Type ℓ} → Option A → Bool
is_some none = false
is_some (some a) = true

module _ (parsers : Parsers) where
  unfoldable pub is_resource_valid : Text → Bool
  is_resource_valid resource = is_some (parsers.compile resource)

  unfoldable pub is_network_valid : Text → Bool
  is_network_valid network =
      if is_empty (parsers.parse_ip network) then is_some (parsers.parse_cidr network) else true

  unfoldable pub group_network_errors : List AclNetwork → List AccessControlError
  group_network_errors [] = []
  group_network_errors (n ∷ ns) =
      each (λ network. not (is_network_valid network)) bad_group_network n.networks
      ++ group_network_errors ns

  -- `ValidateAccessControl`.
  unfoldable pub validate_access_control :
      AccessControlConfiguration → AccessControlConfiguration × List AccessControlError
  validate_access_control c =
      let policy = if c.default_policy == [] then lit "deny" else c.default_policy in
      (
        record c { default_policy = policy },
        check (not (is_policy_valid policy)) bad_default_policy ++ group_network_errors c.networks,
      )

  unfoldable pub validate_networks :
      ℕ → AclRule → AccessControlConfiguration → List AccessControlError
  validate_networks position rule c =
      each
        (λ network.
          not (is_network_valid network) && not (is_network_group_valid c.networks network))
        (bad_network position) rule.networks

  unfoldable pub validate_resources : ℕ → AclRule → List AccessControlError
  validate_resources position rule =
      each (λ resource. not (is_resource_valid resource)) (bad_resource position) rule.resources

  unfoldable pub validate_subjects_loop : ℕ → List (List Text) → List AccessControlError
  validate_subjects_loop position [] = []
  validate_subjects_loop position (subject_rule ∷ rules) =
      each (λ subject. not (is_subject_valid subject)) (bad_subject position) subject_rule
      ++ validate_subjects_loop position rules

  unfoldable pub validate_subjects : ℕ → AclRule → List AccessControlError
  validate_subjects position rule = validate_subjects_loop position rule.subjects

  unfoldable pub validate_methods : ℕ → AclRule → List AccessControlError
  validate_methods position rule =
      each (λ method. not (is_string_in_slice_fold method valid_http_request_methods))
        (bad_method position) rule.methods

  -- One round of the loop of `ValidateRules`.
  unfoldable pub validate_rule : ℕ → AclRule → AccessControlConfiguration → List AccessControlError
  validate_rule position rule c =
      check (is_empty rule.domains) (domains_missing position)
      ++ (check (not (is_policy_valid rule.policy)) (bad_policy position)
          ++ (validate_networks position rule c
              ++ (validate_resources position rule
                  ++ (validate_subjects position rule
                      ++ (validate_methods position rule
                          ++ check (rule.policy == lit "bypass" && not (is_empty rule.subjects))
                              (bypass_with_subjects position))))))

  unfoldable pub validate_rules_loop :
      ℕ → List AclRule → AccessControlConfiguration → List AccessControlError
  validate_rules_loop i [] c = []
  validate_rules_loop i (rule ∷ rules) c =
      validate_rule (i + 1) rule c ++ validate_rules_loop (i + 1) rules c

  -- `ValidateRules`, with its warnings.
  unfoldable pub validate_rules :
      AccessControlConfiguration → List AccessControlError × List AccessControlWarning
  validate_rules c =
      if is_empty c.rules
      then (if not (c.default_policy == lit "one_factor")
            && not (c.default_policy == lit "two_factor")
          then (rules_missing ∷ [], [])
          else ([], no_rules_defined ∷ []))
      else (validate_rules_loop 0 c.rules c, [])
