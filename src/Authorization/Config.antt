-- ===== src/Authorization/Config.antt =====
-- access_control_rule.go and util.go: how a configuration becomes rules. `none` stands for a Go
-- panic (a slice out of range, a regular expression that does not compile).
use ldap_totp_nginx_auth.Prelude.{
  Text, List, [], ◌∷◌, ◌++◌, ◌==◌, lit, Bool, true, false, not, ℕ, ◌+◌, leb, is_empty, length, drop,
  map, has_prefix, contains, to_lower, to_upper, trim, if◌then◌else◌, Option, none, some, lookup,
  insert,
}
use ldap_totp_nginx_auth.Authorization.{policy_to_level}
use ldap_totp_nginx_auth.Authorization.Rules.{
  AccessControlDomain, AccessControlResource, IpNet, AccessControlSubject, user, group,
  AccessControlRule, to_4,
}

-- schema/access_control.go.
pub record AclNetwork : Type 0 where
  pub name : Text
  pub networks : List Text

pub record AclRule : Type 0 where
  pub domains : List Text
  pub policy : Text
  pub subjects : List (List Text)
  pub networks : List Text
  pub resources : List Text
  pub methods : List Text

pub record AccessControlConfiguration : Type 0 where
  pub default_policy : Text
  pub networks : List AclNetwork
  pub rules : List AclRule

infixl 5 ◌>>=◌
abbrev pub ◌>>=◌ {ℓ κ} : {A : Type ℓ} {B : Type κ} → Option A → (A → Option B) → Option B
none >>= f = none
some a >>= f = f a

-- `s[n:]`, which panics beyond the end.
unfoldable pub slice_from : ℕ → Text → Option Text
slice_from n s = if leb n (length s) then some (drop n s) else none

-- `schemaSubjectToACLSubject`, `none` where it returns nil.
unfoldable pub schema_subject_to_acl_subject : Text → Option AccessControlSubject
schema_subject_to_acl_subject rule =
    if has_prefix rule (lit "user:")
    then some (user (trim (drop 5 rule)))
    else if has_prefix rule (lit "group:")
    then some (group (trim (drop 6 rule)))
    else none

abbrev pub append_found :
    List AccessControlSubject → Option AccessControlSubject → List AccessControlSubject
append_found subjects none = subjects
append_found subjects (some subject) = subjects ++ subject ∷ []

-- `AddSubject`: an item that is no subject is passed over.
unfoldable pub add_subject : List AccessControlSubject → Text → List AccessControlSubject
add_subject subjects rule = append_found subjects (schema_subject_to_acl_subject rule)

unfoldable pub add_subjects : List AccessControlSubject → List Text → List AccessControlSubject
add_subjects subjects [] = subjects
add_subjects subjects (item ∷ items) = add_subjects (add_subject subjects item) items

unfoldable pub schema_subjects_to_acl : List (List Text) → List (List AccessControlSubject)
schema_subjects_to_acl [] = []
schema_subjects_to_acl (rule ∷ rules) =
    let rest = schema_subjects_to_acl rules in
    let subjects = add_subjects [] rule in if is_empty subjects then rest else subjects ∷ rest

-- The `switch` of `schemaDomainsToACL`, over a rule in lower case.
unfoldable pub domain_of_rule : Text → Option AccessControlDomain
domain_of_rule rule =
    if has_prefix rule (lit "*.")
    then some (record {
      name = drop 1 rule;
      wildcard = true;
      user_wildcard = false;
      group_wildcard = false;
    })
    else if has_prefix rule (lit "{user}")
    then (do
      name ← slice_from 7 rule
      some (record { name = name; wildcard = false; user_wildcard = true; group_wildcard = false }))
    else if has_prefix rule (lit "{group}")
    then (do
      name ← slice_from 8 rule
      some (record { name = name; wildcard = false; user_wildcard = false; group_wildcard = true }))
    else some
        (record { name = rule; wildcard = false; user_wildcard = false; group_wildcard = false })

unfoldable pub schema_domains_to_acl : List Text → Option (List AccessControlDomain)
schema_domains_to_acl [] = some []
schema_domains_to_acl (rule ∷ rules) = do
  domain ← domain_of_rule (to_lower rule)
  domains ← schema_domains_to_acl rules
  some (domain ∷ domains)

unfoldable pub schema_methods_to_acl : List Text → List Text
schema_methods_to_acl rules = map to_upper rules

-- What the packages `net` and `regexp` do with a text: `compile` gives the test of `MatchString`,
-- `parse_ip` gives no bytes for nil, `cidr_string` is `IPNet.String`.
pub record Parsers : Type 0 where
  pub compile : Text → Option (Text → Bool)
  pub parse_ip : Text → List ℕ
  pub parse_cidr : Text → Option IpNet
  pub cidr_string : IpNet → Text

abbrev pub NetworksMap : Type 0
NetworksMap = List (Text × List IpNet)

abbrev pub CacheMap : Type 0
CacheMap = List (Text × IpNet)

-- The first group of a name counts, and a group without networks is left out.
abbrev pub add_group : Text → List IpNet → NetworksMap → NetworksMap
add_group name networks named = elim (lookup name named) [
  | some _ ↦ named
  | none ↦ if is_empty networks then named else insert name networks named
]

module _ (parsers : Parsers) where
  open parsers use {compile, parse_ip, parse_cidr, cidr_string}

  unfoldable pub schema_resources_to_acl : List Text → Option (List AccessControlResource)
  schema_resources_to_acl [] = some []
  schema_resources_to_acl (rule ∷ rules) = do
    pattern' ← compile rule
    resources ← schema_resources_to_acl rules
    some (record { pattern = pattern' } ∷ resources)

  unfoldable pub parse_network : Text → Option IpNet
  parse_network rule =
      if not (contains rule (lit "/"))
      then (elim (to_4 (parse_ip rule)) [
        | some _ ↦ parse_cidr (rule ++ lit "/32")
        | none ↦ parse_cidr (rule ++ lit "/128")
      ])
      else parse_cidr rule

  -- The two writes to the cache, under the network's own text and under the rule's.
  unfoldable pub remember : Text → IpNet → CacheMap → CacheMap
  remember rule cidr cache =
      let cached = insert (cidr_string cidr) cidr cache in
      if cidr_string cidr == rule then cached else insert rule cidr cached

  -- One round of the loop of `schemaNetworksToACL`.
  unfoldable pub network_round : NetworksMap → Text → List IpNet × CacheMap → List IpNet × CacheMap
  network_round named rule (networks, cache) = elim (lookup rule named) [
    | some known ↦ (networks ++ known, cache)
    | none ↦ elim (lookup rule cache) [
      | some cidr ↦ (networks ++ cidr ∷ [], cache)
      | none ↦ elim (parse_network rule) [
        | none ↦ (networks, cache)
        | some cidr ↦ (networks ++ cidr ∷ [], remember rule cidr cache)
      ]
    ]
  ]

  unfoldable pub networks_loop :
      NetworksMap → List Text → List IpNet × CacheMap → List IpNet × CacheMap
  networks_loop named [] state = state
  networks_loop named (rule ∷ rules) state =
      networks_loop named rules (network_round named rule state)

  unfoldable pub schema_networks_to_acl : List Text → NetworksMap → CacheMap → List IpNet × CacheMap
  schema_networks_to_acl rules named cache = networks_loop named rules ([], cache)

  -- One round of the inner loop of `parseSchemaNetworks`, over what `parseNetwork` returns.
  unfoldable pub keep_network : Text → Option IpNet → List IpNet × CacheMap → List IpNet × CacheMap
  keep_network rule none state = state
  keep_network rule (some cidr) (networks, cache) =
      (networks ++ cidr ∷ [], remember rule cidr cache)

  unfoldable pub group_loop : List Text → List IpNet × CacheMap → List IpNet × CacheMap
  group_loop [] state = state
  group_loop (rule ∷ rules) state = group_loop rules (keep_network rule (parse_network rule) state)

  unfoldable pub parse_schema_networks_loop :
      List AclNetwork → NetworksMap × CacheMap → NetworksMap × CacheMap
  parse_schema_networks_loop [] state = state
  parse_schema_networks_loop (acl_network ∷ rest) (named, cache) =
      let (networks, cache') = group_loop acl_network.networks ([], cache) in
      parse_schema_networks_loop rest (add_group acl_network.name networks named, cache')

  unfoldable pub parse_schema_networks : List AclNetwork → NetworksMap × CacheMap
  parse_schema_networks schema_networks = parse_schema_networks_loop schema_networks ([], [])

  -- `NewAccessControlRule`, with the cache that it leaves.
  unfoldable pub new_access_control_rule :
      ℕ → AclRule → NetworksMap → CacheMap → Option (AccessControlRule × CacheMap)
  new_access_control_rule pos rule named cache = do
    domains ← schema_domains_to_acl rule.domains
    resources ← schema_resources_to_acl rule.resources
    let found = schema_networks_to_acl rule.networks named cache
    some (
      record {
        position = pos;
        domains = domains;
        resources = resources;
        methods = schema_methods_to_acl rule.methods;
        networks = found.0;
        subjects = schema_subjects_to_acl rule.subjects;
        policy = policy_to_level rule.policy;
      },
      found.1,
    )

  unfoldable pub rules_loop :
      ℕ → List AclRule → NetworksMap → CacheMap → Option (List AccessControlRule)
  rules_loop i [] named cache = some []
  rules_loop i (schema_rule ∷ rest) named cache = do
    next ← new_access_control_rule (i + 1) schema_rule named cache
    rules ← rules_loop (i + 1) rest named next.1
    some (next.0 ∷ rules)

  unfoldable pub new_access_control_rules :
      AccessControlConfiguration → Option (List AccessControlRule)
  new_access_control_rules config =
      let (named, cache) = parse_schema_networks config.networks in
      rules_loop 0 config.rules named cache
