-- ===== src/Configuration/AccessControl/Constructs.antt =====
-- Rules without errors become rules of the authorizer.
use ldap_totp_nginx_auth.Prelude.{
  if◌then◌else◌, Text, List, [], ◌∷◌, ◌++◌, ◌==◌, ==_iff, lit, not, true, false, ◌&&◌, some,
  Option-cases, ℕ, ◌+◌, is_empty, All, to_lower, ◌≡◌, ◌≢◌, refl, inl, inr, arith,
}
use ldap_totp_nginx_auth.Authorization.{bypass, policy_to_level}
use ldap_totp_nginx_auth.Authorization.Rules.{
  AccessControlDomain, AccessControlResource, AccessControlRule,
}
use ldap_totp_nginx_auth.Authorization.Config.{
  AclRule, AccessControlConfiguration, Parsers, NetworksMap, CacheMap, domain_of_rule,
  schema_domains_to_acl, schema_resources_to_acl, schema_subjects_to_acl, schema_networks_to_acl,
  schema_methods_to_acl, parse_schema_networks, new_access_control_rule, rules_loop,
  new_access_control_rules,
}
use ldap_totp_nginx_auth.Authorization.Parsing.{policy_to_level_iff}
use ldap_totp_nginx_auth.Configuration.{check, check-eq-nil, append-eq-nil, each-eq-nil}
use ldap_totp_nginx_auth.Configuration.AccessControl.{
  AccessControlError, AccessControlWarning, domains_missing, bad_policy, bypass_with_subjects,
  bad_resource, is_policy_valid, is_resource_valid, validate_networks, validate_resources,
  validate_subjects, validate_methods, validate_rule, validate_rules_loop, validate_rules,
}

-- No domain of a rule ends where its dot should stand.
abbrev pub DomainsFit : List Text → Type 0
DomainsFit = All (λ d. (domain : AccessControlDomain) × (domain_of_rule (to_lower d) ≡ some domain))

domains_lem :
    (rules : List Text)
    → DomainsFit rules
    → is_empty rules ≡ false
    → (domains : List AccessControlDomain) × (schema_domains_to_acl rules ≡ some domains)
      × (domains ≢ [])
unfolding schema_domains_to_acl
domains_lem [] fit h = absurd (cc h)
domains_lem (d ∷ []) ((domain, e), fit) h = (domain ∷ [], rw e refl, λ k. cc k)
domains_lem (d ∷ d' ∷ ds) ((domain, e), fit) h =
    let (domains, e', some') = domains_lem (d' ∷ ds) fit refl in
    (domain ∷ domains, rw (e, e') refl, λ k. cc k)

module _ (parsers : Parsers) where
  resources_lem :
      (rules : List Text)
      → All (λ r. not (is_resource_valid parsers r) ≡ false) rules
      → (resources : List AccessControlResource) × (schema_resources_to_acl parsers rules
          ≡ some resources)
  unfolding schema_resources_to_acl is_resource_valid
  resources_lem [] h = ([], refl)
  resources_lem (r ∷ rs) (h, hs) = elim (Option-cases (parsers.compile r)) [
    | inl e ↦ absurd (ground arith)
    | inr (pattern', e) ↦
        let (resources, e') = resources_lem rs hs in
        (record { pattern = pattern' } ∷ resources, rw (e, e') refl)
  ]

  -- A rule is for some domain, and lets everybody through only where it names no subject.
  abbrev pub IsSound : AccessControlRule → Type 0
  IsSound r = (r.domains ≢ []) × (r.policy ≡ bypass → r.subjects ≡ [])

  no_subjects :
      (subjects : List (List Text))
      → is_empty subjects ≡ true
      → schema_subjects_to_acl subjects ≡ []
  unfolding schema_subjects_to_acl
  no_subjects [] h = refl
  no_subjects (s ∷ ss) h = absurd (cc h)

  -- The checks of a rule that its construction rests on.
  parts_lem :
      (a b c d e f g : List AccessControlError)
      → (a ++ (b ++ (c ++ (d ++ (e ++ (f ++ g)))))) ≡ []
      → (a ≡ []) × (d ≡ []) × (g ≡ [])
  parts_lem a b c d e f g h =
      let (h1, r1) = append-eq-nil a (b ++ (c ++ (d ++ (e ++ (f ++ g))))) h in
      let (h2, r2) = append-eq-nil b (c ++ (d ++ (e ++ (f ++ g)))) r1 in
      let (h3, r3) = append-eq-nil c (d ++ (e ++ (f ++ g))) r2 in
      let (h4, r4) = append-eq-nil d (e ++ (f ++ g)) r3 in
      let (h5, r5) = append-eq-nil e (f ++ g) r4 in
      let (h6, h7) = append-eq-nil f g r5 in (h1, h4, h7)

  bypass_lem :
      (rule : AclRule)
      → (rule.policy == lit "bypass" && not (is_empty rule.subjects)) ≡ false
      → policy_to_level rule.policy ≡ bypass
      → schema_subjects_to_acl rule.subjects ≡ []
  bypass_lem rule h e =
      let named = (==_iff rule.policy (lit "bypass")).1 ((policy_to_level_iff rule.policy).0.0 e) in
      no_subjects rule.subjects (ground (arith, named, h))

  rule_lem :
      (i : ℕ) (rule : AclRule) (c : AccessControlConfiguration) (named : NetworksMap)
      (cache : CacheMap)
      → DomainsFit rule.domains
      → validate_rule parsers (i + 1) rule c ≡ []
      → (r : AccessControlRule) × (cache' : CacheMap) × (new_access_control_rule parsers
            (i + 1)
            rule
            named
            cache
          ≡ some (r, cache'))
        × IsSound r
  unfolding validate_rule validate_resources new_access_control_rule
  rule_lem i rule c named cache fit h =
      let (first, second, third) =
        parts_lem (check (is_empty rule.domains) (domains_missing (i + 1)))
          (check (not (is_policy_valid rule.policy)) (bad_policy (i + 1)))
          (validate_networks parsers (i + 1) rule c) (validate_resources parsers (i + 1) rule)
          (validate_subjects parsers (i + 1) rule) (validate_methods parsers (i + 1) rule)
          (check (rule.policy == lit "bypass" && not (is_empty rule.subjects))
            (bypass_with_subjects (i + 1)))
          h in
      let given = check-eq-nil (is_empty rule.domains) (domains_missing (i + 1)) first in
      let compiled =
        each-eq-nil (λ (r : Text). not (is_resource_valid parsers r)) (bad_resource (i + 1))
          rule.resources second in
      let open' =
        check-eq-nil (rule.policy == lit "bypass" && not (is_empty rule.subjects))
          (bypass_with_subjects (i + 1)) third in
      let (domains, e, some') = domains_lem rule.domains fit given in
      let (resources, e') = resources_lem rule.resources compiled in
      let found = schema_networks_to_acl parsers rule.networks named cache in
      (
        record {
          position = i + 1;
          domains = domains;
          resources = resources;
          methods = schema_methods_to_acl rule.methods;
          networks = found.0;
          subjects = schema_subjects_to_acl rule.subjects;
          policy = policy_to_level rule.policy;
        },
        found.1,
        rw (e, e') refl,
        (some', bypass_lem rule open'),
      )

  rules_lem :
      (i : ℕ) (schema_rules : List AclRule) (c : AccessControlConfiguration) (named : NetworksMap)
      (cache : CacheMap)
      → All (λ r. DomainsFit r.domains) schema_rules
      → validate_rules_loop parsers i schema_rules c ≡ []
      → (rules : List AccessControlRule) × (rules_loop parsers i schema_rules named cache
          ≡ some rules)
        × All IsSound rules
  unfolding validate_rules_loop rules_loop
  rules_lem i [] c named cache fit h = ([], refl, tt)
  rules_lem i (rule ∷ rest) c named cache (fit, fits) h =
      let (first, later) =
        append-eq-nil (validate_rule parsers (i + 1) rule c)
          (validate_rules_loop parsers (i + 1) rest c) h in
      let (r, cache', e, sound) = rule_lem i rule c named cache fit first in
      let (rules, e', sounds) = rules_lem (i + 1) rest c named cache' fits later in
      (r ∷ rules, rw (e, e') refl, (sound, sounds))

  loop_of :
      (schema_rules : List AclRule) (c : AccessControlConfiguration)
      (other : List AccessControlError × List AccessControlWarning)
      → (if is_empty schema_rules
          then other
          else (validate_rules_loop parsers 0 schema_rules c, [])).0
        ≡ []
      → validate_rules_loop parsers 0 schema_rules c ≡ []
  unfolding validate_rules_loop
  loop_of [] c other h = refl
  loop_of (rule ∷ rest) c other h = h

  -- Rules that the validator accepts, whose domains do not end where a dot should stand, are
  -- constructed without a failure, each with a domain, and with no subjects where it lets
  -- everybody through.
  pub new_access_control_rules-validate_rules :
      (c : AccessControlConfiguration)
      → All (λ r. DomainsFit r.domains) c.rules
      → (validate_rules parsers c).0 ≡ []
      → (rules : List AccessControlRule) × (new_access_control_rules parsers c ≡ some rules)
        × All IsSound rules
  unfolding new_access_control_rules validate_rules
  new_access_control_rules-validate_rules c fit h =
      let (named, cache) = parse_schema_networks parsers c.networks in
      rules_lem 0 c.rules c named cache fit (loop_of c.rules c _ h)
