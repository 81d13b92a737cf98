-- ===== src/Authorization/Networks.antt =====
-- The cache of parsed networks never changes what the rules of a configuration decide.
use mathlib.Core.List.{append-nil, append_assoc, flat_map}
use ldap_totp_nginx_auth.Prelude.{
  Text, List, [], ◌∷◌, ◌++◌, ◌==◌, ==_iff, lit, true, ◌≡◌, refl, sym, subst, ap, ◌∙◌, ℕ, ◌+◌,
  Option, none, some, Option-cases, Bool-cases, inl, inr, contains, lookup, insert, lookup-insert,
}
use ldap_totp_nginx_auth.Authorization.{policy_to_level}
use ldap_totp_nginx_auth.Authorization.Rules.{IpNet, AccessControlRule, to_4}
use ldap_totp_nginx_auth.Authorization.Alike.{
  IsSameNet, AreSame, AreSame-refl, AreSame-append, BothSame, AreAlike, BothSame-AreAlike,
}
use ldap_totp_nginx_auth.Authorization.Config.{
  AclNetwork, AclRule, AccessControlConfiguration, Parsers, NetworksMap, CacheMap, ◌>>=◌,
  schema_domains_to_acl, schema_resources_to_acl, schema_methods_to_acl, schema_subjects_to_acl,
  parse_network, remember, network_round, networks_loop, schema_networks_to_acl, keep_network,
  group_loop, parse_schema_networks_loop, parse_schema_networks, new_access_control_rule,
  rules_loop, new_access_control_rules, add_group,
}

module _ (parsers : Parsers) where
  -- A network is written in the notation that is read back as one of the same addresses.
  pub record NotationRoundTrips : Type 0 where
    pub has_slash :
        (rule : Text) (n : IpNet)
        → parsers.parse_cidr rule ≡ some n
        → contains (parsers.cidr_string n) (lit "/") ≡ true
    pub reads_back :
        (rule : Text) (n : IpNet)
        → parsers.parse_cidr rule ≡ some n
        → (m : IpNet) × (parsers.parse_cidr (parsers.cidr_string n) ≡ some m) × IsSameNet m n

  -- A text stands for the addresses of the network.
  abbrev IsParsed : Text → IpNet → Type 0
  IsParsed k n = (m : IpNet) × (parse_network parsers k ≡ some m) × IsSameNet m n

  -- Every entry has the addresses of what parsing its key gives.
  abbrev pub IsSound : CacheMap → Type 0
  IsSound cache = (k : Text) (n : IpNet) → lookup k cache ≡ some n → IsParsed k n

  -- What one network rule stands for: the group of that name, or else the network that it writes.
  pub expand : NetworksMap → Text → List IpNet
  expand named rule = elim (lookup rule named) [
    | some known ↦ known
    | none ↦ elim (parse_network parsers rule) [ none ↦ [] | some cidr ↦ cidr ∷ [] ]
  ]

  -- A rule as the configuration states it, with no cache.
  pub plain_rule : ℕ → AclRule → NetworksMap → Option AccessControlRule
  plain_rule pos rule named = do
    domains ← schema_domains_to_acl rule.domains
    resources ← schema_resources_to_acl parsers rule.resources
    some (record {
      position = pos;
      domains = domains;
      resources = resources;
      methods = schema_methods_to_acl rule.methods;
      networks = flat_map (expand named) rule.networks;
      subjects = schema_subjects_to_acl rule.subjects;
      policy = policy_to_level rule.policy;
    })

  pub plain_rules : ℕ → List AclRule → NetworksMap → Option (List AccessControlRule)
  plain_rules i [] named = some []
  plain_rules i (rule ∷ rest) named = do
    next ← plain_rule (i + 1) rule named
    rules ← plain_rules (i + 1) rest named
    some (next ∷ rules)

  -- Each network comes from some text in the notation.
  parse_network_cidr :
      (rule : Text) (n : IpNet)
      → parse_network parsers rule ≡ some n
      → (text : Text) × (parsers.parse_cidr text ≡ some n)
  unfolding parse_network
  parse_network_cidr rule n e = elim (Bool-cases (contains rule (lit "/"))) [
    | inl slash ↦ (rule, rw slash at e)
    | inr plain ↦ elim (Option-cases (to_4 (parsers.parse_ip rule))) [
      | inl long ↦ (rule ++ lit "/128", rw (plain, long) at e)
      | inr (ip, short) ↦ (rule ++ lit "/32", rw (plain, short) at e)
    ]
  ]

  none_stored : (k : Text) (n : IpNet) → lookup k [] ≡ some n → ⊥
  unfolding lookup
  none_stored k n found = cc

  insert-IsSound :
      (k : Text) (n : IpNet) (cache : CacheMap)
      → IsParsed k n
      → IsSound cache
      → IsSound (insert k n cache)
  insert-IsSound k n cache parsed sound j m found = elim (Bool-cases (k == j)) [
    | inl same ↦
        let stored : some n ≡ some m = rw (lookup-insert k j n cache, same) at found in
        parsed_lem ((==_iff k j).0 same) (some-inj stored)
    | inr other ↦ sound j m (rw (lookup-insert k j n cache, other) at found)
  ]
    where
      some-inj : {a b : IpNet} → some a ≡ some b → a ≡ b
      some-inj e = cc

      parsed_lem : k ≡ j → n ≡ m → IsParsed j m
      parsed_lem e e' = subst (λ x. IsParsed x m) e (subst (λ x. IsParsed k x) e' parsed)

  module _ (notation : NotationRoundTrips) where
    parse_network-cidr_string :
        (rule : Text) (n : IpNet)
        → parse_network parsers rule ≡ some n
        → IsParsed (parsers.cidr_string n) n
    unfolding parse_network
    parse_network-cidr_string rule n e =
        let (text, written) = parse_network_cidr rule n e in
        let (m, back, same) = notation.reads_back text n written in
        (m, rw (notation.has_slash text n written) back, same)

    remember-IsSound :
        (rule : Text) (n : IpNet) (cache : CacheMap)
        → parse_network parsers rule ≡ some n
        → IsSound cache
        → IsSound (remember parsers rule n cache)
    unfolding remember
    remember-IsSound rule n cache e sound =
        let once =
          insert-IsSound (parsers.cidr_string n) n cache (parse_network-cidr_string rule n e)
            sound in
        elim (Bool-cases (parsers.cidr_string n == rule)) [
          | inl same ↦ rw same once
          | inr other ↦ rw other (insert-IsSound rule n _ (n, e, λ ip. refl) once)
        ]

    -- The loop adds `new`, networks of the addresses `stated`, and keeps the cache sound.
    abbrev IsGrown : List IpNet → List IpNet → List IpNet → List IpNet × CacheMap → Type 0
    IsGrown networks stated new (networks', cache') =
        (networks' ≡ networks ++ new) × AreSame new stated × IsSound cache'

    -- One round adds what its rule stands for.
    network_round-expand :
        (named : NetworksMap) (rule : Text) (networks : List IpNet) (cache : CacheMap)
        → IsSound cache
        → (new : List IpNet) × IsGrown networks
            (expand named rule)
            new
            (network_round parsers named rule (networks, cache))
    unfolding network_round expand
    network_round-expand named rule networks cache sound = elim (Option-cases (lookup rule named)) [
      | inr (known, group) ↦
          (known, rw (group, network_round, expand) (refl, AreSame-refl known, sound))
      | inl no_group ↦ elim (Option-cases (lookup rule cache)) [
        | inr (n, cached) ↦
            let (m, parsed, same) = sound rule n cached in
            let flipped : IsSameNet n m = λ ip. sym (same ip) in
            (
              n ∷ [],
              rw (no_group, cached, parsed, network_round, expand) (refl, (flipped, tt), sound),
            )
        | inl fresh ↦ elim (Option-cases (parse_network parsers rule)) [
          | inl wrong ↦ (
            [],
            rw (no_group, fresh, wrong, network_round, expand)
                (sym (append-nil networks), tt, sound),
          )
          | inr (n, parsed) ↦ (
            n ∷ [],
            rw (no_group, fresh, parsed, network_round, expand)
                (refl, (λ ip. refl, tt), remember-IsSound rule n cache parsed sound),
          )
        ]
      ]
    ]

    networks_loop-expand :
        (named : NetworksMap) (rules : List Text) (networks : List IpNet) (cache : CacheMap)
        → IsSound cache
        → (new : List IpNet) × IsGrown networks
            (flat_map (expand named) rules)
            new
            (networks_loop parsers named rules (networks, cache))
    unfolding networks_loop flat_map
    networks_loop-expand named [] networks cache sound =
        ([], (sym (append-nil networks), tt, sound))
    networks_loop-expand named (rule ∷ rules) networks cache sound =
        let (added, (grown, same, still)) = network_round-expand named rule networks cache sound in
        let next = network_round parsers named rule (networks, cache) in
        let (more, (all, alike, last)) = networks_loop-expand named rules next.0 next.1 still in
        (
          added ++ more,
          (
            all ∙ ap (λ l. l ++ more) grown ∙ append_assoc networks added more,
            AreSame-append added (expand named rule) more (flat_map (expand named) rules) same
                alike,
            last,
          ),
        )

    keep_network-IsSound :
        (rule : Text) (found : Option IpNet) (state : List IpNet × CacheMap)
        → parse_network parsers rule ≡ found
        → IsSound state.1
        → IsSound (keep_network parsers rule found state).1
    unfolding keep_network
    keep_network-IsSound rule none state e sound = sound
    keep_network-IsSound rule (some n) (networks, cache) e sound =
        remember-IsSound rule n cache e sound

    group_loop-IsSound :
        (rules : List Text) (state : List IpNet × CacheMap)
        → IsSound state.1
        → IsSound (group_loop parsers rules state).1
    unfolding group_loop
    group_loop-IsSound [] state sound = sound
    group_loop-IsSound (rule ∷ rules) state sound =
        group_loop-IsSound rules _ (keep_network-IsSound rule _ state refl sound)

    parse_schema_networks-IsSound :
        (groups : List AclNetwork) (named : NetworksMap) (cache : CacheMap)
        → IsSound cache
        → IsSound (parse_schema_networks_loop parsers groups (named, cache)).1
    unfolding parse_schema_networks_loop
    parse_schema_networks-IsSound [] named cache sound = sound
    parse_schema_networks-IsSound (g ∷ groups) named cache sound =
        let (found, cache') = group_loop parsers g.networks ([], cache) in
        parse_schema_networks-IsSound groups (add_group g.name found named) cache'
          (group_loop-IsSound g.networks ([], cache) sound)

    rules_loop-plain :
        (i : ℕ) (rules : List AclRule) (named : NetworksMap) (cache : CacheMap)
        → IsSound cache
        → BothSame (rules_loop parsers i rules named cache) (plain_rules i rules named)
    unfolding rules_loop plain_rules plain_rule new_access_control_rule schema_networks_to_acl
    rules_loop-plain i [] named cache sound = tt
    rules_loop-plain i (rule ∷ rest) named cache sound =
        let (new, (same, alike, still)) = networks_loop-expand named rule.networks [] cache sound in
        let later = rules_loop-plain (i + 1) rest named _ still in
        elim (Option-cases (schema_domains_to_acl rule.domains)) [
          | inl panic ↦ rw panic tt
          | inr (domains, d) ↦
              elim (Option-cases (schema_resources_to_acl parsers rule.resources)) [
                | inl panic ↦ rw (d, panic) tt
                | inr (resources, r) ↦ rw (d, r, same) (join_rules _ _ _ _ refl alike later)
              ]
        ]
      where
        join_rules :
            (r p : AccessControlRule) (rs ps : Option (List AccessControlRule))
            → r ≡ record p { networks = r.networks }
            → AreSame r.networks p.networks
            → BothSame rs ps
            → BothSame (rs >>= λ rules. some (r ∷ rules)) (ps >>= λ rules. some (p ∷ rules))
        join_rules r p none none e h k = tt
        join_rules r p (some rs) (some ps) e h k = (e, h, k)
        join_rules r p none (some ps) e h k = k
        join_rules r p (some rs) none e h k = k

    -- A configuration gives rules exactly where the rules that it states one by one, each read
    -- without the cache of networks, can be made, and both require the same level of every
    -- request, where a network that is written in the notation is read back as one of the same
    -- addresses.
    pub new_access_control_rules-plain_rules :
        (config : AccessControlConfiguration)
        → AreAlike
            (new_access_control_rules parsers config)
            (plain_rules 0 config.rules (parse_schema_networks parsers config.networks).0)
    unfolding new_access_control_rules parse_schema_networks
    new_access_control_rules-plain_rules config = BothSame-AreAlike _ _ (
        rules_loop-plain 0 config.rules _ _ (
          parse_schema_networks-IsSound config.networks [] []
            (λ k n found. absurd (none_stored k n found))))
