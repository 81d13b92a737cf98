-- ===== src/Tests/Rules.antt =====
-- Rules, levels, and the way a configuration becomes rules.
use ldap_totp_nginx_auth.Prelude.{
  Text, [], ◌∷◌, ◌++◌, ◌==◌, lit, true, some, none, ◌≡◌, refl, ap, ◌∙◌, ◌↔◌, ◌⊎◌, inl, inr, All,
  texts, if◌then◌else◌, Bool-cases,
}
use ldap_totp_nginx_auth.Authorization.{one_factor, denied, Subject, Object}
use ldap_totp_nginx_auth.Authorization.Rules.{
  IpNet, v4_in_v6_prefix, net_contains, rules, get_required_level,
}
use ldap_totp_nginx_auth.Authorization.Config.{
  AclRule, AccessControlConfiguration, Parsers, parse_schema_networks, new_access_control_rules,
}
use ldap_totp_nginx_auth.Authorization.Decisions.{IsDecidedBy, Misses, get_required_level_iff}
use ldap_totp_nginx_auth.Authorization.Alike.{IsSameNet, AreAlike}
use ldap_totp_nginx_auth.Authorization.Networks.{
  NotationRoundTrips, plain_rules, new_access_control_rules-plain_rules,
}
use ldap_totp_nginx_auth.Tests.{app_rule, app_authorizer}

abbrev john : Subject
john = record { username = lit "john"; groups = lit "admins" ∷ []; ip = 192 ∷ 168 ∷ 1 ∷ 8 ∷ [] }

abbrev app : Object
app = record {
  scheme = lit "https";
  domain = lit "app.example.com";
  path = lit "/";
  method = lit "GET";
}

get_required_level_iff_example : (get_required_level app_authorizer john app ≡ one_factor) ↔ (
    IsDecidedBy john app (app_rule ∷ []) one_factor
    ⊎ (All (Misses john app) (app_rule ∷ []) × (denied ≡ one_factor)))
get_required_level_iff_example = get_required_level_iff john app app_authorizer one_factor

abbrev ten_net : IpNet
ten_net = record { ip = 10 ∷ 0 ∷ 0 ∷ 0 ∷ []; mask = 255 ∷ 0 ∷ 0 ∷ 0 ∷ [] }

-- The same network in the form of IPv6, which is written in that of IPv4.
abbrev mapped_net : IpNet
mapped_net = record {
  ip = v4_in_v6_prefix ++ (10 ∷ 0 ∷ 0 ∷ 0 ∷ []);
  mask =
      255 ∷ 255 ∷ 255 ∷ 255 ∷ 255 ∷ 255 ∷ 255 ∷ 255 ∷ 255 ∷ 255 ∷ 255 ∷ 255 ∷ 255 ∷ 0 ∷ 0 ∷ 0 ∷ [];
}

-- Parsers that know one network, in two forms.
abbrev pub one_network : Parsers
one_network = record {
  compile = λ p. some (λ s. true);
  parse_ip = λ s. [];
  parse_cidr = λ s.
      if s == lit "10.0.0.0/8"
      then some ten_net
      else if s == lit "::ffff:10.0.0.0/104"
      then some mapped_net
      else none;
  cidr_string = λ n. lit "10.0.0.0/8";
}

mapped_net-IsSameNet : IsSameNet ten_net mapped_net
unfolding rules
mapped_net-IsSameNet ip = refl

one_network-reads_back :
    (rule : Text) (n : IpNet)
    → one_network.parse_cidr rule ≡ some n
    → (m : IpNet) × (one_network.parse_cidr (one_network.cidr_string n) ≡ some m) × IsSameNet m n
unfolding texts
one_network-reads_back rule n e = elim (Bool-cases (rule == lit "10.0.0.0/8")) [
  | inl known ↦ (ten_net, refl, λ ip. ap (λ x. net_contains x ip) (some-inj (simp known at e)))
  | inr other ↦ elim (Bool-cases (rule == lit "::ffff:10.0.0.0/104")) [
    | inl mapped ↦
        let same : mapped_net ≡ n = some-inj (simp (other, mapped) at e) in
        (ten_net, refl, λ ip. mapped_net-IsSameNet ip ∙ ap (λ x. net_contains x ip) same)
    | inr unknown ↦ absurd (none_lem (simp (other, unknown) at e))
  ]
]
  where
    none_lem : none ≡ some n → ⊥
    none_lem h = cc

    some-inj : {a b : IpNet} → some a ≡ some b → a ≡ b
    some-inj h = cc

one_network_notation : NotationRoundTrips one_network
unfolding texts
one_network_notation = record { has_slash = λ rule n e. refl; reads_back = one_network-reads_back }

abbrev ten_rule : AclRule
ten_rule = record {
  domains = lit "*.example.com" ∷ [];
  policy = lit "bypass";
  subjects = [];
  networks = lit "::ffff:10.0.0.0/104" ∷ lit "10.0.0.0/8" ∷ lit "office" ∷ [];
  resources = [];
  methods = [];
}

abbrev two_rules : AccessControlConfiguration
two_rules = record {
  default_policy = lit "deny";
  networks = record { name = lit "office"; networks = lit "10.0.0.0/8" ∷ [] } ∷ [];
  rules = ten_rule ∷ ten_rule ∷ [];
}

new_access_control_rules-plain_rules_example :
    AreAlike (new_access_control_rules one_network two_rules) (
      plain_rules one_network 0
        (ten_rule ∷ ten_rule ∷ [])
        (parse_schema_networks one_network two_rules.networks).0)
new_access_control_rules-plain_rules_example =
    new_access_control_rules-plain_rules one_network one_network_notation two_rules
