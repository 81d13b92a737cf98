-- ===== src/Authorization/Rules.antt =====
-- access_control_*.go and authorizer.go: rules, when they match, and the level that they require.
use Prim.Native.Nat.{bit_and}
use ldap_totp_nginx_auth.Prelude.{
  Text, List, [], ◌∷◌, ◌++◌, ◌==◌, lit, Bool, true, false, not, ◌&&◌, ◌||◌, ℕ, eqb, is_empty,
  length, any, all, take, drop, has_suffix, split, join, texts, if◌then◌else◌, Option, none, some,
}
use ldap_totp_nginx_auth.Utils.Strings.{is_string_in_slice, is_string_in_slice_fold, strings}
use ldap_totp_nginx_auth.Authorization.{
  Level, two_factor, Subject, Object, is_anonymous, new_object, policy_to_level,
  is_auth_level_sufficient,
}

pub record AccessControlDomain : Type 0 where
  pub name : Text
  pub wildcard : Bool
  pub user_wildcard : Bool
  pub group_wildcard : Bool

abbrev pub prefix_suffix_of : Text × List Text → Text × Text
prefix_suffix_of (part, []) = ([], part)
prefix_suffix_of (part, p ∷ ps) = (part, join (lit ".") (p ∷ ps))

-- `domainToPrefixSuffix` of util.go.
unfoldable pub domain_to_prefix_suffix : Text → Text × Text
domain_to_prefix_suffix domain = prefix_suffix_of (split b'.' domain)

-- `AccessControlDomain.IsMatch`.
unfoldable pub domain_match : AccessControlDomain → Subject → Object → Bool
domain_match acd subject object =
    if acd.wildcard
    then has_suffix object.domain acd.name
    else if acd.user_wildcard
    then object.domain == subject.username ++ (lit "." ++ acd.name)
    else if acd.group_wildcard
    then (let (prefix, suffix) = domain_to_prefix_suffix object.domain in
        suffix == acd.name && is_string_in_slice_fold prefix subject.groups)
    else object.domain == acd.name

-- A compiled `regexp.Regexp`, as far as `MatchString` shows it.
pub record AccessControlResource : Type 0 where
  pub pattern : Text → Bool

unfoldable pub resource_match : AccessControlResource → Object → Bool
resource_match acr object = acr.pattern object.path

-- `net.IPNet`, with its address and mask of 4 or 16 bytes.
pub record IpNet : Type 0 where
  pub ip : List ℕ
  pub mask : List ℕ

-- The loop of `IPNet.Contains`, over three slices of one length.
unfoldable pub masked_equal : List ℕ → List ℕ → List ℕ → Bool
masked_equal (m ∷ ms) (n ∷ ns) (i ∷ is) = eqb (bit_and n m) (bit_and i m) && masked_equal ms ns is
masked_equal _ _ _ = true

-- `::ffff:`, the first bytes of an IPv4 address in IPv6 form.
abbrev pub v4_in_v6_prefix : List ℕ
v4_in_v6_prefix = 0 ∷ 0 ∷ 0 ∷ 0 ∷ 0 ∷ 0 ∷ 0 ∷ 0 ∷ 0 ∷ 0 ∷ 255 ∷ 255 ∷ []

-- `IP.To4`, `none` where it returns nil.
unfoldable pub to_4 : List ℕ → Option (List ℕ)
to_4 ip =
    if eqb (length ip) 4
    then some ip
    else if eqb (length ip) 16 && (take 12 ip == v4_in_v6_prefix)
    then some (drop 12 ip)
    else none

-- `networkNumberAndMask`; a network that is not well formed has neither.
unfoldable pub network_number_and_mask : IpNet → List ℕ × List ℕ
network_number_and_mask n = elim (to_4 n.ip) [
  | some ip ↦
      if eqb (length n.mask) 4
      then (ip, n.mask)
      else if eqb (length n.mask) 16
      then (ip, drop 12 n.mask)
      else ([], [])
  | none ↦ if eqb (length n.ip) 16 && eqb (length n.mask) 16 then (n.ip, n.mask) else ([], [])
]

abbrev pub shortest : List ℕ → List ℕ
shortest ip = elim (to_4 ip) [ some short ↦ short | none ↦ ip ]

-- `IPNet.Contains`.
unfoldable pub net_contains : IpNet → List ℕ → Bool
net_contains network ip =
    let (number, mask) = network_number_and_mask network in
    eqb (length (shortest ip)) (length number) && masked_equal mask number (shortest ip)

-- `AccessControlUser` and `AccessControlGroup`, the two implementations of the interface
-- `AccessControlSubject`.
pub data AccessControlSubject : Type 0 where
  user : Text → AccessControlSubject
  group : Text → AccessControlSubject

unfoldable pub subject_match : AccessControlSubject → Subject → Bool
subject_match (user name) subject = subject.username == name
subject_match (group name) subject = is_string_in_slice name subject.groups

-- `AccessControlSubjects.IsMatch`: all of the list must match.
unfoldable pub subjects_match : List AccessControlSubject → Subject → Bool
subjects_match subjects subject = all (λ rule. subject_match rule subject) subjects

pub record AccessControlRule : Type 0 where
  pub position : ℕ
  pub domains : List AccessControlDomain
  pub resources : List AccessControlResource
  pub methods : List Text
  pub networks : List IpNet
  pub subjects : List (List AccessControlSubject)
  pub policy : Level

unfoldable pub is_match_for_domains : Subject → Object → AccessControlRule → Bool
is_match_for_domains subject object acl =
    if is_empty acl.domains then true else any (λ d. domain_match d subject object) acl.domains

unfoldable pub is_match_for_resources : Object → AccessControlRule → Bool
is_match_for_resources object acl =
    if is_empty acl.resources then true else any (λ r. resource_match r object) acl.resources

unfoldable pub is_match_for_methods : Object → AccessControlRule → Bool
is_match_for_methods object acl =
    if is_empty acl.methods then true else is_string_in_slice object.method acl.methods

unfoldable pub is_match_for_networks : Subject → AccessControlRule → Bool
is_match_for_networks subject acl =
    if is_empty acl.networks then true else any (λ n. net_contains n subject.ip) acl.networks

unfoldable pub is_match_for_subjects : Subject → AccessControlRule → Bool
is_match_for_subjects subject acl =
    if is_empty acl.subjects || is_anonymous subject
    then true
    else any (λ s. subjects_match s subject) acl.subjects

-- `AccessControlRule.IsMatch`.
unfoldable pub rule_match : AccessControlRule → Subject → Object → Bool
rule_match acr subject object =
    if not (is_match_for_domains subject object acr)
    then false
    else if not (is_match_for_resources object acr)
    then false
    else if not (is_match_for_methods object acr)
    then false
    else if not (is_match_for_networks subject acr)
    then false
    else if not (is_match_for_subjects subject acr)
    then false
    else true

-- The policies of the OpenID Connect clients are those of the configuration; `none` where there
-- is no such identity provider.
pub record Authorizer : Type 0 where
  pub default_policy : Level
  pub rules : List AccessControlRule
  pub client_policies : Option (List Text)

abbrev pub is_two_factor : Level → Bool
is_two_factor two_factor = true
is_two_factor _ = false

unfoldable pub is_second_factor_enabled : Authorizer → Bool
is_second_factor_enabled p =
    if is_two_factor p.default_policy
    then true
    else if any (λ r. is_two_factor r.policy) p.rules
    then true
    else elim p.client_policies [
      | none ↦ false
      | some policies ↦ any (λ c. c == lit "two_factor") policies
    ]

-- The loop of `GetRequiredLevel`: the first rule that matches decides.
unfoldable pub first_match : List AccessControlRule → Level → Subject → Object → Level
first_match [] default subject object = default
first_match (rule ∷ rules) default subject object =
    let later = first_match rules default subject object in
    if rule_match rule subject object then rule.policy else later

unfoldable pub get_required_level : Authorizer → Subject → Object → Level
get_required_level p subject object = first_match p.rules p.default_policy subject object

-- What a test of the rules computes with.
unfoldable pub rules : Unit {0}
unfolding domain_to_prefix_suffix domain_match resource_match masked_equal to_4
    network_number_and_mask net_contains subject_match subjects_match is_match_for_domains
    is_match_for_resources is_match_for_methods is_match_for_networks is_match_for_subjects
    rule_match is_second_factor_enabled first_match get_required_level is_anonymous new_object
    policy_to_level is_auth_level_sufficient texts strings any all
rules = tt
