-- ===== src/Authorization/Alike.antt =====
-- Rules that differ in the form of their networks only require the same levels.
use ldap_totp_nginx_auth.Prelude.{
  List, [], ◌∷◌, ◌++◌, true, if◌then◌else◌, any, is_empty, ◌≡◌, refl, ap, ◌∙◌, ℕ, Option, none,
  some,
}
use ldap_totp_nginx_auth.Authorization.{Level, Subject, Object}
use ldap_totp_nginx_auth.Authorization.Rules.{
  IpNet, net_contains, AccessControlRule, is_match_for_domains, is_match_for_resources,
  is_match_for_methods, is_match_for_networks, is_match_for_subjects, rule_match, first_match,
}

-- Two networks of the same addresses; `IPNet` may hold one network in two forms.
abbrev pub IsSameNet : IpNet → IpNet → Type 0
IsSameNet m n = (ip : List ℕ) → net_contains m ip ≡ net_contains n ip

abbrev pub AreSame : List IpNet → List IpNet → Type 0
AreSame [] [] = Unit
AreSame (m ∷ ms) (n ∷ ns) = IsSameNet m n × AreSame ms ns
AreSame _ _ = ⊥

pub AreSame-refl : (ns : List IpNet) → AreSame ns ns
AreSame-refl [] = tt
AreSame-refl (n ∷ ns) = (λ ip. refl, AreSame-refl ns)

pub AreSame-append :
    (ms ns ms' ns' : List IpNet) → AreSame ms ns → AreSame ms' ns' → AreSame (ms ++ ms') (ns ++ ns')
AreSame-append [] [] ms' ns' h k = k
AreSame-append (m ∷ ms) (n ∷ ns) ms' ns' (same, h) k = (same, AreSame-append ms ns ms' ns' h k)
AreSame-append [] (n ∷ ns) ms' ns' h k = absurd h
AreSame-append (m ∷ ms) [] ms' ns' h k = absurd h

AreSame-any :
    (ms ns : List IpNet) (ip : List ℕ)
    → AreSame ms ns
    → any (λ n. net_contains n ip) ms ≡ any (λ n. net_contains n ip) ns
unfolding any
AreSame-any [] [] ip h = refl
AreSame-any (m ∷ ms) (n ∷ ns) ip (same, h) = simp (same ip, AreSame-any ms ns ip h) refl
AreSame-any [] (n ∷ ns) ip h = absurd h
AreSame-any (m ∷ ms) [] ip h = absurd h

is_match_for_networks-same :
    (p : AccessControlRule) (ns : List IpNet) (subject : Subject)
    → AreSame ns p.networks
    → is_match_for_networks subject (record p { networks = ns }) ≡ is_match_for_networks subject p
unfolding is_match_for_networks
is_match_for_networks-same p ns subject h = matching ns p.networks h
  where
    matching :
        (ms ms' : List IpNet)
        → AreSame ms ms'
        → (if is_empty ms then true else any (λ n. net_contains n subject.ip) ms)
          ≡ (if is_empty ms' then true else any (λ n. net_contains n subject.ip) ms')
    matching [] [] h = refl
    matching (m ∷ ms) (n ∷ ms') h = AreSame-any (m ∷ ms) (n ∷ ms') subject.ip h
    matching [] (n ∷ ms') h = absurd h
    matching (m ∷ ms) [] h = absurd h

rule_match-same :
    (p : AccessControlRule) (ns : List IpNet) (subject : Subject) (object : Object)
    → AreSame ns p.networks
    → rule_match (record p { networks = ns }) subject object ≡ rule_match p subject object
unfolding rule_match is_match_for_domains is_match_for_resources is_match_for_methods
    is_match_for_subjects
rule_match-same p ns subject object h = simp (is_match_for_networks-same p ns subject h) refl

-- Rules that differ in the form of their networks only.
abbrev SameRules : List AccessControlRule → List AccessControlRule → Type 0
SameRules [] [] = Unit
SameRules (r ∷ rs) (p ∷ ps) =
    (r ≡ record p { networks = r.networks }) × AreSame r.networks p.networks × SameRules rs ps
SameRules _ _ = ⊥

SameRules-first_match :
    (rs ps : List AccessControlRule) (default : Level) (subject : Subject) (object : Object)
    → SameRules rs ps
    → first_match rs default subject object ≡ first_match ps default subject object
unfolding first_match
SameRules-first_match [] [] default subject object h = refl
SameRules-first_match (r ∷ rs) (p ∷ ps) default subject object (e, nets, h) =
    let matching : rule_match r subject object ≡ rule_match p subject object =
      ap (λ x. rule_match x subject object) e ∙ rule_match-same p r.networks subject object nets in
    let policies : r.policy ≡ p.policy = ap (λ x. x.policy) e in
    simp (matching, policies, SameRules-first_match rs ps default subject object h) refl
SameRules-first_match [] (p ∷ ps) default subject object h = absurd h
SameRules-first_match (r ∷ rs) [] default subject object h = absurd h

-- What constructing rules gives: both ways fail, or both give the same rules.
abbrev pub BothSame : Option (List AccessControlRule) → Option (List AccessControlRule) → Type 0
BothSame none none = Unit
BothSame (some rs) (some ps) = SameRules rs ps
BothSame _ _ = ⊥

-- Both ways fail, or both give rules that require the same level of every request.
abbrev pub AreAlike : Option (List AccessControlRule) → Option (List AccessControlRule) → Type 0
AreAlike none none = Unit
AreAlike (some rs) (some ps) =
    (default : Level) (subject : Subject) (object : Object)
    → first_match rs default subject object ≡ first_match ps default subject object
AreAlike _ _ = ⊥

pub BothSame-AreAlike : (rs ps : Option (List AccessControlRule)) → BothSame rs ps → AreAlike rs ps
BothSame-AreAlike none none h = tt
BothSame-AreAlike (some rs) (some ps) h =
    λ default subject object. SameRules-first_match rs ps default subject object h
BothSame-AreAlike none (some ps) h = h
BothSame-AreAlike (some rs) none h = h
