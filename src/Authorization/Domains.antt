-- ===== src/Authorization/Domains.antt =====
-- What the four kinds of domain rule stand for, from the text of the rule to the hosts it takes.
use ldap_totp_nginx_auth.Prelude.{
  Text, List, [], ◌∷◌, ◌++◌, ◌==◌, ==_iff, lit, Bool, true, false, ◌&&◌, ◌≡◌, refl, sym, ap, ◌∙◌,
  ◌↔◌, ◌⊎◌, inl, inr, arith, ℕ, none, some, All, has_prefix, has_prefix-append, has_suffix_iff,
  Bool-cases, &&-eq-true_iff, eqb, eqb_iff, split, join, length, drop, leb_iff, ◌≤◌,
}
use ldap_totp_nginx_auth.Utils.Strings.{is_string_in_slice_fold}
use ldap_totp_nginx_auth.Authorization.{Subject, Object}
use ldap_totp_nginx_auth.Authorization.Config.{domain_of_rule, slice_from}
use ldap_totp_nginx_auth.Authorization.Rules.{
  AccessControlDomain, domain_to_prefix_suffix, domain_match,
}

-- A domain rule of an asterisk, a dot and a name stands for the hosts that end in a dot and the
-- name.
pub domain_match_wildcard :
    (t : Text)
    → (d : AccessControlDomain) × (domain_of_rule (lit "*." ++ t) ≡ some d)
      × ((s : Subject) (o : Object)
          → (domain_match d s o ≡ true) ↔ ((p : Text) × (o.domain ≡ p ++ (lit "." ++ t))))
unfolding domain_of_rule domain_match lit
domain_match_wildcard t = (
  record { name = lit "." ++ t; wildcard = true; user_wildcard = false; group_wildcard = false },
  rw (has_prefix-append (lit "*.") t),
  λ s o. has_suffix_iff o.domain (lit "." ++ t),
)

not_wildcard : (c : ℕ) (t : Text) → eqb c b'*' ≡ false → has_prefix (c ∷ t) (lit "*.") ≡ false
unfolding has_prefix lit ◌==◌
not_wildcard c t h = ground arith

not_user : (t : Text) → has_prefix (lit "{group}." ++ t) (lit "{user}") ≡ false
unfolding has_prefix lit ◌==◌
not_user t = ground arith

in_range : (n : ℕ) (t : Text) → n ≤ length t → slice_from n t ≡ some (drop n t)
unfolding slice_from
in_range n t h = rw ((leb_iff n (length t)).1 h)

-- A domain rule of a user stands for the host of the user's name, a dot, and the name of the rule.
pub domain_match_user :
    (t : Text)
    → (d : AccessControlDomain) × (domain_of_rule (lit "{user}." ++ t) ≡ some d)
      × ((s : Subject) (o : Object)
          → (domain_match d s o ≡ true) ↔ (o.domain ≡ s.username ++ (lit "." ++ t)))
unfolding domain_of_rule domain_match lit
domain_match_user t = (
  record { name = t; wildcard = false; user_wildcard = true; group_wildcard = false },
  rw (
    not_wildcard b'{' (lit "user}." ++ t) refl,
    has_prefix-append (lit "{user}") (lit "." ++ t),
    in_range 7 (lit "{user}." ++ t) (omega arith),
  ),
  λ s o. ==_iff _ _,
)

abbrev pub NoDot : Text → Type 0
NoDot = All (λ c. eqb c b'.' ≡ false)

-- Every host has a first dot or none.
first_dot :
    (s : Text)
    → NoDot s ⊎ ((label : Text) × (rest : Text) × (s ≡ label ++ b'.' ∷ rest) × NoDot label)
first_dot [] = inl tt
first_dot (c ∷ s) = elim (Bool-cases (eqb c b'.')) [
  | inl dot ↦ inr ([], s, ap (λ d. d ∷ s) ((eqb_iff c b'.').0 dot), tt)
  | inr other ↦ elim (first_dot s) [
    | inl clean ↦ inl (other, clean)
    | inr (label, rest, e, clean) ↦ inr (c ∷ label, rest, ap (λ t. c ∷ t) e, (other, clean))
  ]
]

split-NoDot : (s : Text) → NoDot s → split b'.' s ≡ (s, [])
unfolding split
split-NoDot [] h = refl
split-NoDot (c ∷ s) (other, h) = rw (other, split-NoDot s h)

split_at_dot :
    (label rest : Text)
    → NoDot label
    → split b'.' (label ++ b'.' ∷ rest) ≡ (label, (split b'.' rest).0 ∷ (split b'.' rest).1)
unfolding split
split_at_dot [] rest h = refl
split_at_dot (c ∷ label) rest (other, h) = rw (other, split_at_dot label rest h)

join-head :
    (sep : Text) (c : ℕ) (p : Text) (ps : List Text)
    → join sep ((c ∷ p) ∷ ps) ≡ c ∷ join sep (p ∷ ps)
unfolding join
join-head sep c p [] = refl
join-head sep c p (q ∷ ps) = refl

join-split : (s : Text) → join (lit ".") ((split b'.' s).0 ∷ (split b'.' s).1) ≡ s
unfolding split join lit
join-split [] = refl
join-split (c ∷ s) = elim (Bool-cases (eqb c b'.')) [
  | inl dot ↦ rw (dot, join-split s) (ap (λ d. d ∷ s) (sym ((eqb_iff c b'.').0 dot)))
  | inr other ↦ rw other (join-head (lit ".") c _ _ ∙ ap (λ t. c ∷ t) (join-split s))
]

domain_to_prefix_suffix-label :
    (label rest : Text)
    → NoDot label
    → domain_to_prefix_suffix (label ++ b'.' ∷ rest) ≡ (label, rest)
unfolding domain_to_prefix_suffix
domain_to_prefix_suffix-label label rest h = rw (split_at_dot label rest h, join-split rest)

domain_to_prefix_suffix-NoDot : (s : Text) → NoDot s → domain_to_prefix_suffix s ≡ ([], s)
unfolding domain_to_prefix_suffix
domain_to_prefix_suffix-NoDot s h = rw (split-NoDot s h)

-- The hosts of a group rule: one label that names a group of the user, a dot, and the name. Where a
-- host without a dot is the name itself, it counts if the user has a group of no name.
abbrev pub IsGroupHost : Text → List Text → Text → Type 0
IsGroupHost t groups host =
    ((label : Text) × (host ≡ label ++ b'.' ∷ t)
      × NoDot label
      × (is_string_in_slice_fold label groups ≡ true))
    ⊎ ((host ≡ t) × NoDot host × (is_string_in_slice_fold [] groups ≡ true))

group_test : Text → List Text → Text → Bool
group_test t groups host =
    (domain_to_prefix_suffix host).1 == t
    && is_string_in_slice_fold (domain_to_prefix_suffix host).0 groups

group_test_sound :
    (t : Text) (groups : List Text) (host : Text)
    → group_test t groups host ≡ true
    → IsGroupHost t groups host
unfolding group_test
group_test_sound t groups host h = elim (first_dot host) [
  | inl clean ↦
      let (same, found) =
        (&&-eq-true_iff _ _).0 (rw (domain_to_prefix_suffix-NoDot host clean) at h) in
      inr ((==_iff host t).0 same, clean, found)
  | inr (label, rest, e, clean) ↦
      let (same, found) =
        (&&-eq-true_iff _ _).0 (rw (e, domain_to_prefix_suffix-label label rest clean) at h) in
      let ends : rest ≡ t = (==_iff rest t).0 same in
      inl (label, e ∙ ap (λ u. label ++ b'.' ∷ u) ends, clean, found)
]

group_test_complete :
    (t : Text) (groups : List Text) (host : Text)
    → IsGroupHost t groups host
    → group_test t groups host ≡ true
unfolding group_test
group_test_complete t groups host (inl (label, e, clean, found)) =
    rw (e, domain_to_prefix_suffix-label label t clean, found, (==_iff t t).1 refl)
group_test_complete t groups host (inr (e, clean, found)) =
    rw (domain_to_prefix_suffix-NoDot host clean, found, (==_iff host t).1 e)

-- A domain rule of a group stands for the hosts of one label that names a group of the user, a
-- dot, and the name, and for the name itself where it has no dot and the user has a group of no
-- name.
pub domain_match_group :
    (t : Text)
    → (d : AccessControlDomain) × (domain_of_rule (lit "{group}." ++ t) ≡ some d)
      × ((s : Subject) (o : Object) → (domain_match d s o ≡ true) ↔ IsGroupHost t s.groups o.domain)
unfolding domain_of_rule domain_match lit group_test
domain_match_group t = (
  record { name = t; wildcard = false; user_wildcard = false; group_wildcard = true },
  rw (
    not_wildcard b'{' (lit "group}." ++ t) refl,
    not_user t,
    has_prefix-append (lit "{group}") (lit "." ++ t),
    in_range 8 (lit "{group}." ++ t) (omega arith),
  ),
  λ s o. (group_test_sound t s.groups o.domain, group_test_complete t s.groups o.domain),
)

-- A rule that ends where its dot should stand makes the program panic.
pub domain_of_rule_panics :
    (domain_of_rule (lit "{user}") ≡ none) × (domain_of_rule (lit "{group}") ≡ none)
unfolding domain_of_rule lit slice_from has_prefix ◌==◌
domain_of_rule_panics = (refl, refl)
