-- ===== src/Authorization/Matching.antt =====
-- When a rule matches a subject and an object.
use ldap_totp_nginx_auth.Prelude.{
  if◌then◌else◌, List, [], ◌∷◌, ◌==◌, ==_iff, Bool, true, false, ◌||◌, ◌≡◌, refl, ◌↔◌, ◌⊎◌, inl,
  inr, arith, any, all, any_iff, all_iff, Any, All, is_empty, Bool-cases,
}
use ldap_totp_nginx_auth.Utils.Strings.{is_string_in_slice}
use ldap_totp_nginx_auth.Authorization.{Subject, Object, is_anonymous}
use ldap_totp_nginx_auth.Authorization.Rules.{
  AccessControlRule, domain_match, resource_match, net_contains, subject_match, subjects_match,
  is_match_for_domains, is_match_for_resources, is_match_for_methods, is_match_for_networks,
  is_match_for_subjects, rule_match,
}

-- A criterion that is left out holds, one that is given holds for some element.
abbrev pub Holds {ℓ} : {A : Type ℓ} → (A → Type 0) → List A → Type 0
Holds P xs = (is_empty xs ≡ true) ⊎ Any P xs

or_true : (b : Bool) → (b || true) ≡ true
or_true b = ground arith

or_false : (b : Bool) → (b || false) ≡ b
or_false b = ground arith

same_iff : (b : Bool) → (b ≡ true) ↔ (b ≡ true)
same_iff b = (λ h. h, λ h. h)

any-Holds_iff {ℓ} :
    {A : Type ℓ} (P : A → Type 0) (p : A → Bool)
    → ((x : A) → (p x ≡ true) ↔ P x)
    → (xs : List A) → ((if is_empty xs then true else any p xs) ≡ true) ↔ Holds P xs
any-Holds_iff P p h [] = ground arith
any-Holds_iff P p h (x ∷ xs) = ground (arith, any_iff P p h (x ∷ xs))

module _ (s : Subject) (o : Object) where
  -- What a rule asks of a request, criterion by criterion.
  pub record IsMatch (r : AccessControlRule) : Type 0 where
    pub domains : Holds (λ d. domain_match d s o ≡ true) r.domains
    pub resources : Holds (λ x. resource_match x o ≡ true) r.resources
    pub methods : Holds (λ m. m ≡ o.method) r.methods
    pub networks : Holds (λ n. net_contains n s.ip ≡ true) r.networks
    pub subjects : (is_anonymous s ≡ true) ⊎ Holds (All (λ x. subject_match x s ≡ true)) r.subjects

  module _ (r : AccessControlRule) where
    domains_iff :
        (is_match_for_domains s o r ≡ true) ↔ Holds (λ d. domain_match d s o ≡ true) r.domains
    unfolding is_match_for_domains
    domains_iff = any-Holds_iff _ (λ d. domain_match d s o) (λ d. same_iff _) r.domains

    resources_iff :
        (is_match_for_resources o r ≡ true) ↔ Holds (λ x. resource_match x o ≡ true) r.resources
    unfolding is_match_for_resources
    resources_iff = any-Holds_iff _ (λ x. resource_match x o) (λ x. same_iff _) r.resources

    methods_iff : (is_match_for_methods o r ≡ true) ↔ Holds (λ m. m ≡ o.method) r.methods
    unfolding is_match_for_methods is_string_in_slice
    methods_iff = any-Holds_iff _ (λ m. m == o.method) (λ m. ==_iff m o.method) r.methods

    networks_iff :
        (is_match_for_networks s r ≡ true) ↔ Holds (λ n. net_contains n s.ip ≡ true) r.networks
    unfolding is_match_for_networks
    networks_iff = any-Holds_iff _ (λ n. net_contains n s.ip) (λ n. same_iff _) r.networks

    subjects_iff :
        (is_match_for_subjects s r ≡ true)
        ↔ ((is_anonymous s ≡ true) ⊎ Holds (All (λ x. subject_match x s ≡ true)) r.subjects)
    unfolding is_match_for_subjects subjects_match
    subjects_iff =
        let listed =
          any-Holds_iff (All (λ x. subject_match x s ≡ true))
            (λ xs. all (λ x. subject_match x s) xs)
            (λ xs.
              all_iff (λ x. subject_match x s ≡ true) (λ x. subject_match x s) (λ x. same_iff _) xs)
            r.subjects in
        elim (Bool-cases (is_anonymous s)) [
          | inl anonymous ↦ (λ h. inl anonymous, λ h. rw (anonymous, or_true) refl)
          | inr named ↦ rw (named, or_false) (λ h. inr (listed.0 h), λ h. listed.1 (ground arith))
        ]

    -- A rule matches a request exactly if each of its five criteria is left out or met, where the
    -- subjects criterion is met by every anonymous request.
    pub rule_match_iff : (rule_match r s o ≡ true) ↔ IsMatch r
    unfolding rule_match
    rule_match_iff =
        ground (arith, domains_iff, resources_iff, methods_iff, networks_iff, subjects_iff)

  -- For an anonymous request a rule decides as it would without its subjects.
  pub rule_match_anonymous :
      (r : AccessControlRule)
      → is_anonymous s ≡ true
      → rule_match r s o ≡ rule_match (record r { subjects = [] }) s o
  unfolding rule_match is_match_for_domains is_match_for_resources is_match_for_methods
      is_match_for_networks is_match_for_subjects
  rule_match_anonymous r anonymous = rw (anonymous, or_true)
