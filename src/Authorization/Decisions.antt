-- ===== src/Authorization/Decisions.antt =====
-- What the authorizer decides.
use ldap_totp_nginx_auth.Prelude.{
  Text, List, [], ◌∷◌, ◌++◌, ◌==◌, ==_iff, lit, true, false, any, any_iff, Any, All, ◌≡◌, refl, ap,
  ◌↔◌, ◌⊎◌, inl, inr, arith, ◌∙◌, some, Bool-cases, Option-cases,
}
use ldap_totp_nginx_auth.Authorization.{Level, two_factor, Subject, Object}
use ldap_totp_nginx_auth.Authorization.Rules.{
  AccessControlRule, Authorizer, rule_match, first_match, get_required_level, is_two_factor,
  is_second_factor_enabled,
}

module _ (s : Subject) (o : Object) where
  abbrev pub Misses : AccessControlRule → Type 0
  Misses r = rule_match r s o ≡ false

  -- The rule that decides, with those before it, which all miss.
  pub record IsDecidedBy (rules : List AccessControlRule) (level : Level) : Type 0 where
    pub before : List AccessControlRule
    pub rule : AccessControlRule
    pub after : List AccessControlRule
    pub position : rules ≡ before ++ rule ∷ after
    pub missed : All Misses before
    pub hit : rule_match rule s o ≡ true
    pub policy : rule.policy ≡ level

  first_match_sound :
      (rules : List AccessControlRule) (default level : Level)
      → first_match rules default s o ≡ level
      → IsDecidedBy rules level ⊎ (All Misses rules × (default ≡ level))
  unfolding first_match
  first_match_sound [] default level e = inr (tt, e)
  first_match_sound (r ∷ rules) default level e = elim (Bool-cases (rule_match r s o)) [
    | inl hit ↦ inl (record {
      before = [];
      rule = r;
      after = rules;
      position = refl;
      missed = tt;
      hit = hit;
      policy = rw hit at e;
    })
    | inr miss ↦ elim (first_match_sound rules default level (rw miss at e)) [
      | inl d ↦ inl (record {
        before = r ∷ d.before;
        rule = d.rule;
        after = d.after;
        position = ap (λ l. r ∷ l) d.position;
        missed = (miss, d.missed);
        hit = d.hit;
        policy = d.policy;
      })
      | inr (all, same) ↦ inr ((miss, all), same)
    ]
  ]

  first_match_decided :
      (before : List AccessControlRule) (r : AccessControlRule) (after : List AccessControlRule)
      (default : Level)
      → All Misses before
      → rule_match r s o ≡ true
      → first_match (before ++ r ∷ after) default s o ≡ r.policy
  unfolding first_match
  first_match_decided [] r after default m hit = rw hit
  first_match_decided (b ∷ before) r after default (miss, m) hit =
      rw miss (first_match_decided before r after default m hit)

  first_match_default :
      (rules : List AccessControlRule) (default : Level)
      → All Misses rules
      → first_match rules default s o ≡ default
  unfolding first_match
  first_match_default [] default m = refl
  first_match_default (r ∷ rules) default (miss, m) = rw miss (first_match_default rules default m)

  -- The level that a request requires is the policy of the first rule that matches it, and the
  -- default policy exactly where none does.
  pub get_required_level_iff :
      (p : Authorizer) (level : Level)
      → (get_required_level p s o ≡ level)
        ↔ (IsDecidedBy p.rules level ⊎ (All Misses p.rules × (p.default_policy ≡ level)))
  unfolding get_required_level
  get_required_level_iff p level = (first_match_sound p.rules p.default_policy level, complete)
    where
      complete :
          IsDecidedBy p.rules level ⊎ (All Misses p.rules × (p.default_policy ≡ level))
          → first_match p.rules p.default_policy s o ≡ level
      complete (inl d) =
          ap (λ l. first_match l p.default_policy s o) d.position
          ∙ first_match_decided d.before d.rule d.after p.default_policy d.missed d.hit
          ∙ d.policy
      complete (inr (m, same)) = first_match_default p.rules p.default_policy m ∙ same

is_two_factor_iff : (l : Level) → (is_two_factor l ≡ true) ↔ (l ≡ two_factor)
is_two_factor_iff l = ground arith

-- Two-factor authentication counts as enabled exactly if the default policy, the policy of a rule
-- or that of a client of the identity provider asks for it.
pub is_second_factor_enabled_iff :
    (p : Authorizer)
    → (is_second_factor_enabled p ≡ true) ↔ (
        (p.default_policy ≡ two_factor)
        ⊎ (Any (λ r. r.policy ≡ two_factor) p.rules
            ⊎ ((policies : List Text) × (p.client_policies ≡ some policies)
                × Any (λ c. c ≡ lit "two_factor") policies)))
unfolding is_second_factor_enabled
is_second_factor_enabled_iff p = elim (Option-cases p.client_policies) [
  | inl no_provider ↦ rw no_provider (ground (arith, in_rules))
  | inr (policies, provider) ↦ rw provider (
      ground (
        arith,
        in_rules,
        any_iff (λ c. c ≡ lit "two_factor") (λ c. c == lit "two_factor")
            (λ c. ==_iff c (lit "two_factor")) policies,
      ))
]
  where
    in_rules :
        (any (λ r. is_two_factor r.policy) p.rules ≡ true)
        ↔ Any (λ r. r.policy ≡ two_factor) p.rules
    in_rules =
        any_iff (λ r. r.policy ≡ two_factor) (λ r. is_two_factor r.policy)
          (λ r. is_two_factor_iff r.policy) p.rules
