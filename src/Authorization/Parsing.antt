-- ===== src/Authorization/Parsing.antt =====
-- What the texts of policies and subjects become.
use ldap_totp_nginx_auth.Prelude.{
  Text, List, [], ◌∷◌, ◌++◌, ==_iff, lit, true, ◌≡◌, ◌≢◌, ◌↔◌, inl, inr, arith, none, Option-cases,
  All, is_empty,
}
use ldap_totp_nginx_auth.Authorization.{bypass, one_factor, two_factor, denied, policy_to_level}
use ldap_totp_nginx_auth.Authorization.Rules.{AccessControlSubject}
use ldap_totp_nginx_auth.Authorization.Config.{
  schema_subject_to_acl_subject, add_subject, add_subjects, schema_subjects_to_acl,
}

texts_differ :
    (lit "bypass" ≢ lit "one_factor")
    × (lit "bypass" ≢ lit "two_factor")
    × (lit "one_factor" ≢ lit "two_factor")
unfolding lit
texts_differ = ground arith

-- The three policies that may let a request through are named by their texts alone, and every
-- other text denies.
pub policy_to_level_iff :
    (p : Text)
    → ((policy_to_level p ≡ bypass) ↔ (p ≡ lit "bypass"))
      × ((policy_to_level p ≡ one_factor) ↔ (p ≡ lit "one_factor"))
      × ((policy_to_level p ≡ two_factor) ↔ (p ≡ lit "two_factor"))
      × ((policy_to_level p ≡ denied)
          ↔ ((p ≢ lit "bypass") × (p ≢ lit "one_factor") × (p ≢ lit "two_factor")))
unfolding policy_to_level
policy_to_level_iff p = ground (
  arith,
  texts_differ,
  ==_iff p (lit "bypass"),
  ==_iff p (lit "one_factor"),
  ==_iff p (lit "two_factor"),
)

abbrev pub IsNoSubject : Text → Type 0
IsNoSubject item = schema_subject_to_acl_subject item ≡ none

append-ne-nil :
    (subjects : List AccessControlSubject) (s : AccessControlSubject) → subjects ++ s ∷ [] ≢ []
append-ne-nil [] s e = cc
append-ne-nil (x ∷ subjects) s e = cc

add_subjects-eq-nil_iff :
    (subjects : List AccessControlSubject) (items : List Text)
    → (add_subjects subjects items ≡ []) ↔ ((subjects ≡ []) × All IsNoSubject items)
unfolding add_subjects add_subject
add_subjects-eq-nil_iff subjects [] = ground arith
add_subjects-eq-nil_iff subjects (item ∷ items) =
    elim (Option-cases (schema_subject_to_acl_subject item)) [
      | inl nothing ↦ rw nothing (ground (arith, add_subjects-eq-nil_iff subjects items))
      | inr (s, found) ↦ rw found (
          ground
            (arith, add_subjects-eq-nil_iff (subjects ++ s ∷ []) items, append-ne-nil subjects s))
    ]

is_empty_iff : (xs : List AccessControlSubject) → (is_empty xs ≡ true) ↔ (xs ≡ [])
is_empty_iff [] = ground arith
is_empty_iff (x ∷ xs) = ground arith

-- A configured list of subjects becomes no criterion at all exactly if none of its entries is that
-- of a user or a group.
pub schema_subjects_to_acl-eq-nil_iff :
    (rules : List (List Text)) → (schema_subjects_to_acl rules ≡ []) ↔ All (All IsNoSubject) rules
unfolding schema_subjects_to_acl
schema_subjects_to_acl-eq-nil_iff [] = ground arith
schema_subjects_to_acl-eq-nil_iff (rule ∷ rules) = ground (
  arith,
  is_empty_iff (add_subjects [] rule),
  add_subjects-eq-nil_iff [] rule,
  schema_subjects_to_acl-eq-nil_iff rules,
)
