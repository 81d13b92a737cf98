-- ===== src/Utils/Strings/Slices.antt =====
-- Searching and comparing slices of strings.
use mathlib.Core.List
use native.Mathlib.Bridge.{from_ℕ, from_le⁻¹}
use mathlib.Core.Logic.Or
use mathlib.Core.List.{
  Mem, Mem-prop, mem-cons, mem-cons_of_mem, not-mem-nil, cons-subset, Nodup, Perm, Subset,
}
use mathlib.Core.HLevel.{×_prop, ¬_prop}
use mathlib.Core.List.Nodup
use mathlib.Core.List.Subperm
use mathlib.Core.List.Perm
use ldap_totp_nginx_auth.Prelude.{
  Text, List, [], ◌∷◌, ◌==◌, ==_iff, Bool, true, false, any, all, length, eqb_iff, arith, ◌≡◌, refl,
  ◌↔◌, ◌||◌, Bool-cases, sym, ap, ◌∙◌, suc, inl, inr, &&-eq-true_iff,
}
use ldap_totp_nginx_auth.Utils.Strings.{
  is_string_in_slice, slices_different, is_string_slices_different, missing_from,
}

is_true_prop : (b : Bool) → IsProp (b ≡ true)
is_true_prop b = hlevel

or_right : (a b : Bool) → b ≡ true → (a || b) ≡ true
or_right a b h = ground arith

-- The loop of a search finds a string exactly where it is an element.
pub is_string_in_slice_iff :
    (s : Text) (xs : List Text) → (is_string_in_slice s xs ≡ true) ↔ Mem s xs
unfolding is_string_in_slice any
is_string_in_slice_iff s [] = (λ h. cc, λ m. absurd (not-mem-nil m))
is_string_in_slice_iff s (x ∷ xs) = (
  λ h. elim (Bool-cases (x == s)) [
    | inl here ↦ mem-cons.1 (Or.inl (sym ((==_iff x s).0 here)))
    | inr other ↦ mem-cons.1 (Or.inr ((is_string_in_slice_iff s xs).0 (rw other at h)))
  ],
  λ m.
      Or.elim (is_true_prop _) (mem-cons.0 m) (λ e. rw ((==_iff x s).1 (sym e)) refl)
        (λ later. or_right _ _ ((is_string_in_slice_iff s xs).1 later)),
)

all_found : (a b : List Text) → all (λ s. is_string_in_slice s b) a ≡ true → Subset a b
unfolding all
all_found [] b h s m = absurd (not-mem-nil m)
all_found (x ∷ a) b h s m =
    let (found, rest) = (&&-eq-true_iff _ _).0 h in
    Or.elim Mem-prop (mem-cons.0 m) (λ e. rw e ((is_string_in_slice_iff x b).0 found))
      (λ later. all_found a b rest s later)

all_found_of_subset : (a b : List Text) → Subset a b → all (λ s. is_string_in_slice s b) a ≡ true
unfolding all
all_found_of_subset [] b h = refl
all_found_of_subset (x ∷ a) b h =
    let (found, rest) = cons-subset.0 h in
    (&&-eq-true_iff _ _).1 ((is_string_in_slice_iff x b).1 found, all_found_of_subset a b rest)

lengths_agree : (xs : List Text) → from_ℕ (List.length xs) ≡ length xs
lengths_agree [] = refl
lengths_agree (x ∷ xs) = ap suc (lengths_agree xs)

-- Where the first of two slices has no duplicates, they count as the same exactly if one is a
-- permutation of the other.
pub is_string_slices_different-Perm :
    (a b : List Text) → Nodup a → (is_string_slices_different a b ≡ false) ↔ Perm a b
unfolding is_string_slices_different slices_different
is_string_slices_different-Perm a b nodup = (
  λ e.
      let same : length b ≡ length a = ground arith in
      let found : all (λ s. is_string_in_slice s b) a ≡ true = ground arith in
      Subperm.perm_of_length_le (Nodup.subperm nodup (all_found a b found)) (
        from_le⁻¹ (List.length b) (List.length a)
          (omega (arith, lengths_agree a, lengths_agree b))),
  λ p.
      let same : length a ≡ length b =
        sym (lengths_agree a) ∙ ap from_ℕ (Perm.length-eq p) ∙ lengths_agree b in
      rw ((eqb_iff _ _).1 same, all_found_of_subset a b (Perm.subset p)),
)

not_found : (s : Text) (xs : List Text) → is_string_in_slice s xs ≡ false → ¬ Mem s xs
not_found s xs lost m = let found = (is_string_in_slice_iff s xs).1 m in absurd (cc lost)

missing_from_iff :
    (s : Text) (xs other : List Text) → Mem s (missing_from xs other) ↔ (Mem s xs × (¬ Mem s other))
unfolding missing_from
missing_from_iff s [] other = (λ m. absurd (not-mem-nil m), λ m. absurd (not-mem-nil m.0))
missing_from_iff s (x ∷ xs) other = elim (Bool-cases (is_string_in_slice x other)) [
  | inl found ↦
      let known = (is_string_in_slice_iff x other).0 found in
      rw found (
        λ m. let (old, new) = (missing_from_iff s xs other).0 m in (mem-cons_of_mem x old, new),
        λ (m, new).
            Or.elim Mem-prop (mem-cons.0 m) (λ e. absurd (new (rw e known)))
              (λ later. (missing_from_iff s xs other).1 (later, new)),
      )
  | inr lost ↦ rw lost (
    λ m.
        Or.elim (×_prop Mem-prop ¬_prop) (mem-cons.0 m)
          (λ e. (mem-cons.1 (Or.inl e), λ k. not_found x other lost (rw e at k)))
          (λ later.
            let (old, new) = (missing_from_iff s xs other).0 later in (mem-cons_of_mem x old, new)),
    λ (m, new).
        Or.elim Mem-prop (mem-cons.0 m) (λ e. mem-cons.1 (Or.inl e))
          (λ later. mem-cons.1 (Or.inr ((missing_from_iff s xs other).1 (later, new)))),
  )
]
