-- ===== src/Utils/Strings/Cutting.antt =====
-- `SliceString`: what the pieces of a string are.
use mathlib.Core.List.{flatten, append-nil}
use native.Mathlib.Nat.{div-add-mod', le-div_iff_mul-le}
use ldap_totp_nginx_auth.Prelude.{
  Text, [], ◌++◌, ℕ, zero, suc, ◌+◌, ◌-◌, ◌*◌, ◌/◌, ◌%◌, ◌<◌, ◌≤◌, ◌≡◌, sym, ap, ◌∙◌, subst, eqb,
  eqb_iff, false, Bool-cases, inl, inr, arith, length, take, drop, take-append-drop, drop-drop,
  drop_all,
}
use ldap_totp_nginx_auth.Utils.Strings.{slices_from, slice_string}

rejoin : (s : Text) (m d : ℕ) → take d (drop m s) ++ drop (m + d) s ≡ drop m s
rejoin s m d = rw (← drop-drop m d s) (take-append-drop d (drop m s))

-- The last round takes the remainder along, so the pieces make up what stands behind the cut.
flatten-slices_from :
    (s : Text) (d r i left : ℕ)
    → length s ≡ (i + suc left) * d + r
    → flatten (slices_from s d r i (suc left)) ≡ drop (i * d) s
unfolding slices_from flatten
flatten-slices_from s d r i zero h = elim (Bool-cases (eqb r 0)) [
  | inl exact ↦
      let ends : drop (i * d + d) s ≡ [] =
        drop_all (i * d + d) s (omega (arith, (eqb_iff r 0).0 exact)) in
      rw exact
        (subst (λ u. take d (drop (i * d) s) ++ u ≡ drop (i * d) s) ends (rejoin s (i * d) d))
  | inr more ↦ rw (more, append-nil) (rejoin s (i * d) d)
]
flatten-slices_from s d r i (suc left) h =
    let not_last : eqb (suc left) 0 ≡ false = ground arith in
    let next : (i + 1) * d ≡ i * d + d = omega arith in
    let later = flatten-slices_from s d r (i + 1) left (omega arith) in
    rw not_last (
      ap (λ u. take d (drop (i * d) s) ++ u) later
      ∙ ap (λ m. take d (drop (i * d) s) ++ drop m s) next
      ∙ rejoin s (i * d) d)

-- The pieces that a text is cut into make up the text, where the length of a piece is positive and
-- no more than that of the text.
pub flatten-slice_string :
    (s : Text) (d : ℕ) → 0 < d → d ≤ length s → flatten (slice_string s d) ≡ s
unfolding slice_string
flatten-slice_string s d positive long =
    let some_piece = (le-div_iff_mul-le {x = 1} {y = length s} positive).1 (omega arith) in
    let rounds : length s / d ≡ suc (length s / d - 1) = omega (arith, some_piece) in
    let total : length s ≡ (0 + suc (length s / d - 1)) * d + length s % d =
      sym (div-add-mod' (length s) d)
      ∙ ap (λ q. q * d + length s % d) (omega (arith, some_piece)) in
    let start : 0 * d ≡ 0 = omega arith in
    ap (λ q. flatten (slices_from s d (length s % d) 0 q)) rounds
    ∙ flatten-slices_from s d (length s % d) 0 (length s / d - 1) total
    ∙ ap (λ m. drop m s) start
