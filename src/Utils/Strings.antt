-- ===== src/Utils/Strings.antt =====
-- internal/utils/strings.go: searches in slices of strings, comparison and slicing.
pub mod Slices
pub mod Cutting
use ldap_totp_nginx_auth.Prelude.{
  Text, List, [], ◌∷◌, ◌++◌, ◌==◌, Bool, true, false, not, any, all, equal_fold, contains, ℕ, zero,
  suc, length, take, drop, ◌/◌, ◌%◌, ◌*◌, ◌+◌, eqb, ◌&&◌, if◌then◌else◌,
}

unfoldable pub is_string_in_slice : Text → List Text → Bool
is_string_in_slice needle haystack = any (λ b. b == needle) haystack

unfoldable pub is_string_in_slice_fold : Text → List Text → Bool
is_string_in_slice_fold needle haystack = any (λ b. equal_fold b needle) haystack

unfoldable pub is_string_in_slice_contains : Text → List Text → Bool
is_string_in_slice_contains needle haystack = any (λ b. contains needle b) haystack

-- `isStringSlicesDifferent`, over the method that searches for one string.
unfoldable pub slices_different : (Text → List Text → Bool) → List Text → List Text → Bool
slices_different method a b =
    if eqb (length a) (length b) then not (all (λ s. method s b) a) else true

unfoldable pub is_string_slices_different : List Text → List Text → Bool
is_string_slices_different a b = slices_different is_string_in_slice a b

unfoldable pub is_string_slices_different_fold : List Text → List Text → Bool
is_string_slices_different_fold a b = slices_different is_string_in_slice_fold a b

-- The strings of the first slice that the second lacks: each loop of `StringSlicesDelta`.
unfoldable pub missing_from : List Text → List Text → List Text
missing_from [] other = []
missing_from (s ∷ slice) other =
    let rest = missing_from slice other in if is_string_in_slice s other then rest else s ∷ rest

-- `StringSlicesDelta`: what was added and what was removed.
unfoldable pub string_slices_delta : List Text → List Text → List Text × List Text
string_slices_delta before after = (missing_from after before, missing_from before after)

-- The loop of `SliceString`: `left` rounds remain, `i` are done; `d` divides.
unfoldable pub slices_from : Text → ℕ → ℕ → ℕ → ℕ → List Text
slices_from s d r i zero = []
slices_from s d r i (suc left) =
    let rest = slices_from s d r (i + 1) left in
    let cut = take d (drop (i * d) s) in
    if eqb left 0 && not (eqb r 0) then cut ∷ drop (i * d + d) s ∷ rest else cut ∷ rest

-- `SliceString`, for a `d` that is not 0 (Go panics on a division by 0).
unfoldable pub slice_string : Text → ℕ → List Text
slice_string s d = slices_from s d (length s % d) 0 (length s / d)

-- What a test of these functions computes with.
unfoldable pub strings : Unit {0}
unfolding is_string_in_slice is_string_in_slice_fold is_string_in_slice_contains slices_different
    is_string_slices_different is_string_slices_different_fold missing_from string_slices_delta
    slices_from slice_string any all ◌==◌ equal_fold contains
strings = tt
