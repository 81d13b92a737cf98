-- ===== src/Prelude/Bytes.antt =====
-- Go strings: lists of bytes, with the functions of package `strings` that the program calls.
-- The case mappings are those of the ASCII letters.
use Prim.Native.Nat.{ℕ, zero, suc, ◌+◌, ◌-◌}
use Prim.Native.Char.{code}
use Prim.Native.String.{String}
use mathlib.Core.Path.{◌≡◌, refl, sym, subst}
use mathlib.Core.Logic.{◌↔◌}
use mathlib.Core.Bool.{Bool, true, false, ◌&&◌}
use mathlib.Core.Option.{Option, none, some}
use mathlib.Core.List.{List, [], ◌∷◌, ◌++◌, map, reverse}
use native.Mathlib.Omega.{arith}
use ldap_totp_nginx_auth.Prelude.Tests.{eqb, leb, leb_iff, &&-eq-true_iff, if◌then◌else◌}
use ldap_totp_nginx_auth.Prelude.Lists.{
  length, take, drop, length-append, take-append-drop, drop-length-append, take-length-append,
}

abbrev pub Text : Type 0
Text = List ℕ

-- The bytes of an ASCII literal.
unfoldable pub lit : String → Text
lit String.[] = []
lit (String.◌∷◌ c s) = code c ∷ lit s

infix 50 ◌==◌
unfoldable pub ◌==◌ : Text → Text → Bool
[] == [] = true
[] == (d ∷ t) = false
(c ∷ s) == [] = false
(c ∷ s) == (d ∷ t) = eqb c d && (s == t)

pub ==_iff : (s t : Text) → ((s == t) ≡ true) ↔ (s ≡ t)
unfolding ◌==◌
==_iff [] [] = ground arith
==_iff [] (d ∷ t) = ground arith
==_iff (c ∷ s) [] = ground arith
==_iff (c ∷ s) (d ∷ t) = ground (arith, ==_iff s t)

-- `strings.HasPrefix` and `strings.HasSuffix`.
unfoldable pub has_prefix : Text → Text → Bool
has_prefix s p = leb (length p) (length s) && (take (length p) s == p)

unfoldable pub has_suffix : Text → Text → Bool
has_suffix s t = leb (length t) (length s) && (drop (length s - length t) s == t)

-- `strings.ToLower`, `strings.ToUpper` and `strings.EqualFold`.
unfoldable pub lower_byte : ℕ → ℕ
lower_byte c = if leb b'A' c && leb c b'Z' then c + 32 else c

unfoldable pub upper_byte : ℕ → ℕ
upper_byte c = if leb b'a' c && leb c b'z' then c - 32 else c

unfoldable pub to_lower : Text → Text
to_lower s = map lower_byte s

unfoldable pub to_upper : Text → Text
to_upper s = map upper_byte s

unfoldable pub equal_fold : Text → Text → Bool
equal_fold s t = to_lower s == to_lower t

-- `strings.Trim(s, " ")`.
unfoldable pub trim_left : Text → Text
trim_left [] = []
trim_left (c ∷ s) = let rest = trim_left s in if eqb c b' ' then rest else c ∷ s

unfoldable pub trim : Text → Text
trim s = reverse (trim_left (reverse (trim_left s)))

-- `strings.Contains`.
unfoldable pub contains : Text → Text → Bool
contains [] t = has_prefix [] t
contains (c ∷ s) t = if has_prefix (c ∷ s) t then true else contains s t

-- `strings.IndexByte`, with the two sides of the byte in place of its position.
unfoldable pub cut_byte : ℕ → Text → Option (Text × Text)
cut_byte b [] = none
cut_byte b (c ∷ s) =
    let rest : Option (Text × Text) = elim (cut_byte b s) [
      | none ↦ none
      | some p ↦ some (c ∷ p.0, p.1)
    ] in
    if eqb c b then some ([], s) else rest

-- `strings.Split(s, sep)` for a separator of one byte: the first part and the others.
unfoldable pub split : ℕ → Text → Text × List Text
split b [] = ([], [])
split b (c ∷ s) =
    let (part, parts) = split b s in if eqb c b then ([], part ∷ parts) else (c ∷ part, parts)

-- `strings.Join(parts, sep)`.
unfoldable pub join : Text → List Text → Text
join sep [] = []
join sep (p ∷ []) = p
join sep (p ∷ q ∷ ps) = p ++ (sep ++ join sep (q ∷ ps))

-- `strings.ReplaceAll(s, old, new)` for an `old` that is not empty; `skip` bytes belong to a match.
unfoldable pub replace_from : Text → Text → ℕ → Text → Text
replace_from old new skip [] = []
replace_from old new (suc skip) (c ∷ s) = replace_from old new skip s
replace_from old new zero (c ∷ s) = elim (has_prefix (c ∷ s) old) [
  | true ↦ new ++ replace_from old new (length old - 1) s
  | false ↦ c ∷ replace_from old new 0 s
]

unfoldable pub replace_all : Text → Text → Text → Text
replace_all s old new = replace_from old new 0 s

-- The last of the parts that `split` gives.
abbrev pub last_part : Text → List Text → Text
last_part part [] = part
last_part part (next ∷ parts) = last_part next parts

pub ==_refl : (s : Text) → (s == s) ≡ true
==_refl s = (==_iff s s).1 refl

pub has_suffix-append : (p t : Text) → has_suffix (p ++ t) t ≡ true
unfolding has_suffix
has_suffix-append p t =
    let n : length (p ++ t) - length t ≡ length p = omega (arith, length-append p t) in
    let fits : leb (length t) (length (p ++ t)) ≡ true =
      (leb_iff _ _).1 (omega (arith, length-append p t)) in
    rw (n, drop-length-append p t, fits, ==_refl t)

-- A suffix is what stands behind some text, a prefix what stands before one.
pub has_suffix_iff : (s t : Text) → (has_suffix s t ≡ true) ↔ ((p : Text) × (s ≡ p ++ t))
unfolding has_suffix
has_suffix_iff s t = (
  λ h.
      let same = (==_iff _ t).0 ((&&-eq-true_iff _ _).0 h).1 in
      let n = length s - length t in
      (take n s, subst (λ u. s ≡ take n s ++ u) same (sym (take-append-drop n s))),
  λ (p, e). subst (λ u. has_suffix u t ≡ true) (sym e) (has_suffix-append p t),
)

pub has_prefix-append : (p t : Text) → has_prefix (p ++ t) p ≡ true
unfolding has_prefix
has_prefix-append p t =
    let fits : leb (length p) (length (p ++ t)) ≡ true =
      (leb_iff _ _).1 (omega (arith, length-append p t)) in
    rw (take-length-append p t, fits, ==_refl p)

pub has_prefix_iff : (s p : Text) → (has_prefix s p ≡ true) ↔ ((t : Text) × (s ≡ p ++ t))
unfolding has_prefix
has_prefix_iff s p = (
  λ h.
      let same = (==_iff _ p).0 ((&&-eq-true_iff _ _).0 h).1 in
      let n = length p in
      (drop n s, subst (λ u. s ≡ u ++ drop n s) same (sym (take-append-drop n s))),
  λ (t, e). subst (λ u. has_prefix u p ≡ true) (sym e) (has_prefix-append p t),
)

-- What a test over texts computes with.
unfoldable pub texts : Unit {0}
unfolding lit ◌==◌ has_prefix has_suffix lower_byte upper_byte to_lower to_upper equal_fold
    trim_left trim contains cut_byte split join replace_from replace_all
texts = tt
