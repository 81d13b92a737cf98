-- ===== src/Authentication/LdapProvider/Escaping.antt =====
-- The escaping of a name before it goes into a filter.
use ldap_totp_nginx_auth.Prelude.{
  if◌then◌else◌, eqb, eqb_iff, Text, [], ◌∷◌, ◌==◌, lit, has_prefix, replace_from, replace_all,
  Bool-cases, ℕ, inl, inr, All, ◌≡◌, ◌≢◌, refl, sym, subst, arith,
}
use ldap_totp_nginx_auth.Authentication.Directory.{Directory}
use ldap_totp_nginx_auth.Authentication.LdapProvider.{special_ldap_runes, escape_runes, ldap_escape}

-- A backslash before each `c`.
abbrev guard : ℕ → Text → Text
guard c [] = []
guard c (x ∷ s) = let rest = guard c s in if eqb x c then b'\\' ∷ c ∷ rest else x ∷ rest

replace_from-guard : (c : ℕ) (s : Text) → replace_from (c ∷ []) (b'\\' ∷ c ∷ []) 0 s ≡ guard c s
unfolding replace_from has_prefix ◌==◌
replace_from-guard c [] = refl
replace_from-guard c (x ∷ s) = ground (arith, replace_from-guard c s)

-- Every `d` stands behind a backslash, where `prev` is the byte before the text.
abbrev pub IsGuarded : ℕ → ℕ → Text → Type 0
IsGuarded d prev [] = Unit
IsGuarded d prev (x ∷ s) = (x ≡ d → prev ≡ b'\\') × IsGuarded d x s

-- Guarding a byte guards it, and leaves another guarded.
guard-IsGuarded : (c prev : ℕ) (s : Text) → c ≢ b'\\' → IsGuarded c prev (guard c s)
guard-IsGuarded c prev [] n = tt
guard-IsGuarded c prev (x ∷ s) n = elim (Bool-cases (eqb x c)) [
  | inl e ↦ rw e (λ h. absurd (n (sym h)), (λ _. refl, guard-IsGuarded c c s n))
  | inr e ↦ rw e (λ h. absurd (ground (arith, eqb_iff x c)), guard-IsGuarded c x s n)
]

guard-keeps :
    (c d prev : ℕ) (s : Text)
    → c ≢ b'\\'
    → d ≢ b'\\'
    → IsGuarded d prev s
    → IsGuarded d prev (guard c s)
guard-keeps c d prev [] n m h = tt
guard-keeps c d prev (x ∷ s) n m (h, hs) = elim (Bool-cases (eqb x c)) [
  | inl e ↦
      let same_byte : x ≡ c = (eqb_iff x c).0 e in
      let rest : IsGuarded d c (guard c s) =
        subst (λ y. IsGuarded d y (guard c s)) same_byte (guard-keeps c d x s n m hs) in
      rw e (λ k. absurd (m (sym k)), (λ _. refl, rest))
  | inr e ↦ rw e (h, guard-keeps c d x s n m hs)
]

-- Guarding brings in backslashes alone.
guard-All : (P : ℕ → Type 0) (c : ℕ) (s : Text) → P b'\\' → All P s → All P (guard c s)
guard-All P c [] slash h = tt
guard-All P c (x ∷ s) slash (h, hs) = elim (Bool-cases (eqb x c)) [
  | inl e ↦ rw e (slash, (subst P ((eqb_iff x c).0 e) h, guard-All P c s slash hs))
  | inr e ↦ rw e (h, guard-All P c s slash hs)
]

escape_runes-All : (P : ℕ → Type 0) (cs s : Text) → P b'\\' → All P s → All P (escape_runes cs s)
unfolding escape_runes replace_all
escape_runes-All P [] s slash h = h
escape_runes-All P (c ∷ cs) s slash h =
    escape_runes-All P cs (replace_all s (c ∷ []) (b'\\' ∷ c ∷ [])) slash
      (subst (All P) (sym (replace_from-guard c s)) (guard-All P c s slash h))

escape_runes-keeps :
    (d : ℕ) (cs s : Text)
    → d ≢ b'\\'
    → All (λ c. c ≢ b'\\') cs
    → IsGuarded d 0 s
    → IsGuarded d 0 (escape_runes cs s)
unfolding escape_runes replace_all
escape_runes-keeps d [] s n ns h = h
escape_runes-keeps d (c ∷ cs) s n (m, ns) h =
    escape_runes-keeps d cs (replace_all s (c ∷ []) (b'\\' ∷ c ∷ [])) n ns
      (subst (IsGuarded d 0) (sym (replace_from-guard c s)) (guard-keeps c d 0 s m n h))

escape_runes-IsGuarded :
    (cs s : Text) → All (λ c. c ≢ b'\\') cs → All (λ d. IsGuarded d 0 (escape_runes cs s)) cs
unfolding escape_runes replace_all
escape_runes-IsGuarded [] s ns = tt
escape_runes-IsGuarded (c ∷ cs) s (n, ns) =
    let first = replace_all s (c ∷ []) (b'\\' ∷ c ∷ []) in
    (
      escape_runes-keeps c cs first n ns
          (subst (IsGuarded c 0) (sym (replace_from-guard c s)) (guard-IsGuarded c 0 s n)),
      escape_runes-IsGuarded cs first ns,
    )

-- No parenthesis, asterisk or zero byte.
abbrev pub IsPlain : ℕ → Type 0
IsPlain b = (b ≢ b'(') × (b ≢ b')') × (b ≢ b'*') × (b ≢ 0)

special_runes_lem : All (λ c. c ≢ b'\\') special_ldap_runes
unfolding lit
special_runes_lem = (
  λ e. cc e,
  (λ e. cc e, (λ e. cc e, (λ e. cc e, (λ e. cc e, (λ e. cc e, (λ e. cc e, (λ e. cc e, tt))))))),
)

module _ (dir : Directory) where
  -- Where the library leaves no parenthesis, asterisk or zero byte in a name, neither does the
  -- escaping of the provider, and each of its special bytes stands directly behind a backslash.
  pub ldap_escape-IsGuarded :
      (input_username : Text)
      → All IsPlain (dir.escape_filter input_username)
      → All IsPlain (ldap_escape dir input_username)
        × All (λ d. IsGuarded d 0 (ldap_escape dir input_username)) special_ldap_runes
  unfolding ldap_escape
  ldap_escape-IsGuarded input_username h = (
    escape_runes-All IsPlain special_ldap_runes (dir.escape_filter input_username)
        (λ e. cc e, λ e. cc e, λ e. cc e, λ e. cc e) h,
    escape_runes-IsGuarded special_ldap_runes (dir.escape_filter input_username) special_runes_lem,
  )
