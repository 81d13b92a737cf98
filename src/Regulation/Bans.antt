-- ===== src/Regulation/Bans.antt =====
-- When a user is banned, and for how long.
use ldap_totp_nginx_auth.Prelude.{
  Text, List, true, refl, ℕ, ◌-◌, ◌*◌, ◌≤◌, ◌<◌, ltb, length, get_elem?_lt, Option, none, some,
  Option-cases, Bool-cases, inl, inr, ◌≡◌, ◌≢◌, sym, ap₂, ◌∙◌, ◌↔◌, arith, ℤ, ◌-ℤ◌, ◌<ℤ◌, int_laws,
  All, Result, ok, err,
}
use ldap_totp_nginx_auth.Utils.Time.{DurationError}
use ldap_totp_nginx_auth.Regulation.{
  AuthenticationAttempt, RegulationConfiguration, Regulator, regulator_of, new_regulator,
  not_banned, banned, panics, compare_attempts, attempt_size, max_alloc, judge_attempts, judge,
  regulate,
}
use ldap_totp_nginx_auth.Regulation.Failures.{
  judge_sound, judge_complete, judge_attempts_full, All_get_elem?, judge_attempts-failures, HasRoom,
  failures, failures_full, IsBruteForce, judge-none,
}

-- An enabled regulator that allows at least one attempt bans a user until some time exactly if the
-- latest attempts that the storage loads are failures, as many as it allows, the first and the
-- last of them less than its time apart, that time is the latest attempt's with the ban added, and
-- the slice for the failures can be made.
pub regulate_banned_iff :
    (r : Regulator) (load : Text → ℤ → Option (List AuthenticationAttempt)) (now : ℤ)
    (username : Text) (until : ℤ)
    → r.enabled ≡ true
    → 0 < r.max_retries
    → (regulate r load now username ≡ banned until) ↔ (
        (attempts : List AuthenticationAttempt) × (load username (now -ℤ r.ban_time)
          ≡ some attempts)
        × HasRoom r
        × IsBruteForce r attempts until)
unfolding regulate
regulate_banned_iff r load now username until enabled positive = simp enabled (sound, complete)
  where
    sound :
        judge r (load username (now -ℤ r.ban_time)) ≡ banned until
        → (attempts : List AuthenticationAttempt) × (load username (now -ℤ r.ban_time)
            ≡ some attempts)
          × HasRoom r
          × IsBruteForce r attempts until
    sound e = elim (Option-cases (load username (now -ℤ r.ban_time))) [
      | inl failed ↦ absurd (judge-none r until (rw failed at e))
      | inr (attempts, loaded) ↦
          (let (room, b) = judge_sound r attempts until positive (rw loaded at e) in
            (attempts, loaded, room, b))
    ]

    complete :
        ((attempts : List AuthenticationAttempt) × (load username (now -ℤ r.ban_time)
            ≡ some attempts)
          × HasRoom r
          × IsBruteForce r attempts until)
        → judge r (load username (now -ℤ r.ban_time)) ≡ banned until
    complete (attempts, loaded, room, b) =
        rw loaded (judge_complete r attempts until positive room b)

-- A ban that an enabled regulator announces has not ended yet, where it allows at least one
-- attempt and the storage loads only attempts that are later than the time it is asked for.
pub regulate_banned_later :
    (r : Regulator) (load : Text → ℤ → Option (List AuthenticationAttempt)) (now : ℤ)
    (username : Text) (until : ℤ)
    → ((from : ℤ) (attempts : List AuthenticationAttempt)
        → load username from ≡ some attempts
        → All (λ a. from <ℤ a.time) attempts)
    → r.enabled ≡ true
    → 0 < r.max_retries
    → regulate r load now username ≡ banned until
    → now <ℤ until
regulate_banned_later r load now username until recent enabled positive e =
    let (attempts, loaded, room, b) =
      (regulate_banned_iff r load now username until enabled positive).0 e in
    let later =
      All_get_elem? (λ a. now -ℤ r.ban_time <ℤ a.time) attempts 0
        (recent (now -ℤ r.ban_time) attempts loaded) b.first in
    rw b.ends (omega int_laws)

regulator_of-enabled :
    (m : ℕ) (find ban : Result DurationError ℤ) (r : Regulator)
    → regulator_of m find ban ≡ some r
    → r.enabled ≡ ltb 0 r.max_retries
unfolding regulator_of
regulator_of-enabled m (err _) ban r made = absurd (cc made)
regulator_of-enabled m (ok find) (err _) r made = absurd (cc made)
regulator_of-enabled m (ok find) (ok ban) r made = ground arith

new_regulator-enabled :
    (c : Option RegulationConfiguration) (r : Regulator)
    → new_regulator c ≡ some r
    → r.enabled ≡ ltb 0 r.max_retries
unfolding new_regulator
new_regulator-enabled none r made = ground arith
new_regulator-enabled (some c) r made = regulator_of-enabled _ _ _ r made

compare_attempts-ne-panics :
    (r : Regulator) (latest oldest : AuthenticationAttempt)
    → compare_attempts r (some latest) (some oldest) ≢ panics
unfolding compare_attempts
compare_attempts-ne-panics r latest oldest = ground arith

judge_attempts-ne-panics :
    (r : Regulator) (attempts : List AuthenticationAttempt)
    → 0 < r.max_retries
    → judge_attempts r attempts ≢ panics
judge_attempts-ne-panics r attempts positive e =
    elim (Bool-cases (ltb (length (failures r.max_retries attempts)) r.max_retries)) [
      | inl short ↦ not_banned-ne-panics (rw (judge_attempts-failures r attempts, short) at e)
      | inr full ↦
          let enough : r.max_retries ≤ length (failures r.max_retries attempts) = ground arith in
          let (same, failed, long) = failures_full r.max_retries attempts enough in
          let (latest, first) = get_elem?_lt 0 attempts (omega arith) in
          let (oldest, last) = get_elem?_lt (r.max_retries - 1) attempts (omega arith) in
          compare_attempts-ne-panics r latest oldest (
            sym
              (judge_attempts_full r attempts positive enough ∙ ap₂ (compare_attempts r) first last)
            ∙ e)
    ]
  where
    not_banned-ne-panics : not_banned ≡ panics → ⊥
    not_banned-ne-panics h = cc

judge_panics_iff :
    (r : Regulator) (loaded : Option (List AuthenticationAttempt))
    → 0 < r.max_retries
    → (judge r loaded ≡ panics) ↔ ((loaded ≢ none) × ¬ HasRoom r)
unfolding judge
judge_panics_iff r none positive = (λ e. absurd (cc e), λ (given, large). absurd (given refl))
judge_panics_iff r (some attempts) positive =
    elim (Bool-cases (ltb max_alloc (attempt_size * r.max_retries))) [
      | inl large ↦ simp large (λ e. (λ given. absurd (cc given), λ room. ground arith), λ h. refl)
      | inr small ↦ simp small (
        λ e. absurd (judge_attempts-ne-panics r attempts positive e),
        λ (given, large). absurd (large (ground arith)),
      )
    ]

-- A regulator made from a configuration panics exactly where the storage loads the attempts of a
-- user and the configured number of retries is one for which no slice can be made.
pub regulate_panics_iff :
    (c : Option RegulationConfiguration) (r : Regulator)
    (load : Text → ℤ → Option (List AuthenticationAttempt)) (now : ℤ) (username : Text)
    → new_regulator c ≡ some r
    → (regulate r load now username ≡ panics)
      ↔ ((load username (now -ℤ r.ban_time) ≢ none) × ¬ HasRoom r)
unfolding regulate
regulate_panics_iff c r load now username made =
    let enabled = new_regulator-enabled c r made in
    elim (Bool-cases (ltb 0 r.max_retries)) [
      | inl positive ↦
          simp (enabled, positive)
            (judge_panics_iff r (load username (now -ℤ r.ban_time)) (ground arith))
      | inr disabled ↦
          simp (enabled, disabled)
            (λ e. absurd (cc e), λ (given, large). absurd (large (ground arith)))
    ]
