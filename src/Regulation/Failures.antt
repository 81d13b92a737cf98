-- ===== src/Regulation/Failures.antt =====
-- The failures that the loop of `Regulate` collects, and the ban that they lead to.
use mathlib.Core.List.{append-nil, append_assoc}
use ldap_totp_nginx_auth.Prelude.{
  if◌then◌else◌, List, [], ◌∷◌, ◌++◌, Bool, true, false, ◌||◌, ℕ, zero, suc, ◌+◌, ◌-◌, ◌*◌, ◌≤◌,
  ◌<◌, leb, ltb, length, length-append, length-take, take, get_elem?, get_elem?-take,
  lt_of_get_elem?, Option, none, some, Bool-cases, inl, inr, ◌≡◌, refl, sym, subst, ap, ap₂, ◌∙◌,
  arith, ℤ, ◌+ℤ◌, ◌-ℤ◌, ltb_ℤ, ◌<ℤ◌, All,
}
use ldap_totp_nginx_auth.Regulation.{
  AuthenticationAttempt, Regulator, latest_failed_attempts, not_banned, banned, compare_attempts,
  judge_attempts, attempt_size, max_alloc, judge, panics,
}

pub or_true : (b : Bool) → (b || true) ≡ true
or_true b = ground arith

-- The attempts before the first success, cut to a number.
pub failures : ℕ → List AuthenticationAttempt → List AuthenticationAttempt
failures zero attempts = []
failures (suc n) [] = []
failures (suc n) (a ∷ attempts) =
    let rest = failures n attempts in if a.successful then [] else a ∷ rest

pub latest_failed_attempts-failures :
    (m k : ℕ) (failed attempts : List AuthenticationAttempt)
    → m ≡ length failed + k
    → latest_failed_attempts m failed attempts ≡ failed ++ failures k attempts
unfolding latest_failed_attempts failures
latest_failed_attempts-failures m zero failed [] h = sym (append-nil failed)
latest_failed_attempts-failures m (suc k) failed [] h = sym (append-nil failed)
latest_failed_attempts-failures m zero failed (a ∷ attempts) h =
    let full : leb m (length failed) ≡ true = ground arith in
    rw (full, or_true) (sym (append-nil failed))
latest_failed_attempts-failures m (suc k) failed (a ∷ attempts) h = elim (Bool-cases a.successful) [
  | inl success ↦ rw success (sym (append-nil failed))
  | inr failure ↦
      let room : leb m (length failed) ≡ false = ground arith in
      let next = length-append failed (a ∷ []) in
      simp (failure, room)
        (latest_failed_attempts-failures m k (failed ++ a ∷ []) attempts (omega (arith, next))
          ∙ append_assoc failed (a ∷ []) (failures k attempts))
]

abbrev pub IsFailure : AuthenticationAttempt → Type 0
IsFailure a = a.successful ≡ false

pub failures_full :
    (n : ℕ) (attempts : List AuthenticationAttempt)
    → n ≤ length (failures n attempts)
    → (failures n attempts ≡ take n attempts)
      × All IsFailure (take n attempts)
      × (n ≤ length attempts)
unfolding failures
failures_full zero attempts h = (refl, tt, omega arith)
failures_full (suc n) [] h = absurd (omega arith)
failures_full (suc n) (a ∷ attempts) h = elim (Bool-cases a.successful) [
  | inl success ↦ absurd (omega (arith, rw success at h))
  | inr failure ↦
      let more : suc n ≤ length (a ∷ failures n attempts) = simp failure at h in
      let (same, all, long) = failures_full n attempts (omega (arith, more)) in
      simp failure (ap (λ l. a ∷ l) same, (refl, all), omega arith)
]

pub failures_of_All :
    (n : ℕ) (attempts : List AuthenticationAttempt)
    → All IsFailure (take n attempts)
    → failures n attempts ≡ take n attempts
unfolding failures
failures_of_All zero attempts h = refl
failures_of_All (suc n) [] h = refl
failures_of_All (suc n) (a ∷ attempts) (failure, h) =
    simp failure (ap (λ l. a ∷ l) (failures_of_All n attempts h))

-- The latest attempts are failures, as many as the regulator allows, within its time.
pub record IsBruteForce (r : Regulator) (attempts : List AuthenticationAttempt) (until : ℤ)
    : Type 0 where
  pub latest : AuthenticationAttempt
  pub oldest : AuthenticationAttempt
  pub first : get_elem? attempts 0 ≡ some latest
  pub last : get_elem? attempts (r.max_retries - 1) ≡ some oldest
  pub all_failed : All IsFailure (take r.max_retries attempts)
  pub within : latest.time -ℤ oldest.time <ℤ r.find_time
  pub ends : until ≡ latest.time +ℤ r.ban_time

module _ (r : Regulator) where
  pub judge_attempts-failures :
      (attempts : List AuthenticationAttempt)
      → judge_attempts r attempts ≡ (
          let failed = failures r.max_retries attempts in
          if ltb (length failed) r.max_retries
          then not_banned
          else compare_attempts r (get_elem? failed 0) (get_elem? failed (r.max_retries - 1)))
  unfolding judge_attempts
  judge_attempts-failures attempts =
      rw (latest_failed_attempts-failures r.max_retries r.max_retries [] attempts (omega arith))

  -- With enough failures the regulator compares the first with the last of them.
  pub judge_attempts_full :
      (attempts : List AuthenticationAttempt)
      → 0 < r.max_retries
      → r.max_retries ≤ length (failures r.max_retries attempts)
      → judge_attempts r attempts
        ≡ compare_attempts r (get_elem? attempts 0) (get_elem? attempts (r.max_retries - 1))
  judge_attempts_full attempts positive enough =
      let (same, failed, long) = failures_full r.max_retries attempts enough in
      let full : ltb (length (failures r.max_retries attempts)) r.max_retries ≡ false =
        ground arith in
      rw (
        judge_attempts-failures attempts,
        full,
        same,
        get_elem?-take r.max_retries 0 attempts positive,
        get_elem?-take r.max_retries (r.max_retries - 1) attempts (omega arith),
      )

  compare_attempts-banned :
      (a b : Option AuthenticationAttempt) (until : ℤ)
      → compare_attempts r a b ≡ banned until
      → (latest : AuthenticationAttempt) × (oldest : AuthenticationAttempt) × (a ≡ some latest)
        × (b ≡ some oldest)
        × (latest.time -ℤ oldest.time <ℤ r.find_time)
        × (until ≡ latest.time +ℤ r.ban_time)
  unfolding compare_attempts
  compare_attempts-banned none b until e = absurd (cc e)
  compare_attempts-banned (some latest) none until e = absurd (cc e)
  compare_attempts-banned (some latest) (some oldest) until e =
      (latest, oldest, refl, refl, ground arith, ground arith)

  pub judge_attempts_sound :
      (attempts : List AuthenticationAttempt) (until : ℤ)
      → 0 < r.max_retries
      → judge_attempts r attempts ≡ banned until
      → IsBruteForce r attempts until
  judge_attempts_sound attempts until positive e =
      elim (Bool-cases (ltb (length (failures r.max_retries attempts)) r.max_retries)) [
        | inl short ↦
            absurd (not_banned-ne-banned (rw (judge_attempts-failures attempts, short) at e))
        | inr full ↦
            let enough : r.max_retries ≤ length (failures r.max_retries attempts) = ground arith in
            let (same, failed, long) = failures_full r.max_retries attempts enough in
            let (latest, oldest, first, last, within, ends) =
              compare_attempts-banned _ _ until
                (sym (judge_attempts_full attempts positive enough) ∙ e) in
            record {
              latest = latest;
              oldest = oldest;
              first = first;
              last = last;
              all_failed = failed;
              within = within;
              ends = ends;
            }
      ]
    where
      not_banned-ne-banned : not_banned ≡ banned until → ⊥
      not_banned-ne-banned h = cc

  pub judge_attempts_complete :
      (attempts : List AuthenticationAttempt) (until : ℤ)
      → 0 < r.max_retries
      → IsBruteForce r attempts until
      → judge_attempts r attempts ≡ banned until
  unfolding compare_attempts
  judge_attempts_complete attempts until positive b =
      let long = lt_of_get_elem? (r.max_retries - 1) attempts b.last in
      let same = failures_of_All r.max_retries attempts b.all_failed in
      let enough : r.max_retries ≤ length (failures r.max_retries attempts) =
        rw same (omega (arith, length-take r.max_retries attempts)) in
      let soon : ltb_ℤ (b.latest.time -ℤ b.oldest.time) r.find_time ≡ true = ground arith in
      judge_attempts_full attempts positive enough
      ∙ ap₂ (compare_attempts r) b.first b.last
      ∙ rw soon (ap banned (sym b.ends))

-- The slice for the failures can be made.
abbrev pub HasRoom : Regulator → Type 0
HasRoom r = attempt_size * r.max_retries ≤ max_alloc

-- Where it can, the attempts decide.
pub judge_lem :
    (r : Regulator) (attempts : List AuthenticationAttempt)
    → HasRoom r
    → judge r (some attempts) ≡ judge_attempts r attempts
unfolding judge
judge_lem r attempts room =
    let small : ltb max_alloc (attempt_size * r.max_retries) ≡ false = ground arith in
    simp small refl

pub judge_sound :
    (r : Regulator) (attempts : List AuthenticationAttempt) (until : ℤ)
    → 0 < r.max_retries
    → judge r (some attempts) ≡ banned until
    → HasRoom r × IsBruteForce r attempts until
unfolding judge
judge_sound r attempts until positive e =
    elim (Bool-cases (ltb max_alloc (attempt_size * r.max_retries))) [
      | inl large ↦ absurd (panics-ne-banned (rw large at e))
      | inr small ↦ (ground arith, judge_attempts_sound r attempts until positive (rw small at e))
    ]
  where
    panics-ne-banned : panics ≡ banned until → ⊥
    panics-ne-banned h = cc

pub judge_complete :
    (r : Regulator) (attempts : List AuthenticationAttempt) (until : ℤ)
    → 0 < r.max_retries
    → HasRoom r
    → IsBruteForce r attempts until
    → judge r (some attempts) ≡ banned until
judge_complete r attempts until positive room b =
    judge_lem r attempts room ∙ judge_attempts_complete r attempts until positive b

pub judge-none : (r : Regulator) (until : ℤ) → judge r none ≡ banned until → ⊥
unfolding judge
judge-none r until e = cc

pub All_get_elem? {ℓ} :
    {A : Type ℓ} (P : A → Type 0) (xs : List A) (i : ℕ) {x : A}
    → All P xs
    → get_elem? xs i ≡ some x
    → P x
All_get_elem? P [] i {x} h e = absurd (cc e)
All_get_elem? P (y ∷ xs) zero {x} h e = let same : y ≡ x = cc in subst P same h.0
All_get_elem? P (y ∷ xs) (suc i) {x} h e = All_get_elem? P xs i h.1 e
