-- ===== src/Configuration/Password/Hashes.antt =====
-- A file backend without errors in its configuration can hash every password.
use ldap_totp_nginx_auth.Prelude.{
  if◌then◌else◌, Text, List, [], ◌++◌, ◌==◌, ==_iff, lit, not, Bool, true, false, ◌&&◌, Bool-cases,
  some, ok, ℤ, pos, ltb_ℤ, ◌≤ℤ◌, wrap_int64, scale, ◌≡◌, refl, ◌⊎◌, inl, inr, arith, to_lower,
}
use ldap_totp_nginx_auth.Authentication.Hash.{Crypt}
use ldap_totp_nginx_auth.Authentication.FileProvider.{PasswordConfiguration, hash_new}
use ldap_totp_nginx_auth.Configuration.{check, int_eq, check-eq-nil, append-eq-nil}
use ldap_totp_nginx_auth.Configuration.Password.{
  PasswordError, int_or, below, algorithm_of, algorithm_errors, validate_argon2id, validate_common,
  validate_algorithm, validate_password, validate_file, bad_parallelism, bad_memory, bad_key_length,
  unknown_algorithm, bad_iterations, bad_salt_length, path_missing,
}
use ldap_totp_nginx_auth.Configuration.Password.Hashing.{
  IsHashable, wrap_small, hash_new-IsHashable,
}

-- A number without an error is at least the bound, where its default is.
below_lem :
    (n bound default : ℤ) (e : PasswordError)
    → bound ≤ℤ default
    → below n bound e ≡ []
    → bound ≤ℤ int_or n default
unfolding below int_or int_eq
below_lem n bound default e fits h =
    ground (arith, check-eq-nil (not (int_eq n (pos 0)) && ltb_ℤ n bound) e h)

module _ (k : Crypt) where
  memory_lem :
      (memory parallelism : ℤ)
      → pos 1 ≤ℤ parallelism
      → parallelism ≤ℤ pos 8192
      → memory ≤ℤ pos 9_007_199_254_740_991
      → below memory (wrap_int64 (scale 8 parallelism)) bad_memory ≡ []
      → (scale 8 parallelism ≤ℤ scale 1024 (int_or memory (pos 64)))
        × (scale 1024 (int_or memory (pos 64)) ≤ℤ pos 9_223_372_036_854_775_807)
  unfolding below int_or int_eq
  memory_lem memory parallelism a b c h =
      let wrapped = wrap_small k (scale 8 parallelism) (ground arith) (ground arith) in
      let fits =
        check-eq-nil
          (not (int_eq memory (pos 0)) && ltb_ℤ memory (wrap_int64 (scale 8 parallelism)))
          bad_memory h in
      ground (arith, wrapped, fits)

  algorithm_lem :
      (algorithm : Text)
      → algorithm_errors algorithm ≡ []
      → (algorithm_of algorithm ≡ lit "argon2id") ⊎ (algorithm_of algorithm ≡ lit "sha512")
  unfolding algorithm_errors algorithm_of
  algorithm_lem algorithm h =
      let known =
        check-eq-nil
          (not (algorithm == [])
            && (not (to_lower algorithm == lit "argon2id")
                && not (to_lower algorithm == lit "sha512")))
          unknown_algorithm h in
      elim (Bool-cases (algorithm == [])) [
        | inl missing ↦ rw missing (inl refl)
        | inr given ↦ rw given (
            ground (
              arith,
              known,
              ==_iff (to_lower algorithm) (lit "argon2id"),
              ==_iff (to_lower algorithm) (lit "sha512"),
            ))
      ]

  -- The parts of a password configuration, with the errors of each.
  module _ (c : PasswordConfiguration) (few : c.parallelism ≤ℤ pos 8192)
      (small : c.memory ≤ℤ pos 9_007_199_254_740_991) where
    common_lem :
        (validate_common c).1 ≡ []
        → (pos 1 ≤ℤ (validate_common c).0.iterations)
          × (pos 8 ≤ℤ (validate_common c).0.salt_length)
          × (((validate_common c).0.algorithm ≡ lit "argon2id")
              ⊎ ((validate_common c).0.algorithm ≡ lit "sha512"))
    unfolding validate_common
    common_lem h =
        let first =
          append-eq-nil (algorithm_errors c.algorithm)
            (below c.iterations (pos 1) bad_iterations
              ++ below c.salt_length (pos 8) bad_salt_length)
            h in
        let rest =
          append-eq-nil (below c.iterations (pos 1) bad_iterations)
            (below c.salt_length (pos 8) bad_salt_length) first.1 in
        (
          iterations_lem (algorithm_of c.algorithm == lit "argon2id") rest.0,
          below_lem c.salt_length (pos 8) (pos 16) bad_salt_length (omega arith) rest.1,
          algorithm_lem c.algorithm first.0,
        )
      where
        iterations_lem :
            (b : Bool)
            → below c.iterations (pos 1) bad_iterations ≡ []
            → pos 1 ≤ℤ int_or c.iterations (if b then pos 1 else pos 50000)
        iterations_lem true h =
            below_lem c.iterations (pos 1) (pos 1) bad_iterations (omega arith) h
        iterations_lem false h =
            below_lem c.iterations (pos 1) (pos 50000) bad_iterations (omega arith) h

  int_or-le : (n : ℤ) → n ≤ℤ pos 8192 → int_or n (pos 8) ≤ℤ pos 8192
  unfolding int_or int_eq
  int_or-le n h = ground arith

  argon2id_lem :
      (c : PasswordConfiguration)
      → c.parallelism ≤ℤ pos 8192
      → c.memory ≤ℤ pos 9_007_199_254_740_991
      → pos 1 ≤ℤ c.iterations
      → pos 8 ≤ℤ c.salt_length
      → c.algorithm ≡ lit "argon2id"
      → (validate_argon2id c).1 ≡ []
      → IsHashable (validate_argon2id c).0
  unfolding validate_argon2id
  argon2id_lem c few small iterations salt_length e h =
      let p = int_or c.parallelism (pos 8) in
      let first =
        append-eq-nil (below c.parallelism (pos 1) bad_parallelism)
          (below c.memory (wrap_int64 (scale 8 p)) bad_memory
            ++ below c.key_length (pos 16) bad_key_length)
          h in
      let rest =
        append-eq-nil (below c.memory (wrap_int64 (scale 8 p)) bad_memory)
          (below c.key_length (pos 16) bad_key_length) first.1 in
      let lanes : pos 1 ≤ℤ p =
        below_lem c.parallelism (pos 1) (pos 8) bad_parallelism (omega arith) first.0 in
      let covered = memory_lem c.memory p lanes (int_or-le c.parallelism few) small rest.0 in
      record {
        iterations = iterations;
        salt_length = salt_length;
        algorithm = inr (
          e,
          lanes,
          covered.0,
          covered.1,
          below_lem c.key_length (pos 16) (pos 32) bad_key_length (omega arith) rest.1,
        );
      }

  algorithm_step :
      (c : PasswordConfiguration) (errors : List PasswordError)
      → c.parallelism ≤ℤ pos 8192
      → c.memory ≤ℤ pos 9_007_199_254_740_991
      → pos 1 ≤ℤ c.iterations
      → pos 8 ≤ℤ c.salt_length
      → (c.algorithm ≡ lit "argon2id") ⊎ (c.algorithm ≡ lit "sha512")
      → (validate_algorithm (c, errors)).1 ≡ []
      → IsHashable (validate_algorithm (c, errors)).0
  unfolding validate_algorithm
  algorithm_step c errors few small iterations salt_length known =
      elim (Bool-cases (c.algorithm == lit "argon2id")) [
        | inl yes' ↦ rw yes' (λ h.
            argon2id_lem c few small iterations salt_length
              ((==_iff c.algorithm (lit "argon2id")).0 yes')
              (append-eq-nil errors (validate_argon2id c).1 h).1)
        | inr no' ↦ rw no' (λ h. record {
          iterations = iterations;
          salt_length = salt_length;
          algorithm = inl (elim known [
            | inl e ↦ absurd (cc (no', (==_iff c.algorithm (lit "argon2id")).1 e))
            | inr e ↦ e
          ]);
        })
      ]

  errors_lem :
      (c : PasswordConfiguration) (errors : List PasswordError)
      → (validate_algorithm (c, errors)).1 ≡ []
      → errors ≡ []
  unfolding validate_algorithm
  errors_lem c errors = elim (Bool-cases (c.algorithm == lit "argon2id")) [
    | inl argon ↦ rw argon (λ h. (append-eq-nil errors (validate_argon2id c).1 h).0)
    | inr other ↦ rw other (λ h. h)
  ]

  validate_password-IsHashable :
      (c : PasswordConfiguration)
      → c.parallelism ≤ℤ pos 8192
      → c.memory ≤ℤ pos 9_007_199_254_740_991
      → (validate_password (some c)).1 ≡ []
      → IsHashable (validate_password (some c)).0
  unfolding validate_password validate_common
  validate_password-IsHashable c few small h =
      let (iterations, salt_length, known) =
        common_lem c few small (errors_lem (validate_common c).0 (validate_common c).1 h) in
      algorithm_step (validate_common c).0 (validate_common c).1 few small iterations salt_length
        known h

  -- With the settings of a file backend that the validator accepts, with its defaults, and of no
  -- more than 8192 lanes and 2^53-1 MiB of memory, every new password is hashed without an error.
  pub hash_new-validate_file :
      (path : Text) (p : PasswordConfiguration) (random password : Text)
      → p.parallelism ≤ℤ pos 8192
      → p.memory ≤ℤ pos 9_007_199_254_740_991
      → (validate_file (record { path = path; password = some p })).1 ≡ []
      → (hash : Text) × (hash_new k random
            (validate_file (record { path = path; password = some p })).0.1
            password
          ≡ ok hash)
  unfolding validate_file
  hash_new-validate_file path p random password few small h =
      hash_new-IsHashable k random password _ (
        validate_password-IsHashable p few small
          (append-eq-nil (check (path == []) path_missing) (validate_password (some p)).1 h).1)
