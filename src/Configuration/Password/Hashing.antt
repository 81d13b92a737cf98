-- ===== src/Configuration/Password/Hashing.antt =====
-- Settings that a hash of a password can be made with.
use ldap_totp_nginx_auth.Prelude.{
  Text, [], ◌++◌, ◌==◌, lit, not, false, ◌&&◌, ok, ℤ, pos, ltb_ℤ, ◌≤ℤ◌, wrap_int64, scale, to_int64,
  itoa, ◌≡◌, refl, ◌⊎◌, inl, inr, texts, arith,
}
use ldap_totp_nginx_auth.Authentication.Hash.{
  argon2id, sha512, Crypt, config_algo_to_crypto_algo, validate_argon2id_settings, validate_salt,
  salt_or_new, get_crypt_settings, validate_settings, hash_password,
}
use ldap_totp_nginx_auth.Authentication.FileProvider.{PasswordConfiguration, hash_new}

-- What is asked of the settings of Argon2id.
pub record IsHashable (c : PasswordConfiguration) : Type 0 where
  pub iterations : pos 1 ≤ℤ c.iterations
  pub salt_length : pos 8 ≤ℤ c.salt_length
  pub algorithm :
      (c.algorithm ≡ lit "sha512")
      ⊎ ((c.algorithm ≡ lit "argon2id")
          × (pos 1 ≤ℤ c.parallelism)
          × (scale 8 c.parallelism ≤ℤ scale 1024 c.memory)
          × (scale 1024 c.memory ≤ℤ pos 9_223_372_036_854_775_807)
          × (pos 16 ≤ℤ c.key_length))

module _ (k : Crypt) where
  pub wrap_small : (a : ℤ) → pos 0 ≤ℤ a → a ≤ℤ pos 9_223_372_036_854_775_807 → wrap_int64 a ≡ a
  unfolding wrap_int64 to_int64
  wrap_small a h g = ground arith

  -- Both algorithms are known, and the settings pass.
  validate_argon2id_settings_lem :
      (memory parallelism iterations key_length : ℤ)
      → pos 8 ≤ℤ memory
      → pos 1 ≤ℤ parallelism
      → scale 8 parallelism ≤ℤ memory
      → memory ≤ℤ pos 9_223_372_036_854_775_807
      → pos 16 ≤ℤ key_length
      → pos 1 ≤ℤ iterations
      → validate_argon2id_settings memory parallelism iterations key_length ≡ ok tt
  unfolding validate_argon2id_settings
  validate_argon2id_settings_lem memory parallelism iterations key_length a b c d e f =
      let lower : pos 0 ≤ℤ scale 8 parallelism = ground arith in
      let upper : scale 8 parallelism ≤ℤ pos 9_223_372_036_854_775_807 = ground arith in
      rw (wrap_small (scale 8 parallelism) lower upper) (ground arith)

  -- A new hash is made where its algorithm is known and its settings pass.
  hash_password_lem :
      (random password algorithm : Text) (iterations memory parallelism key_length salt_length : ℤ)
      (settings : Text)
      → (not (algorithm == argon2id) && not (algorithm == sha512)) ≡ false
      → validate_settings k algorithm iterations memory parallelism key_length ≡ ok tt
      → pos 8 ≤ℤ salt_length
      → get_crypt_settings k
          (k.encode_base64 random)
          algorithm
          iterations
          memory
          parallelism
          key_length
        ≡ ok settings
      → hash_password k random password [] algorithm iterations memory parallelism key_length
          salt_length
        ≡ ok (k.crypt password settings)
  unfolding hash_password validate_salt salt_or_new ◌==◌
  hash_password_lem random password algorithm iterations memory parallelism key_length salt_length
        settings known valid long made =
      let enough : ltb_ℤ salt_length (pos 8) ≡ false = ground arith in
      rw (known, valid, enough, made) refl

  hash_new_sha512 :
      (random password : Text) (c : PasswordConfiguration)
      → c.algorithm ≡ lit "sha512"
      → pos 8 ≤ℤ c.salt_length
      → (hash : Text) × (hash_new k random c password ≡ ok hash)
  unfolding hash_new config_algo_to_crypto_algo validate_settings get_crypt_settings texts
  hash_new_sha512 random password c e long = (
    k.crypt password
        (lit "$6$rounds=" ++ (itoa c.iterations ++ (lit "$" ++ k.encode_base64 random))),
    rw e (
        hash_password_lem random password sha512 c.iterations (wrap_int64 (scale 1024 c.memory))
          c.parallelism c.key_length c.salt_length _ refl refl long refl),
  )

  hash_new_argon2id :
      (random password : Text) (c : PasswordConfiguration)
      → c.algorithm ≡ lit "argon2id"
      → pos 8 ≤ℤ c.salt_length
      → pos 1 ≤ℤ c.iterations
      → pos 1 ≤ℤ c.parallelism
      → scale 8 c.parallelism ≤ℤ scale 1024 c.memory
      → scale 1024 c.memory ≤ℤ pos 9_223_372_036_854_775_807
      → pos 16 ≤ℤ c.key_length
      → (hash : Text) × (hash_new k random c password ≡ ok hash)
  unfolding hash_new config_algo_to_crypto_algo validate_settings get_crypt_settings texts
  hash_new_argon2id random password c e long iterations parallelism covered small key_length =
      let least : pos 8 ≤ℤ scale 1024 c.memory = ground arith in
      let wrapped = wrap_small (scale 1024 c.memory) (ground arith) small in
      (
        k.crypt password (
            k.argon2id_settings (scale 1024 c.memory) c.iterations c.parallelism c.key_length
              (k.encode_base64 random)),
        rw (e, wrapped)
            (hash_password_lem random password argon2id c.iterations (scale 1024 c.memory)
              c.parallelism c.key_length c.salt_length _ refl
              (validate_argon2id_settings_lem _ _ _ _ least parallelism covered small key_length
                iterations)
              long refl),
      )

  pub hash_new-IsHashable :
      (random password : Text) (c : PasswordConfiguration)
      → IsHashable c
      → (hash : Text) × (hash_new k random c password ≡ ok hash)
  hash_new-IsHashable random password c h = elim h.algorithm [
    | inl e ↦ hash_new_sha512 random password c e h.salt_length
    | inr (e, parallelism, covered, small, key_length) ↦
        hash_new_argon2id random password c e h.salt_length h.iterations parallelism covered small
          key_length
  ]
