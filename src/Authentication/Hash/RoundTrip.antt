-- ===== src/Authentication/Hash/RoundTrip.antt =====
-- The password that a hash was made of is the one that it accepts.
use ldap_totp_nginx_auth.Prelude.{
  ltb, Text, [], ◌==◌, ==_refl, Bool, true, false, inl, inr, some, length, Result, ok, err, ◌>>=◌,
  reject, ℤ, pos, ltb_ℤ, texts, ◌≡◌, ◌≢◌, refl, sym, ap, ◌∙◌, subst, ◌⊎◌, arith,
}
use ldap_totp_nginx_auth.Authentication.Hash.{
  argon2id, sha512, PasswordHash, Crypt, HashError, is_decodable, parse_hash, validate_decoded_salt,
  validate_salt, get_crypt_settings, validate_settings, salt_or_new, hash_password, hash_again,
  check_password,
}
use ldap_totp_nginx_auth.Authentication.Hash.Described.{
  IsDescribed, HasArgon2id, HasRounds, not_empty, described_argon2id, described_sha512,
}

module _ (c : Crypt) where
  -- The third of three guards may be another that passes where it did.
  swap_guard :
      (first second : Result HashError (Unit {0})) (t t' : Bool) (e e' : HashError)
      (rest : Result HashError Text) (hash : Text)
      → (t ≡ false → t' ≡ false)
      → (first >>= λ _. second >>= λ _. reject t e >>= λ _. rest) ≡ ok hash
      → (first >>= λ _. second >>= λ _. reject t' e' >>= λ _. rest) ≡ ok hash
  swap_guard (err x) second t t' e e' rest hash h k = absurd (cc k)
  swap_guard (ok u) (err x) t t' e e' rest hash h k = absurd (cc k)
  swap_guard (ok u) (ok v) true t' e e' rest hash h k = absurd (cc k)
  swap_guard (ok u) (ok v) false t' e e' rest hash h k = rw (h refl) k

  -- Hashing once more with the salt of a new hash gives the same hash.
  again_lem :
      (random password algorithm hash : Text) (iterations memory parallelism key_length : ℤ)
      (salt_length n : ℤ)
      → c.decode_base64 (c.encode_base64 random) ≡ some random
      → c.encode_base64 random ≢ []
      → pos (length random) ≡ salt_length
      → hash_password c random password [] algorithm iterations memory parallelism key_length
          salt_length
        ≡ ok hash
      → hash_password c [] password
          (c.encode_base64 random)
          algorithm
          iterations
          memory
          parallelism
          key_length
          n
        ≡ ok hash
  unfolding hash_password validate_salt validate_decoded_salt salt_or_new ◌==◌
  again_lem random password algorithm hash iterations memory parallelism key_length salt_length n
        decodes given fits hashed =
      rw (not_empty c (c.encode_base64 random) given, decodes)
        (swap_guard _ _ (ltb_ℤ salt_length (pos 8)) (ltb (length random) 8) _ _ _ hash
          (λ long. ground arith) hashed)

  sha512_only :
      (random password salt : Text) (iterations memory parallelism key_length n : ℤ)
      → hash_password c random password salt sha512 iterations memory parallelism key_length n
        ≡ hash_password c random password salt sha512 iterations (pos 0) (pos 0) (pos 0) n
  unfolding hash_password validate_settings get_crypt_settings texts
  sha512_only random password salt iterations memory parallelism key_length n = refl

  -- The library describes the hash, and its base64 is an encoding.
  pub record IsHashOf (random hash algorithm : Text) (iterations memory parallelism key_length : ℤ)
      : Type 0 where
    pub decodes : c.decode_base64 (c.encode_base64 random) ≡ some random
    pub salt_given : c.encode_base64 random ≢ []
    pub described : IsDescribed c hash (c.encode_base64 random) algorithm
    pub parameters :
        let s = c.decode_settings hash in
        ((algorithm ≡ argon2id)
          × HasArgon2id c s.parameters s.key iterations memory parallelism key_length)
        ⊎ ((algorithm ≡ sha512) × HasRounds c s.parameters iterations)

  encoded_is_decodable :
      (random : Text)
      → c.decode_base64 (c.encode_base64 random) ≡ some random
      → is_decodable c (c.encode_base64 random) ≡ true
  unfolding is_decodable
  encoded_is_decodable random e = rw (e, is_decodable)

  -- A hash that parses, and that hashing again gives, accepts the password.
  check_password_of :
      (password hash : Text) (h : PasswordHash)
      → parse_hash c hash ≡ ok h
      → hash_again c password h ≡ ok hash
      → check_password c password hash ≡ ok true
  unfolding check_password
  check_password_of password hash h parsed again =
      rw parsed (rw again (rw parsed (ap (λ b. ok b) (==_refl h.key))))

  module _ (random password hash : Text) (iterations memory parallelism key_length : ℤ)
      (salt_length : ℤ) (decodes : c.decode_base64 (c.encode_base64 random) ≡ some random)
      (salt_given : c.encode_base64 random ≢ []) (fits : pos (length random) ≡ salt_length) where
    -- Hashing again reads the salt from the hash.
    resalted :
        (algorithm : Text)
        → IsDescribed c hash (c.encode_base64 random) algorithm
        → hash_password c random password [] algorithm iterations memory parallelism key_length
            salt_length
          ≡ ok hash
        → hash_password c [] password
            (c.decode_settings hash).salt
            algorithm
            iterations
            memory
            parallelism
            key_length
            (pos (length (c.decode_settings hash).salt))
          ≡ ok hash
    resalted algorithm d hashed = rw d.salted (
        again_lem random password algorithm hash iterations memory parallelism key_length
          salt_length _ decodes salt_given fits hashed)

    accepts_argon2id :
        IsDescribed c hash (c.encode_base64 random) argon2id
        → HasArgon2id c
            (c.decode_settings hash).parameters
            (c.decode_settings hash).key
            iterations
            memory
            parallelism
            key_length
        → hash_password c random password [] argon2id iterations memory parallelism key_length
            salt_length
          ≡ ok hash
        → check_password c password hash ≡ ok true
    unfolding hash_again
    accepts_argon2id d h hashed =
        check_password_of password hash _
          (described_argon2id c hash (c.encode_base64 random) iterations memory parallelism
            key_length (encoded_is_decodable random decodes) d h)
          (resalted argon2id d hashed)

    accepts_sha512 :
        IsDescribed c hash (c.encode_base64 random) sha512
        → HasRounds c (c.decode_settings hash).parameters iterations
        → hash_password c random password [] sha512 iterations memory parallelism key_length
            salt_length
          ≡ ok hash
        → check_password c password hash ≡ ok true
    unfolding hash_again
    accepts_sha512 d h hashed =
        check_password_of password hash _
          (described_sha512 c hash (c.encode_base64 random) iterations memory parallelism key_length
            (encoded_is_decodable random decodes) d h)
          (sym (
              sha512_only [] password (c.decode_settings hash).salt iterations memory parallelism
                key_length (pos (length (c.decode_settings hash).salt)))
            ∙ resalted sha512 d hashed)

  -- A hash that was made of a password with a random salt accepts the password, where the library
  -- describes the hash as it was made.
  pub check_password-hash_password :
      (random password algorithm hash : Text) (iterations memory parallelism key_length : ℤ)
      (salt_length : ℤ)
      → pos (length random) ≡ salt_length
      → hash_password c random password [] algorithm iterations memory parallelism key_length
          salt_length
        ≡ ok hash
      → IsHashOf random hash algorithm iterations memory parallelism key_length
      → check_password c password hash ≡ ok true
  check_password-hash_password random password algorithm hash iterations memory parallelism
        key_length salt_length fits hashed h =
      let hashes : Text → Type 0 = λ a.
        hash_password c random password [] a iterations memory parallelism key_length salt_length
        ≡ ok hash in
      let describes : Text → Type 0 = IsDescribed c hash (c.encode_base64 random) in
      elim h.parameters [
        | inl (e, parameters) ↦
            accepts_argon2id random password hash iterations memory parallelism key_length
              salt_length h.decodes h.salt_given fits (subst describes e h.described) parameters
              (subst hashes e hashed)
        | inr (e, parameters) ↦
            accepts_sha512 random password hash iterations memory parallelism key_length salt_length
              h.decodes h.salt_given fits (subst describes e h.described) parameters
              (subst hashes e hashed)
      ]
