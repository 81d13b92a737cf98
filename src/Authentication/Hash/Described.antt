-- ===== src/Authentication/Hash/Described.antt =====
-- A hash as the library describes it, and what it is parsed to.
use ldap_totp_nginx_auth.Prelude.{
  if◌then◌else◌, Text, List, [], ◌==◌, ==_iff, ==_refl, lit, true, false, some, split, last_part,
  length, Result, ok, err, ℤ, pos, itoa, lookup, texts, ◌≡◌, ◌≢◌, arith,
}
use ldap_totp_nginx_auth.Authentication.Hash.{
  argon2id, sha512, PasswordHash, Settings, Crypt, HashError, parse_sha512, check_version,
  check_key, parse_argon2id, is_decodable, parse_settings, parse_hash,
}

-- What the library must find in a hash again: the algorithm, the salt, and a key at the end.
pub record IsDescribed (c : Crypt) (hash salt algorithm : Text) : Type 0 where
  pub code : (c.decode_settings hash).code ≡ algorithm
  pub salted : (c.decode_settings hash).salt ≡ salt
  pub last : (c.decode_settings hash).key ≡ last_part (split b'$' hash).0 (split b'$' hash).1
  pub given : (c.decode_settings hash).key ≢ []

-- The parameters of Argon2id, with the key in base64.
pub record HasArgon2id (c : Crypt) (parameters : List (Text × Text)) (key : Text)
    (iterations memory parallelism key_length : ℤ) : Type 0 where
  pub version : c.get_int parameters (lit "v") (pos 0) ≡ pos 19
  pub cost : c.get_int parameters (lit "m") (pos 32_768) ≡ memory
  pub time : c.get_int parameters (lit "t") (pos 1) ≡ iterations
  pub lanes : c.get_int parameters (lit "p") (pos 4) ≡ parallelism
  pub size : c.get_int parameters (lit "k") (pos 32) ≡ key_length
  pub raw : Text
  pub decoded : c.decode_base64 key ≡ some raw
  pub fits : key_length ≡ pos (length raw)

pub record HasRounds (c : Crypt) (parameters : List (Text × Text)) (iterations : ℤ) : Type 0 where
  pub rounds : lookup (lit "rounds") parameters ≡ some (itoa iterations)
  pub number : c.get_int parameters (lit "rounds") (pos 5000) ≡ iterations

module _ (c : Crypt) where
  parse_argon2id_lem :
      (s : Settings) (iterations memory parallelism key_length : ℤ)
      → HasArgon2id c s.parameters s.key iterations memory parallelism key_length
      → parse_argon2id c s
        ≡ ok (record {
          algorithm = argon2id;
          iterations = iterations;
          salt = s.salt;
          key = s.key;
          key_length = key_length;
          memory = memory;
          parallelism = parallelism;
        })
  unfolding parse_argon2id check_version check_key
  parse_argon2id_lem s iterations memory parallelism key_length h = ground arith

  parse_sha512_lem :
      (s : Settings) (iterations : ℤ)
      → HasRounds c s.parameters iterations
      → parse_sha512 c s
        ≡ ok (record {
          algorithm = sha512;
          iterations = iterations;
          salt = s.salt;
          key = s.key;
          key_length = pos 0;
          memory = pos 0;
          parallelism = pos 0;
        })
  unfolding parse_sha512
  parse_sha512_lem s iterations h =
      rw (h.rounds, h.number, ==_refl (itoa iterations)) (ground arith)

  -- What a described hash is parsed to.
  abbrev pub parsed_as : Text → Text → Text → ℤ → ℤ → ℤ → ℤ → PasswordHash
  parsed_as algorithm salt key iterations memory parallelism key_length = record {
    algorithm = algorithm;
    iterations = iterations;
    salt = salt;
    key = key;
    key_length = key_length;
    memory = memory;
    parallelism = parallelism;
  }

  pub not_empty : (t : Text) → t ≢ [] → (t == []) ≡ false
  not_empty t h = ground (arith, ==_iff t [])

  parse_settings_lem :
      (last : Text) (s : Settings) (r : Result HashError PasswordHash)
      → s.key ≡ last
      → s.key ≢ []
      → is_decodable c s.salt ≡ true
      → (if s.code == sha512
          then parse_sha512 c s
          else if s.code == argon2id
          then parse_argon2id c s
          else err HashError.unsupported_algorithm)
        ≡ r
      → parse_settings c last s ≡ r
  unfolding parse_settings
  parse_settings_lem last s r same given salted e =
      rw (not_empty s.key given, (==_iff s.key last).1 same, salted) e

  module _ (hash salt : Text) (iterations memory parallelism key_length : ℤ)
      (decodable : is_decodable c salt ≡ true) where
    abbrev pub settings : Settings
    settings = c.decode_settings hash

    pub described_argon2id :
        IsDescribed c hash salt argon2id
        → HasArgon2id c settings.parameters settings.key iterations memory parallelism key_length
        → parse_hash c hash
          ≡ ok (
              parsed_as argon2id settings.salt settings.key iterations memory parallelism
                key_length)
    unfolding parse_hash texts
    described_argon2id d h =
        parse_settings_lem _ settings _ d.last d.given (rw d.salted decodable)
          (rw d.code (parse_argon2id_lem settings iterations memory parallelism key_length h))

    pub described_sha512 :
        IsDescribed c hash salt sha512
        → HasRounds c settings.parameters iterations
        → parse_hash c hash
          ≡ ok (parsed_as sha512 settings.salt settings.key iterations (pos 0) (pos 0) (pos 0))
    unfolding parse_hash texts
    described_sha512 d h =
        parse_settings_lem _ settings _ d.last d.given (rw d.salted decodable)
          (rw d.code (parse_sha512_lem settings iterations h))
