-- ===== src/Authentication/Hash.antt =====
-- internal/authentication/password_hash.go: the hashes of passwords. The library simia-tech/crypt,
-- which hashes and takes hashes apart, is a parameter, and so is the random text of a salt.
pub mod Described
pub mod RoundTrip
use ldap_totp_nginx_auth.Prelude.{
  if◌then◌else◌, Text, List, [], ◌∷◌, ◌++◌, ◌==◌, lit, not, Bool, true, false, ◌&&◌, ◌||◌, Option,
  none, some, split, last_part, length, Result, ok, err, ◌>>=◌, ◌>>◌, reject, ℤ, pos, ltb_ℤ,
  wrap_int64, scale, itoa, lookup, ltb,
}

-- `CryptAlgo` is a text, with these two values.
abbrev pub argon2id : Text
argon2id = lit "argon2id"

abbrev pub sha512 : Text
sha512 = lit "6"

pub record PasswordHash : Type 0 where
  pub algorithm : Text
  pub iterations : ℤ
  pub salt : Text
  pub key : Text
  pub key_length : ℤ
  pub memory : ℤ
  pub parallelism : ℤ

-- What `crypt.DecodeSettings` finds in a hash.
pub record Settings : Type 0 where
  pub code : Text
  pub parameters : List (Text × Text)
  pub salt : Text
  pub key : Text

pub record Crypt : Type 0 where
  pub decode_settings : Text → Settings
  pub get_int : List (Text × Text) → Text → ℤ → ℤ
  pub decode_base64 : Text → Option Text
  pub encode_base64 : Text → Text
  pub argon2id_settings : ℤ → ℤ → ℤ → ℤ → Text → Text
  pub crypt : Text → Text → Text

pub data HashError : Type 0 where
  invalid_algorithm_in_configuration key_not_last key_empty salt_not_base64 : HashError
  iterations_not_numeric version_not_found version_too_low version_too_high : HashError
  key_not_base64 key_length_mismatch unsupported_algorithm invalid_algorithm : HashError
  salt_length_too_small salt_too_short memory_too_small parallelism_too_small : HashError
  memory_below_parallelism key_length_too_small iterations_too_small : HashError
  panics : HashError

unfoldable pub config_algo_to_crypto_algo : Text → Result HashError Text
config_algo_to_crypto_algo from_config =
    if from_config == lit "argon2id"
    then ok argon2id
    else if from_config == lit "sha512"
    then ok sha512
    else err invalid_algorithm_in_configuration

abbrev pub text_of : Option Text → Text
text_of none = []
text_of (some t) = t

abbrev int_of_length : Text → ℤ
int_of_length s = pos (length s)

-- `validateArgon2idSettings`, in the order of its parameters.
unfoldable pub validate_argon2id_settings : ℤ → ℤ → ℤ → ℤ → Result HashError (Unit {0})
validate_argon2id_settings memory parallelism iterations key_length = do
  reject (ltb_ℤ memory (pos 8)) memory_too_small
  reject (ltb_ℤ parallelism (pos 1)) parallelism_too_small
  reject (ltb_ℤ memory (wrap_int64 (scale 8 parallelism))) memory_below_parallelism
  reject (ltb_ℤ key_length (pos 16)) key_length_too_small
  reject (ltb_ℤ iterations (pos 1)) iterations_too_small

module _ (c : Crypt) where
  -- The case of SHA512 in `ParseHash`.
  unfoldable pub parse_sha512 : Settings → Result HashError PasswordHash
  parse_sha512 s =
      let rounds = text_of (lookup (lit "rounds") s.parameters) in
      let iterations = c.get_int s.parameters (lit "rounds") (pos 5000) in
      if not (rounds == []) && not (rounds == itoa iterations)
      then err iterations_not_numeric
      else ok (record {
        algorithm = sha512;
        iterations = iterations;
        salt = s.salt;
        key = s.key;
        key_length = pos 0;
        memory = pos 0;
        parallelism = pos 0;
      })

  unfoldable pub check_version : ℤ → Result HashError (Unit {0})
  check_version version =
      if ltb_ℤ version (pos 19)
      then (if not (ltb_ℤ version (pos 0)) && not (ltb_ℤ (pos 0) version)
          then err version_not_found
          else err version_too_low)
      else reject (ltb_ℤ (pos 19) version) version_too_high

  -- The key must be base64 of the length that the hash states.
  unfoldable pub check_key : ℤ → Option Text → Result HashError (Unit {0})
  check_key key_length none = err key_not_base64
  check_key key_length (some key) =
      reject (ltb_ℤ (pos (length key)) key_length || ltb_ℤ key_length (pos (length key)))
        key_length_mismatch

  -- The case of Argon2id in `ParseHash`.
  unfoldable pub parse_argon2id : Settings → Result HashError PasswordHash
  parse_argon2id s = do
    check_version (c.get_int s.parameters (lit "v") (pos 0))
    check_key (c.get_int s.parameters (lit "k") (pos 32)) (c.decode_base64 s.key)
    ok (record {
      algorithm = argon2id;
      iterations = c.get_int s.parameters (lit "t") (pos 1);
      salt = s.salt;
      key = s.key;
      key_length = c.get_int s.parameters (lit "k") (pos 32);
      memory = c.get_int s.parameters (lit "m") (pos 32_768);
      parallelism = c.get_int s.parameters (lit "p") (pos 4);
    })

  unfoldable pub is_decodable : Text → Bool
  is_decodable s = elim (c.decode_base64 s) [ none ↦ false | some _ ↦ true ]

  -- `ParseHash`, over the last part of the hash and its settings.
  unfoldable pub parse_settings : Text → Settings → Result HashError PasswordHash
  parse_settings last s = do
    reject (not (s.key == last)) key_not_last
    reject (s.key == []) key_empty
    reject (not (is_decodable s.salt)) salt_not_base64
    (if s.code == sha512
        then parse_sha512 s
        else if s.code == argon2id
        then parse_argon2id s
        else err unsupported_algorithm)

  unfoldable pub parse_hash : Text → Result HashError PasswordHash
  parse_hash hash =
      let (part, parts) = split b'$' hash in
      parse_settings (last_part part parts) (c.decode_settings hash)

  -- `validateSalt`.
  unfoldable pub validate_decoded_salt : Option Text → Result HashError (Unit {0})
  validate_decoded_salt none = err salt_not_base64
  validate_decoded_salt (some salt) = reject (ltb (length salt) 8) salt_too_short

  unfoldable pub validate_salt : Text → ℤ → Result HashError (Unit {0})
  validate_salt salt salt_length =
      if salt == []
      then reject (ltb_ℤ salt_length (pos 8)) salt_length_too_small
      else validate_decoded_salt (c.decode_base64 salt)

  -- `getCryptSettings`; any other algorithm panics.
  unfoldable pub get_crypt_settings : Text → Text → ℤ → ℤ → ℤ → ℤ → Result HashError Text
  get_crypt_settings salt algorithm iterations memory parallelism key_length =
      if algorithm == argon2id
      then ok (c.argon2id_settings memory iterations parallelism key_length salt)
      else if algorithm == sha512
      then ok (lit "$6$rounds=" ++ (itoa iterations ++ (lit "$" ++ salt)))
      else err panics

  unfoldable pub validate_settings : Text → ℤ → ℤ → ℤ → ℤ → Result HashError (Unit {0})
  validate_settings algorithm iterations memory parallelism key_length =
      if algorithm == argon2id
      then validate_argon2id_settings memory parallelism iterations key_length
      else ok tt

  -- The salt of a new hash is made of the random text.
  unfoldable pub salt_or_new : Text → Text → Text
  salt_or_new random salt = if salt == [] then c.encode_base64 random else salt

  -- `HashPassword`, over the random text that a new salt is made of.
  unfoldable pub hash_password :
      Text → Text → Text → Text → ℤ → ℤ → ℤ → ℤ → ℤ → Result HashError Text
  hash_password random password salt algorithm iterations memory parallelism key_length
        salt_length =
      do
        reject (not (algorithm == argon2id) && not (algorithm == sha512)) invalid_algorithm
        validate_settings algorithm iterations memory parallelism key_length
        validate_salt salt salt_length
        settings ←
            get_crypt_settings (salt_or_new random salt) algorithm iterations memory parallelism
              key_length
        ok (c.crypt password settings)

  -- The hash of a password with the settings of another hash. Its salt is never new: an empty one
  -- is too short, so the random text is not read.
  unfoldable pub hash_again : Text → PasswordHash → Result HashError Text
  hash_again password h =
      hash_password [] password h.salt h.algorithm h.iterations h.memory h.parallelism h.key_length
        (pos (length h.salt))

  unfoldable pub check_password : Text → Text → Result HashError Bool
  check_password password hash = do
    expected ← parse_hash hash
    again ← hash_again password expected
    actual ← parse_hash again
    ok (actual.key == expected.key)
