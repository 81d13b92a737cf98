-- ===== src/Configuration/Password.antt =====
-- The file backend of validator/authentication.go: the settings of the hash.
pub mod Hashing
pub mod Hashes
use ldap_totp_nginx_auth.Prelude.{
  if◌then◌else◌, Text, List, [], ◌∷◌, ◌++◌, ◌==◌, lit, not, Bool, true, false, ◌&&◌, Option, none,
  some, ℤ, pos, ltb_ℤ, wrap_int64, scale, to_lower,
}
use ldap_totp_nginx_auth.Authentication.FileProvider.{PasswordConfiguration}
use ldap_totp_nginx_auth.Configuration.{check, int_eq}

pub record FileConfiguration : Type 0 where
  pub path : Text
  pub password : Option PasswordConfiguration

pub data PasswordError : Type 0 where
  path_missing unknown_algorithm bad_iterations bad_salt_length : PasswordError
  bad_parallelism bad_memory bad_key_length : PasswordError

-- `schema.DefaultPasswordConfiguration`.
abbrev pub default_password_configuration : PasswordConfiguration
default_password_configuration = record {
  iterations = pos 1;
  key_length = pos 32;
  salt_length = pos 16;
  algorithm = lit "argon2id";
  memory = pos 64;
  parallelism = pos 8;
}

-- `if n == 0 { n = default }`.
unfoldable pub int_or : ℤ → ℤ → ℤ
int_or n default = if int_eq n (pos 0) then default else n

-- A number that is set must not be below the bound.
unfoldable pub below : ℤ → ℤ → PasswordError → List PasswordError
below n bound e = check (not (int_eq n (pos 0)) && ltb_ℤ n bound) e

unfoldable pub algorithm_of : Text → Text
algorithm_of algorithm = if algorithm == [] then lit "argon2id" else to_lower algorithm

unfoldable pub algorithm_errors : Text → List PasswordError
algorithm_errors algorithm =
    check
      (not (algorithm == [])
        && (not (to_lower algorithm == lit "argon2id") && not (to_lower algorithm == lit "sha512")))
      unknown_algorithm

-- The settings of Argon2id, after the others.
unfoldable pub validate_argon2id :
    PasswordConfiguration → PasswordConfiguration × List PasswordError
validate_argon2id c =
    let parallelism = int_or c.parallelism (pos 8) in
    (
      record c {
        parallelism = parallelism;
        memory = int_or c.memory (pos 64);
        key_length = int_or c.key_length (pos 32);
      },
      below c.parallelism (pos 1) bad_parallelism
          ++ (below c.memory (wrap_int64 (scale 8 parallelism)) bad_memory
              ++ below c.key_length (pos 16) bad_key_length),
    )

-- The algorithm, the iterations and the length of the salt.
unfoldable pub validate_common : PasswordConfiguration → PasswordConfiguration × List PasswordError
validate_common c =
    let algorithm = algorithm_of c.algorithm in
    (
      record c {
        algorithm = algorithm;
        iterations = int_or c.iterations (if algorithm == lit "argon2id" then pos 1 else pos 50000);
        salt_length = int_or c.salt_length (pos 16);
      },
      algorithm_errors c.algorithm
          ++ (below c.iterations (pos 1) bad_iterations
              ++ below c.salt_length (pos 8) bad_salt_length),
    )

unfoldable pub validate_algorithm :
    PasswordConfiguration × List PasswordError → PasswordConfiguration × List PasswordError
validate_algorithm (c, errors) =
    let (c', more) = validate_argon2id c in
    if c.algorithm == lit "argon2id" then (c', errors ++ more) else (c, errors)

unfoldable pub validate_password :
    Option PasswordConfiguration → PasswordConfiguration × List PasswordError
validate_password none = (default_password_configuration, [])
validate_password (some c) = validate_algorithm (validate_common c)

-- `validateFileAuthenticationBackend`.
unfoldable pub validate_file :
    FileConfiguration → (Text × PasswordConfiguration) × List PasswordError
validate_file c =
    let (password, errors) = validate_password c.password in
    ((c.path, password), check (c.path == []) path_missing ++ errors)
