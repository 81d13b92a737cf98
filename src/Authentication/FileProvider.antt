-- ===== src/Authentication/FileProvider.antt =====
-- internal/authentication/file_user_provider.go: users in a YAML file. The file system and the YAML
-- library are parameters: what reading gives, and whether writing works.
pub mod Refinement
pub mod Failures
use ldap_totp_nginx_auth.Prelude.{
  Text, List, [], ◌∷◌, lit, Bool, true, false, Option, none, some, Result, ok, err, ◌>>=◌, ◌>>◌, ℤ,
  wrap_int64, scale, lookup, insert, replace_all,
}
use ldap_totp_nginx_auth.Authentication.{UserDetails}
use ldap_totp_nginx_auth.Authentication.Hash.{
  Crypt, HashError, parse_hash, config_algo_to_crypto_algo, hash_password, check_password,
}

pub record UserDetailsModel : Type 0 where
  pub hashed_password : Text
  pub display_name : Text
  pub email : Text
  pub groups : List Text

-- `DatabaseModel`: the map of users.
abbrev pub Users : Type 0
Users = List (Text × UserDetailsModel)

-- `schema.PasswordConfiguration`.
pub record PasswordConfiguration : Type 0 where
  pub iterations : ℤ
  pub key_length : ℤ
  pub salt_length : ℤ
  pub algorithm : Text
  pub memory : ℤ
  pub parallelism : ℤ

pub record FileUserProvider : Type 0 where
  pub password : PasswordConfiguration
  pub database : Users

pub data ProviderError : Type 0 where
  user_not_found user_does_not_exist marshal_failed write_failed : ProviderError
  hash_failed : HashError → ProviderError

-- What `checkDatabase` reports.
pub data DatabaseError : Type 0 where
  unable_to_find_database generating_database unable_to_generate generated_database : DatabaseError

-- The file system at the start: the file is there, it can be generated, and what it holds, where it
-- can be read, parsed and validated.
pub record Files : Type 0 where
  pub exists : Bool
  pub generates : Bool
  pub content : Option Users

unfoldable pub generate_database_from_template : Bool → DatabaseError
generate_database_from_template false = unable_to_generate
generate_database_from_template true = generated_database

unfoldable pub check_database : Bool → Bool → List DatabaseError
check_database true generates = []
check_database false generates =
    unable_to_find_database ∷ generating_database ∷ generate_database_from_template generates ∷ []

-- How the constructor ends: `os.Exit(1)`, a panic, or a provider.
pub data Started : Type 0 where
  exits : List DatabaseError → Started
  panics : Started
  started : FileUserProvider → Started

module _ (c : Crypt) where
  unfoldable pub without_prefix : UserDetailsModel → UserDetailsModel
  without_prefix v = record v { hashed_password = replace_all v.hashed_password (lit "{CRYPT}") [] }

  -- The loop over the map, in some order of its users.
  unfoldable pub check_password_hashes : Users → Result HashError Users
  check_password_hashes [] = ok []
  check_password_hashes ((username, v) ∷ users) =
      parse_hash c (without_prefix v).hashed_password
      >> (check_password_hashes users >>= λ checked. ok ((username, without_prefix v) ∷ checked))

  unfoldable pub start_checked : PasswordConfiguration → Result HashError Users → Started
  start_checked password (err e) = panics
  start_checked password (ok users) = started (record { password = password; database = users })

  unfoldable pub read_database : PasswordConfiguration → Option Users → Started
  read_database password none = panics
  read_database password (some users) = start_checked password (check_password_hashes users)

  -- `NewFileUserProvider`.
  unfoldable pub new_found : PasswordConfiguration → Option Users → List DatabaseError → Started
  new_found password content (e ∷ errors) = exits (e ∷ errors)
  new_found password content [] = read_database password content

  unfoldable pub new_file_user_provider : PasswordConfiguration → Files → Started
  new_file_user_provider password files =
      new_found password files.content (check_database files.exists files.generates)

  abbrev as_provider_error : Result HashError Bool → Result ProviderError Bool
  as_provider_error (err e) = err (hash_failed e)
  as_provider_error (ok b) = ok b

  unfoldable pub check_found : Text → Option UserDetailsModel → Result ProviderError Bool
  check_found password none = err user_not_found
  check_found password (some v) = as_provider_error (check_password c password v.hashed_password)

  unfoldable pub check_user_password : FileUserProvider → Text → Text → Result ProviderError Bool
  check_user_password p username password = check_found password (lookup username p.database)

  unfoldable pub details_found : Text → Option UserDetailsModel → Result ProviderError UserDetails
  details_found username none = err user_does_not_exist
  details_found username (some v) = ok (record {
    username = username;
    display_name = v.display_name;
    groups = v.groups;
    emails = some (v.email ∷ []);
  })

  unfoldable pub get_details : FileUserProvider → Text → Result ProviderError UserDetails
  get_details p username = details_found username (lookup username p.database)

  -- The hash of a new password, with the memory in KiB.
  unfoldable pub hash_new : Text → PasswordConfiguration → Text → Result HashError Text
  hash_new random password new_password =
      config_algo_to_crypto_algo password.algorithm >>= λ algorithm.
      hash_password c random new_password [] algorithm password.iterations
        (wrap_int64 (scale 1024 password.memory)) password.parallelism password.key_length
        password.salt_length

  unfoldable pub write_result : Bool → Bool → Result ProviderError (Unit {0})
  write_result false written = err marshal_failed
  write_result true false = err write_failed
  write_result true true = ok tt

  -- The user is changed in memory before the file is written.
  unfoldable pub store_hash :
      FileUserProvider
      → Text
      → UserDetailsModel
      → Bool
      → Bool
      → Result HashError Text
      → FileUserProvider × Result ProviderError (Unit {0})
  store_hash p username v marshals writes (err e) = (p, err (hash_failed e))
  store_hash p username v marshals writes (ok hash) = (
    record p { database = insert username (record v { hashed_password = hash }) p.database },
    write_result marshals writes,
  )

  unfoldable pub update_found :
      Text
      → FileUserProvider
      → Text
      → Text
      → Bool
      → Bool
      → Option UserDetailsModel
      → FileUserProvider × Result ProviderError (Unit {0})
  update_found random p username new_password marshals writes none = (p, err user_not_found)
  update_found random p username new_password marshals writes (some v) =
      store_hash p username v marshals writes (hash_new random p.password new_password)

  -- `UpdatePassword`, over the random text of the salt and whether the file can be written.
  unfoldable pub update_password :
      Text
      → FileUserProvider
      → Text
      → Text
      → Bool
      → Bool
      → FileUserProvider × Result ProviderError (Unit {0})
  update_password random p username new_password marshals writes =
      update_found random p username new_password marshals writes (lookup username p.database)
