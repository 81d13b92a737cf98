-- ===== src/Tests/Passwords.antt =====
-- Hashes of passwords and the users of a file, over a library that puts the password at the end of
-- its settings, encodes a text as itself, and knows one number of rounds.
use ldap_totp_nginx_auth.Prelude.{
  if◌then◌else◌, Text, List, [], ◌∷◌, ◌++◌, ◌==◌, lit, Bool, true, false, some, ok, split, pos, ◌≡◌,
  refl, sym, subst, inr, lookup, insert, texts, wrap_int64, itoa, to_int64,
}
use ldap_totp_nginx_auth.Authentication.Hash.{
  sha512, Settings, Crypt, config_algo_to_crypto_algo, validate_salt, get_crypt_settings,
  validate_settings, salt_or_new, hash_password, check_password,
}
use ldap_totp_nginx_auth.Authentication.Hash.RoundTrip.{IsHashOf, check_password-hash_password}
use ldap_totp_nginx_auth.Authentication.FileProvider.{
  UserDetailsModel, PasswordConfiguration, FileUserProvider, write_failed, new_file_user_provider,
  hash_new, write_result, store_hash, update_found, update_password,
}
use ldap_totp_nginx_auth.Authentication.FileProvider.Refinement.{
  StartsParsed, IsHashed, Changes, new_file_user_provider-StartsParsed, update_password-Changes,
}
use ldap_totp_nginx_auth.Authentication.FileProvider.Failures.{Fails, update_password-Fails}

abbrev settings_of : List Text → Settings
settings_of (code ∷ rounds ∷ salt ∷ key ∷ []) = record {
  code = code;
  parameters = (lit "rounds", lit "5000") ∷ [];
  salt = salt;
  key = key;
}
settings_of _ = record { code = []; parameters = []; salt = []; key = [] }

abbrev pub plain_crypt : Crypt
plain_crypt = record {
  decode_settings = λ hash. settings_of (split b'$' hash).1;
  get_int = λ parameters name default. if name == lit "rounds" then pos 5000 else default;
  decode_base64 = λ s. some s;
  encode_base64 = λ s. s;
  argon2id_settings = λ m t p k salt. salt;
  crypt = λ password settings. settings ++ (lit "$" ++ password);
}

abbrev secret_hash : Text
secret_hash = lit "$6$rounds=5000$saltsalt$secret"

abbrev sha512_settings : PasswordConfiguration
sha512_settings = record {
  iterations = pos 5000;
  key_length = pos 0;
  salt_length = pos 8;
  algorithm = lit "sha512";
  memory = pos 0;
  parallelism = pos 0;
}

hashes_secret :
    hash_password plain_crypt
      (lit "saltsalt")
      (lit "secret")
      []
      sha512
      (pos 5000)
      (pos 0)
      (pos 0)
      (pos 0)
      (pos 8)
    ≡ ok secret_hash
unfolding hash_password validate_settings validate_salt salt_or_new get_crypt_settings itoa texts
hashes_secret = refl

secret_hash-IsHashOf :
    IsHashOf plain_crypt (lit "saltsalt") secret_hash sha512 (pos 5000) (pos 0) (pos 0) (pos 0)
unfolding texts itoa lookup
secret_hash-IsHashOf = record {
  decodes = refl;
  salt_given = λ e. cc e;
  described = record { code = refl; salted = refl; last = refl; given = λ e. cc e };
  parameters = inr (refl, record { rounds = refl; number = refl });
}

check_password-hash_password_example :
    check_password plain_crypt (lit "secret") secret_hash ≡ ok true
unfolding lit
check_password-hash_password_example =
    check_password-hash_password plain_crypt (lit "saltsalt") (lit "secret") sha512 secret_hash
      (pos 5000) (pos 0) (pos 0) (pos 0) (pos 8) refl hashes_secret secret_hash-IsHashOf

abbrev john : UserDetailsModel
john = record {
  hashed_password = lit "{CRYPT}$6$rounds=5000$saltsalt$old";
  display_name = lit "John";
  email = lit "john@example.com";
  groups = lit "admins" ∷ [];
}

new_file_user_provider-StartsParsed_example : StartsParsed plain_crypt (
    new_file_user_provider plain_crypt sha512_settings
      (record { exists = true; generates = true; content = some ((lit "john", john) ∷ []) }))
new_file_user_provider-StartsParsed_example =
    new_file_user_provider-StartsParsed plain_crypt sha512_settings
      (record { exists = true; generates = true; content = some ((lit "john", john) ∷ []) })

abbrev users_of_file : FileUserProvider
users_of_file = record { password = sha512_settings; database = (lit "john", john) ∷ [] }

abbrev with_secret : FileUserProvider
with_secret = record {
  password = sha512_settings;
  database = (lit "john", record john { hashed_password = secret_hash }) ∷ (lit "john", john) ∷ [];
}

secret-IsHashed : IsHashed plain_crypt (lit "saltsalt") sha512_settings (lit "secret")
unfolding config_algo_to_crypto_algo wrap_int64 to_int64 texts
secret-IsHashed algorithm hash known made =
    let same_algorithm : sha512 ≡ algorithm = cc known in
    let of_algorithm : Text → Type 0 = λ a.
      hash_password plain_crypt (lit "saltsalt") (lit "secret") [] a (pos 5000) (pos 0) (pos 0)
        (pos 0) (pos 8)
      ≡ ok hash in
    let same_hash : secret_hash ≡ hash =
      cc (hashes_secret, subst of_algorithm (sym same_algorithm) made) in
    let is_hash : Text → Text → Type 0 =
      λ a h. IsHashOf plain_crypt (lit "saltsalt") h a (pos 5000) (pos 0) (pos 0) (pos 0) in
    subst (λ h. is_hash algorithm h) same_hash
      (subst (λ a. is_hash a secret_hash) same_algorithm secret_hash-IsHashOf)

updates :
    (writes : Bool)
    → update_password plain_crypt
        (lit "saltsalt")
        users_of_file
        (lit "john")
        (lit "secret")
        true
        writes
      ≡ (with_secret, write_result plain_crypt true writes)
unfolding update_password update_found store_hash hash_new config_algo_to_crypto_algo hash_password
    validate_settings validate_salt salt_or_new get_crypt_settings itoa wrap_int64 to_int64 lookup
    insert texts
updates writes = refl

update_password-Changes_example :
    Changes plain_crypt users_of_file with_secret (lit "john") (lit "secret")
unfolding write_result lit
update_password-Changes_example =
    update_password-Changes plain_crypt (lit "saltsalt") (lit "john") (lit "secret") users_of_file
      with_secret true true secret-IsHashed refl (updates true)

update_password-Fails_example :
    Fails plain_crypt users_of_file with_secret (lit "john") (lit "secret") write_failed
unfolding write_result lit
update_password-Fails_example =
    update_password-Fails plain_crypt (lit "saltsalt") (lit "john") (lit "secret") users_of_file
      with_secret true false write_failed secret-IsHashed refl (updates false)
