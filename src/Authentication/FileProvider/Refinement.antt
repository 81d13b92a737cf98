-- ===== src/Authentication/FileProvider/Refinement.antt =====
-- The file provider as a map from users to passwords.
use ldap_totp_nginx_auth.Prelude.{
  Text, [], ◌∷◌, ◌==◌, ==_iff, ==_refl, Bool, true, false, Bool-cases, inl, inr, Option, none, some,
  Result, ok, err, ◌>>=◌, ◌>>◌, pos, length, wrap_int64, scale, lookup, insert, lookup-insert, ◌≡◌,
  ◌≢◌, refl, sym, ap, subst, ◌∙◌,
}
use ldap_totp_nginx_auth.Authentication.Hash.{
  PasswordHash, Crypt, HashError, parse_hash, hash_password, hash_again, check_password,
  config_algo_to_crypto_algo,
}
use ldap_totp_nginx_auth.Authentication.Hash.RoundTrip.{IsHashOf, check_password-hash_password}
use ldap_totp_nginx_auth.Authentication.FileProvider.{
  UserDetailsModel, Users, PasswordConfiguration, FileUserProvider, Files, Started, exits, panics,
  started, check_database, without_prefix, check_password_hashes, start_checked, read_database,
  new_found, new_file_user_provider, check_found, check_user_password, details_found, get_details,
  hash_new, store_hash, update_found, update_password,
}

module _ (c : Crypt) where
  -- Every stored hash parses.
  abbrev pub IsParsed : Users → Type 0
  IsParsed [] = Unit
  IsParsed ((username, v) ∷ users) =
      ((h : PasswordHash) × (parse_hash c v.hashed_password ≡ ok h)) × IsParsed users

  abbrev IsParsedResult : Result HashError Users → Type 0
  IsParsedResult (err e) = Unit
  IsParsedResult (ok users) = IsParsed users

  IsParsed-cons :
      (username : Text) (v : UserDetailsModel) (h : Result HashError PasswordHash)
      (r : Result HashError Users)
      → parse_hash c v.hashed_password ≡ h
      → IsParsedResult r
      → IsParsedResult (h >> (r >>= λ checked. ok ((username, v) ∷ checked)))
  IsParsed-cons username v (err e) r parsed k = tt
  IsParsed-cons username v (ok h) (err e) parsed k = tt
  IsParsed-cons username v (ok h) (ok users) parsed k = ((h, parsed), k)

  check_password_hashes-IsParsed : (users : Users) → IsParsedResult (check_password_hashes c users)
  unfolding check_password_hashes
  check_password_hashes-IsParsed [] = tt
  check_password_hashes-IsParsed ((username, v) ∷ users) =
      IsParsed-cons username (without_prefix c v) _ _ refl (check_password_hashes-IsParsed users)

  abbrev pub StartsParsed : Started → Type 0
  StartsParsed (started p) = IsParsed p.database
  StartsParsed (exits errors) = Unit
  StartsParsed panics = Unit

  start_checked-StartsParsed :
      (password : PasswordConfiguration) (r : Result HashError Users)
      → IsParsedResult r
      → StartsParsed (start_checked c password r)
  unfolding start_checked
  start_checked-StartsParsed password (err e) k = tt
  start_checked-StartsParsed password (ok users) k = k

  -- A provider that starts with the users of a file holds only passwords whose hashes parse.
  pub new_file_user_provider-StartsParsed :
      (password : PasswordConfiguration) (files : Files)
      → StartsParsed (new_file_user_provider c password files)
  unfolding new_file_user_provider check_database new_found read_database
  new_file_user_provider-StartsParsed password files = started_lem files.exists files.content
    where
      started_lem :
          (exists : Bool) (content : Option Users)
          → StartsParsed (new_found c password content (check_database exists files.generates))
      started_lem false content = tt
      started_lem true none = tt
      started_lem true (some users) =
          start_checked-StartsParsed password _ (check_password_hashes-IsParsed users)

  -- A hash that accepts a password parses.
  parses_of_accepts :
      (password hash : Text) {b : Bool}
      → check_password c password hash ≡ ok b
      → (h : PasswordHash) × (parse_hash c hash ≡ ok h)
  unfolding check_password
  parses_of_accepts password hash {b} e = parsed (parse_hash c hash) e
    where
      parsed :
          (r : Result HashError PasswordHash)
          → (r >>= λ expected. hash_again c password expected >>= λ again.
              parse_hash c again >>= λ actual. ok (actual.key == expected.key))
            ≡ ok b
          → (h : PasswordHash) × (r ≡ ok h)
      parsed (err x) e = absurd (cc e)
      parsed (ok h) e = (h, refl)

  IsParsed-insert :
      (username : Text) (v : UserDetailsModel) (users : Users)
      → (h : PasswordHash) × (parse_hash c v.hashed_password ≡ ok h)
      → IsParsed users
      → IsParsed (insert username v users)
  unfolding insert
  IsParsed-insert username v users parsed k = (parsed, k)

  -- The library describes each hash that the configuration of the provider makes.
  abbrev pub IsHashed : Text → PasswordConfiguration → Text → Type 0
  IsHashed random password new_password =
      (algorithm hash : Text)
      → config_algo_to_crypto_algo password.algorithm ≡ ok algorithm
      → hash_password c random new_password [] algorithm password.iterations
          (wrap_int64 (scale 1024 password.memory)) password.parallelism password.key_length
          password.salt_length
        ≡ ok hash
      → IsHashOf c random hash algorithm password.iterations
          (wrap_int64 (scale 1024 password.memory)) password.parallelism password.key_length

  hash_new-accepts :
      (random new_password : Text) (password : PasswordConfiguration) (hash : Text)
      → IsHashed random password new_password
      → pos (length random) ≡ password.salt_length
      → hash_new c random password new_password ≡ ok hash
      → check_password c new_password hash ≡ ok true
  unfolding hash_new
  hash_new-accepts random new_password password hash hashed fits =
      accepted (config_algo_to_crypto_algo password.algorithm) refl
    where
      accepted :
          (algorithm : Result HashError Text)
          → config_algo_to_crypto_algo password.algorithm ≡ algorithm
          → (algorithm >>= λ a.
              hash_password c random new_password [] a password.iterations
                (wrap_int64 (scale 1024 password.memory))
                password.parallelism
                password.key_length
                password.salt_length)
            ≡ ok hash
          → check_password c new_password hash ≡ ok true
      accepted (err x) known e = absurd (cc e)
      accepted (ok algorithm) known e =
          check_password-hash_password c random new_password algorithm hash password.iterations
            (wrap_int64 (scale 1024 password.memory)) password.parallelism password.key_length
            password.salt_length fits e (hashed algorithm hash known e)

  -- The provider after a change of a user's password is the one before, as a map, but for that
  -- user, whose password is the new one.
  abbrev pub Changes : FileUserProvider → FileUserProvider → Text → Text → Type 0
  Changes p p' username new_password =
      (check_user_password c p' username new_password ≡ ok true)
      × ((other password : Text)
          → username ≢ other
          → check_user_password c p' other password ≡ check_user_password c p other password)
      × ((other : Text) → get_details c p' other ≡ get_details c p other)

  lookup-other :
      (p : FileUserProvider) (username other : Text) (v : UserDetailsModel)
      → username ≢ other
      → lookup other (insert username v p.database) ≡ lookup other p.database
  lookup-other p username other v apart =
      lookup-insert username other v p.database ∙ (elim (Bool-cases (username == other)) [
        | inl same ↦ absurd (apart ((==_iff username other).0 same))
        | inr e ↦ rw e
      ])

  same_details :
      (username : Text) (v : UserDetailsModel) (hash : Text) (p : FileUserProvider)
      → lookup username p.database ≡ some v
      → (other : Text)
      → details_found c other
          (lookup other (insert username (record v { hashed_password = hash }) p.database))
        ≡ details_found c other (lookup other p.database)
  unfolding details_found
  same_details username v hash p found other = elim (Bool-cases (username == other)) [
    | inl fits ↦
        let e = (==_iff username other).0 fits in
        let there : lookup other p.database ≡ some v =
          ap (λ u. lookup u p.database) (sym e) ∙ found in
        rw (
          lookup-insert username other (record v { hashed_password = hash }) p.database,
          fits,
          there,
        )
    | inr e ↦ rw (lookup-insert username other (record v { hashed_password = hash }) p.database, e)
  ]

  pub store_hash-Changes :
      (random username new_password hash : Text) (p : FileUserProvider) (v : UserDetailsModel)
      → IsHashed random p.password new_password
      → pos (length random) ≡ p.password.salt_length
      → lookup username p.database ≡ some v
      → hash_new c random p.password new_password ≡ ok hash
      → Changes p
          (record p { database = insert username (record v { hashed_password = hash }) p.database })
          username
          new_password
  unfolding check_user_password get_details check_found
  store_hash-Changes random username new_password hash p v hashed fits found made = (
    rw
        (
          lookup-insert username username (record v { hashed_password = hash }) p.database,
          ==_refl username,
          hash_new-accepts random new_password p.password hash hashed fits made,
        )
        refl,
    λ other password apart.
        ap (check_found c password)
          (lookup-other p username other (record v { hashed_password = hash }) apart),
    same_details username v hash p found,
  )

  store_result-Changes :
      (random username new_password : Text) (p p' : FileUserProvider) (v : UserDetailsModel)
      (marshals writes : Bool) (made : Result HashError Text)
      → IsHashed random p.password new_password
      → pos (length random) ≡ p.password.salt_length
      → lookup username p.database ≡ some v
      → hash_new c random p.password new_password ≡ made
      → store_hash c p username v marshals writes made ≡ (p', ok tt)
      → Changes p p' username new_password
  unfolding store_hash
  store_result-Changes random username new_password p p' v marshals writes (err x) hashed fits found
        made e =
      absurd (cc (ap (λ r. r.1) e))
  store_result-Changes random username new_password p p' v marshals writes (ok hash) hashed fits
        found made e =
      subst (λ q. Changes p q username new_password) (ap (λ r. r.0) e)
        (store_hash-Changes random username new_password hash p v hashed fits found made)

  -- A new password that is stored without an error is accepted for its user, and changes neither
  -- the passwords of other users nor the details of any, where the library describes its hash as
  -- it was made.
  pub update_password-Changes :
      (random username new_password : Text) (p p' : FileUserProvider) (marshals writes : Bool)
      → IsHashed random p.password new_password
      → pos (length random) ≡ p.password.salt_length
      → update_password c random p username new_password marshals writes ≡ (p', ok tt)
      → Changes p p' username new_password
  unfolding update_password update_found
  update_password-Changes random username new_password p p' marshals writes hashed fits e =
      found_lem (lookup username p.database) refl e
    where
      found_lem :
          (found : Option UserDetailsModel)
          → lookup username p.database ≡ found
          → update_found c random p username new_password marshals writes found ≡ (p', ok tt)
          → Changes p p' username new_password
      found_lem none found e = absurd (cc (ap (λ r. r.1) e))
      found_lem (some v) found e =
          store_result-Changes random username new_password p p' v marshals writes _ hashed fits
            found refl e
