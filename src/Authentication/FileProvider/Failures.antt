-- ===== src/Authentication/FileProvider/Failures.antt =====
-- A change of a password that fails.
use ldap_totp_nginx_auth.Prelude.{
  Text, Bool, true, false, Option, none, some, Result, ok, err, pos, length, lookup, ◌≡◌, refl, sym,
  ap, subst, ◌⊎◌, inl, inr,
}
use ldap_totp_nginx_auth.Authentication.Hash.{Crypt, HashError}
use ldap_totp_nginx_auth.Authentication.FileProvider.{
  UserDetailsModel, FileUserProvider, ProviderError, marshal_failed, write_failed, hash_new,
  write_result, store_hash, update_found, update_password,
}
use ldap_totp_nginx_auth.Authentication.FileProvider.Refinement.{
  IsHashed, Changes, store_hash-Changes,
}

module _ (c : Crypt) where
  write_error :
      (marshals writes : Bool) (e : ProviderError)
      → write_result c marshals writes ≡ err e
      → (e ≡ marshal_failed) ⊎ (e ≡ write_failed)
  unfolding write_result
  write_error false writes e h = inl (cc h)
  write_error true false e h = inr (cc h)
  write_error true true e h = absurd (cc h)

  -- Nothing has changed, or the password has, and only the file is as it was.
  abbrev pub Fails : FileUserProvider → FileUserProvider → Text → Text → ProviderError → Type 0
  Fails p p' username new_password e =
      (p' ≡ p)
      ⊎ (((e ≡ marshal_failed) ⊎ (e ≡ write_failed)) × Changes c p p' username new_password)

  store_result-Fails :
      (random username new_password : Text) (p p' : FileUserProvider) (v : UserDetailsModel)
      (marshals writes : Bool) (made : Result HashError Text) (e : ProviderError)
      → IsHashed c random p.password new_password
      → pos (length random) ≡ p.password.salt_length
      → lookup username p.database ≡ some v
      → hash_new c random p.password new_password ≡ made
      → store_hash c p username v marshals writes made ≡ (p', err e)
      → Fails p p' username new_password e
  unfolding store_hash
  store_result-Fails random username new_password p p' v marshals writes (err x) e hashed fits found
        made h =
      inl (sym (ap (λ r. r.0) h))
  store_result-Fails random username new_password p p' v marshals writes (ok hash) e hashed fits
        found made h =
      inr (
        write_error marshals writes e (ap (λ r. r.1) h),
        subst (λ q. Changes c p q username new_password) (ap (λ r. r.0) h)
            (store_hash-Changes c random username new_password hash p v hashed fits found made),
      )

  -- Where a change of a password fails, nothing has changed, or only the file was not written and
  -- the provider accepts the new password from then on, where the library describes its hash as it
  -- was made.
  pub update_password-Fails :
      (random username new_password : Text) (p p' : FileUserProvider) (marshals writes : Bool)
      (e : ProviderError)
      → IsHashed c random p.password new_password
      → pos (length random) ≡ p.password.salt_length
      → update_password c random p username new_password marshals writes ≡ (p', err e)
      → Fails p p' username new_password e
  unfolding update_password update_found
  update_password-Fails random username new_password p p' marshals writes e hashed fits h =
      found_lem (lookup username p.database) refl h
    where
      found_lem :
          (found : Option UserDetailsModel)
          → lookup username p.database ≡ found
          → update_found c random p username new_password marshals writes found ≡ (p', err e)
          → Fails p p' username new_password e
      found_lem none found h = inl (sym (ap (λ r. r.0) h))
      found_lem (some v) found h =
          store_result-Fails random username new_password p p' v marshals writes _ e hashed fits
            found refl h
