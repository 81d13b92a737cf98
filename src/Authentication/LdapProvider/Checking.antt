-- ===== src/Authentication/LdapProvider/Checking.antt =====
-- A password is right where its user has bound with it, and is changed for its user.
use ldap_totp_nginx_auth.Prelude.{
  Text, List, ◌∷◌, ◌++◌, ◌==◌, ==_iff, lit, Bool, true, false, Bool-cases, inl, inr, ok, ℕ, ◌≡◌,
  ◌≢◌, sym, ap, ◌∙◌, subst,
}
use ldap_totp_nginx_auth.Prelude.Actions.{give, proceed, done_or-eq-ok, proceed-eq-ok}
use ldap_totp_nginx_auth.Authentication.Directory.{
  search, bind, close, dial, replace, password_modify, LdapCall, LdapTrace, Directory,
  authentication_failed, update_failed, deferring, relabel, deferring-eq-ok, relabel-eq-ok,
}
use ldap_totp_nginx_auth.Authentication.LdapProfile.{LdapUserProfile}
use ldap_totp_nginx_auth.Authentication.LdapProvider.{
  LdapUserProvider, connect, connect_as_configured, user_request, get_user_profile, bind_profile,
  check_with, check_user_password, modify, update_with, update_password,
}
use ldap_totp_nginx_auth.Authentication.LdapProvider.Binding.{
  Finds, get_user_profile_lem, connect_lem,
}

-- In the end both connections are closed, after a bind as the entry that was found.
pub record IsBound (dir : Directory) (p : LdapUserProvider) (input_username password : Text)
    (t : LdapTrace) : Type 0 where
  pub conn : ℕ
  pub user_conn : ℕ
  pub dn : Text
  pub searched : LdapTrace
  pub calls : List LdapCall
  pub found : Finds dir p input_username conn dn searched
  pub accepted :
      dir.bind user_conn dn password (
        calls
        ++ (dial p.configuration.url ∷ search conn (user_request dir p input_username) ∷ searched))
      ≡ true
  pub ends :
      t
      ≡ close conn
        ∷ close user_conn
        ∷ bind user_conn dn password
        ∷ (calls
            ++ (dial p.configuration.url
                ∷ search conn (user_request dir p input_username)
                ∷ searched))

-- The change of a password that the directory has accepted.
pub data IsChange (dir : Directory) (p : LdapUserProvider) (new_password : Text) (conn : ℕ)
    (dn : Text) (t : LdapTrace) : LdapCall → Type 0 where
  extended :
      p.support_extension_passwd_modify ≡ true
      → dir.password_modify conn dn new_password t ≡ true
      → IsChange dir p new_password conn dn t (password_modify conn dn new_password)
  active_directory :
      p.support_extension_passwd_modify ≡ false
      → p.configuration.implementation ≡ lit "activedirectory"
      → dir.replace conn dn
          (lit "unicodePwd")
          (dir.utf16 (lit "\"" ++ (new_password ++ lit "\"")))
          t
        ≡ true
      → IsChange dir p new_password conn dn t
          (replace conn dn (lit "unicodePwd") (dir.utf16 (lit "\"" ++ (new_password ++ lit "\""))))
  plain :
      p.support_extension_passwd_modify ≡ false
      → p.configuration.implementation ≢ lit "activedirectory"
      → dir.replace conn dn (lit "userPassword") new_password t ≡ true
      → IsChange dir p new_password conn dn t (replace conn dn (lit "userPassword") new_password)

-- In the end the connection is closed, after a change of the entry that was found.
pub record IsUpdated (dir : Directory) (p : LdapUserProvider) (input_username new_password : Text)
    (t : LdapTrace) : Type 0 where
  pub conn : ℕ
  pub dn : Text
  pub searched : LdapTrace
  pub change : LdapCall
  pub found : Finds dir p input_username conn dn searched
  pub changed :
      IsChange dir p new_password conn dn
        (search conn (user_request dir p input_username) ∷ searched)
        change
  pub ends : t ≡ close conn ∷ change ∷ search conn (user_request dir p input_username) ∷ searched

module _ (dir : Directory) (p : LdapUserProvider) where
  bind_profile_lem :
      (password : Text) (profile : LdapUserProfile) (t : LdapTrace) {b : Bool} {t' : LdapTrace}
      → bind_profile dir p password profile t ≡ (ok b, t')
      → (b ≡ true)
        × (user_conn : ℕ) × (calls : List LdapCall) × (dir.bind user_conn profile.dn password
              (calls ++ (dial p.configuration.url ∷ t))
            ≡ true)
        × (t'
            ≡ close user_conn
              ∷ bind user_conn profile.dn password
              ∷ (calls ++ (dial p.configuration.url ∷ t)))
  unfolding bind_profile
  bind_profile_lem password profile t h =
      let (user_conn, t1, related, finished) =
        proceed-eq-ok (λ c. deferring c (give (ok true)))
          (relabel authentication_failed (connect dir p profile.dn password t)) h in
      let (calls, ends, accepted) =
        connect_lem dir p profile.dn password t (relabel-eq-ok authentication_failed _ related) in
      (
        cc finished,
        user_conn,
        calls,
        accepted,
        sym (ap (λ x. x.1) finished) ∙ ap (λ x. close user_conn ∷ x) ends,
      )

  -- Where the directory provider answers whether a password is right, it is right, and the
  -- directory has accepted a bind with it as the entry, with a DN, that was alone in the answer to
  -- the search for the user, after which both connections are closed.
  pub check_user_password-IsBound :
      (input_username password : Text) (t : LdapTrace) {b : Bool} {t' : LdapTrace}
      → check_user_password dir p input_username password t ≡ (ok b, t')
      → (b ≡ true) × IsBound dir p input_username password t'
  unfolding check_user_password check_with
  check_user_password-IsBound input_username password t {b} {t'} h =
      let (conn, t1, connected, checked) =
        proceed-eq-ok (check_with dir p input_username password) (connect_as_configured dir p t)
          h in
      let (t2, inner, closed) =
        deferring-eq-ok conn
          (λ u.
            proceed (bind_profile dir p password) (get_user_profile dir p conn input_username u))
          t1 checked in
      let (profile, t3, got, bound) =
        proceed-eq-ok (bind_profile dir p password) (get_user_profile dir p conn input_username t1)
          inner in
      let (after, finds) = get_user_profile_lem dir p conn input_username t1 got in
      let (right, user_conn, calls, accepted, ends) = bind_profile_lem password profile t3 bound in
      let url = p.configuration.url in
      (
        right,
        record {
          conn = conn;
          user_conn = user_conn;
          dn = profile.dn;
          searched = t1;
          calls = calls;
          found = finds;
          accepted =
              subst (λ u. dir.bind user_conn profile.dn password (calls ++ (dial url ∷ u)) ≡ true)
                after accepted;
          ends =
              closed
              ∙ ap (λ u. close conn ∷ u)
                  (subst
                    (λ u.
                      t2
                      ≡ close user_conn
                        ∷ bind user_conn profile.dn password
                        ∷ (calls ++ (dial url ∷ u)))
                    after ends);
        },
      )

  modify_lem :
      (new_password : Text) (conn : ℕ) (profile : LdapUserProfile) (t : LdapTrace) {u : Unit {0}}
      {t' : LdapTrace}
      → modify dir p new_password conn profile t ≡ (ok u, t')
      → (change : LdapCall) × IsChange dir p new_password conn profile.dn t change
        × (t' ≡ change ∷ t)
  unfolding modify
  modify_lem new_password conn profile t = elim (Bool-cases p.support_extension_passwd_modify) [
    | inl e ↦ simp e (λ h.
        (_, extended e (done_or-eq-ok update_failed _ (ap (λ x. x.0) h)), sym (ap (λ x. x.1) h)))
    | inr e ↦ elim (Bool-cases (p.configuration.implementation == lit "activedirectory")) [
      | inl f ↦
          simp (e, f)
            (λ h. (
              _,
              active_directory e ((==_iff _ _).0 f)
                  (done_or-eq-ok update_failed _ (ap (λ x. x.0) h)),
              sym (ap (λ x. x.1) h),
            ))
      | inr f ↦
          simp (e, f)
            (λ h. (
              _,
              plain e (λ k. absurd (cc (f, (==_iff _ _).1 k)))
                  (done_or-eq-ok update_failed _ (ap (λ x. x.0) h)),
              sym (ap (λ x. x.1) h),
            ))
    ]
  ]

  -- Where the directory provider changes a password without an error, the directory has accepted
  -- the change, in the way that it supports or that is configured, of the entry that was alone in
  -- the answer to the search for the user, after which the connection is closed.
  pub update_password-IsUpdated :
      (input_username new_password : Text) (t : LdapTrace) {t' : LdapTrace}
      → update_password dir p input_username new_password t ≡ (ok tt, t')
      → IsUpdated dir p input_username new_password t'
  unfolding update_password update_with
  update_password-IsUpdated input_username new_password t {t'} h =
      let (conn, t1, connected, updated) =
        proceed-eq-ok (update_with dir p input_username new_password)
          (relabel update_failed (connect_as_configured dir p t)) h in
      let (t2, inner, closed) =
        deferring-eq-ok conn
          (λ u.
            proceed (modify dir p new_password conn)
              (relabel update_failed (get_user_profile dir p conn input_username u)))
          t1 updated in
      let (profile, t3, related, modified) =
        proceed-eq-ok (modify dir p new_password conn)
          (relabel update_failed (get_user_profile dir p conn input_username t1)) inner in
      let (after, finds) =
        get_user_profile_lem dir p conn input_username t1 (relabel-eq-ok update_failed _ related) in
      let (change, changed, ends) = modify_lem new_password conn profile t3 modified in
      record {
        conn = conn;
        dn = profile.dn;
        searched = t1;
        change = change;
        found = finds;
        changed = subst (λ u. IsChange dir p new_password conn profile.dn u change) after changed;
        ends = closed ∙ ap (λ u. close conn ∷ u) (subst (λ u. t2 ≡ change ∷ u) after ends);
      }
