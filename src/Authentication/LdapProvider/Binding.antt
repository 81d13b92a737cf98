-- ===== src/Authentication/LdapProvider/Binding.antt =====
-- Whose entry the provider acts on: the one entry that the search for the user has given.
use ldap_totp_nginx_auth.Prelude.{
  Text, List, [], ◌∷◌, ◌++◌, ◌==◌, ==_iff, true, Bool-cases, inl, inr, none, some, Result, ok, err,
  ℕ, ◌≡◌, ◌≢◌, refl, sym, ap, ◌∙◌, subst,
}
use ldap_totp_nginx_auth.Prelude.Actions.{
  give, proceed, some_or, done_or, some_or-eq-ok, done_or-eq-ok, proceed-eq-ok,
}
use ldap_totp_nginx_auth.Authentication.Directory.{
  Attribute, Entry, LdapCall, search, bind, dial, start_tls, LdapTrace, Directory, LdapError,
  not_bound, search_failed, no_connection,
}
use ldap_totp_nginx_auth.Authentication.LdapProfile.{
  LdapConfiguration, LdapUserProfile, first_value, only_value, read_display_name, read_emails,
  read_username, read_emails_and_username, read_attributes,
}
use ldap_totp_nginx_auth.Authentication.LdapProvider.{
  LdapUserProvider, secure, bind_user, connect, user_request, with_dn, use_entries,
  get_user_profile,
}

-- The attributes leave the DN of the profile as it is.
abbrev HasDn : Text → Result LdapError LdapUserProfile → Type 0
HasDn dn (ok profile) = profile.dn ≡ dn
HasDn dn (err e) = Unit

first_value-HasDn :
    (values : List Text) (profile : LdapUserProfile) → HasDn profile.dn (first_value values profile)
unfolding first_value
first_value-HasDn [] profile = tt
first_value-HasDn (value ∷ values) profile = refl

only_value-HasDn :
    (values : List Text) (profile : LdapUserProfile) → HasDn profile.dn (only_value values profile)
unfolding only_value
only_value-HasDn [] profile = tt
only_value-HasDn (value ∷ []) profile = refl
only_value-HasDn (value ∷ value' ∷ values) profile = tt

module _ (c : LdapConfiguration) where
  read_display_name-HasDn :
      (attr : Attribute) (profile : LdapUserProfile)
      → HasDn profile.dn (read_display_name c attr profile)
  unfolding read_display_name
  read_display_name-HasDn attr profile = elim (Bool-cases (attr.name == c.display_name_attribute)) [
    | inl e ↦ rw e (first_value-HasDn attr.values profile)
    | inr e ↦ rw e refl
  ]

  read_username-HasDn :
      (attr : Attribute) (profile : LdapUserProfile)
      → HasDn profile.dn (read_username c attr profile)
  unfolding read_username
  read_username-HasDn attr profile = elim (Bool-cases (attr.name == c.username_attribute)) [
    | inl e ↦ rw e (only_value-HasDn attr.values profile)
    | inr e ↦ rw e refl
  ]

  read_emails_dn :
      (attr : Attribute) (profile : LdapUserProfile) → (read_emails c attr profile).dn ≡ profile.dn
  unfolding read_emails
  read_emails_dn attr profile = elim (Bool-cases (attr.name == c.mail_attribute)) [
    | inl e ↦ rw e refl
    | inr e ↦ rw e refl
  ]

  read_emails_and_username-HasDn :
      (dn : Text) (attr : Attribute) (r : Result LdapError LdapUserProfile)
      → HasDn dn r
      → HasDn dn (read_emails_and_username c attr r)
  unfolding read_emails_and_username
  read_emails_and_username-HasDn dn attr (err e) h = tt
  read_emails_and_username-HasDn dn attr (ok profile) h =
      subst (λ d. HasDn d (read_username c attr (read_emails c attr profile)))
        (read_emails_dn attr profile ∙ h) (read_username-HasDn attr (read_emails c attr profile))

  read_attributes-HasDn :
      (dn : Text) (attributes : List Attribute) (r : Result LdapError LdapUserProfile)
      → HasDn dn r
      → HasDn dn (read_attributes c attributes r)
  unfolding read_attributes
  read_attributes-HasDn dn attributes (err e) h = tt
  read_attributes-HasDn dn [] (ok profile) h = h
  read_attributes-HasDn dn (attr ∷ attributes) (ok profile) h =
      read_attributes-HasDn dn attributes _ (
        read_emails_and_username-HasDn dn attr (read_display_name c attr profile) (
          subst (λ d. HasDn d (read_display_name c attr profile)) h
            (read_display_name-HasDn attr profile)))

module _ (dir : Directory) (p : LdapUserProvider) where
  -- A connection was told to search for the user at the trace, and found one entry with a DN.
  abbrev pub Finds : Text → ℕ → Text → LdapTrace → Type 0
  Finds input_username conn dn t =
      (entry : Entry) × (dir.search conn (user_request dir p input_username) t ≡ some (entry ∷ []))
      × (entry.dn ≡ dn)
      × (dn ≢ [])

  with_dn_lem :
      (dn : Text) (r : Result LdapError LdapUserProfile) {profile : LdapUserProfile}
      → HasDn dn r
      → with_dn dir p r ≡ ok profile
      → (profile.dn ≡ dn) × (dn ≢ [])
  unfolding with_dn
  with_dn_lem dn (err e) h = λ g. absurd (cc g)
  with_dn_lem dn (ok profile) h = elim (Bool-cases (profile.dn == [])) [
    | inl e ↦ rw e (λ g. absurd (cc g))
    | inr e ↦ rw e (λ g. (cc (g, h), λ k. absurd (cc (e, (==_iff profile.dn []).1 (h ∙ k)))))
  ]

  use_entries_lem :
      (entries : List Entry) {profile : LdapUserProfile}
      → use_entries dir p entries ≡ ok profile
      → (entry : Entry) × (entries ≡ entry ∷ []) × (profile.dn ≡ entry.dn) × (entry.dn ≢ [])
  unfolding use_entries
  use_entries_lem [] h = absurd (cc h)
  use_entries_lem (entry ∷ entry' ∷ entries) h = absurd (cc h)
  use_entries_lem (entry ∷ []) h =
      let r =
        read_attributes p.configuration entry.attributes
          (ok (record { dn = entry.dn; emails = none; display_name = []; username = [] })) in
      let (same_dn, named) =
        with_dn_lem entry.dn r
          (read_attributes-HasDn p.configuration entry.dn entry.attributes _ refl) h in
      (entry, refl, same_dn, named)

  pub get_user_profile_lem :
      (conn : ℕ) (input_username : Text) (t : LdapTrace) {profile : LdapUserProfile}
      {t' : LdapTrace}
      → get_user_profile dir p conn input_username t ≡ (ok profile, t')
      → (t' ≡ search conn (user_request dir p input_username) ∷ t)
        × Finds input_username conn profile.dn t
  unfolding get_user_profile
  get_user_profile_lem conn input_username t h =
      let request = user_request dir p input_username in
      let (entries, t1, answered, used) =
        proceed-eq-ok (λ entries. give (use_entries dir p entries))
          (some_or search_failed (dir.search conn request t), search conn request ∷ t) h in
      let (entry, one, same_dn, named) = use_entries_lem entries (ap (λ x. x.0) used) in
      (
        sym (ap (λ x. x.1) used) ∙ sym (ap (λ x. x.1) answered),
        (
          entry,
          some_or-eq-ok search_failed _ (ap (λ x. x.0) answered) ∙ ap some one,
          sym same_dn,
          λ e. named (sym same_dn ∙ e),
        ),
      )

  bind_user_lem :
      (dn password : Text) (conn0 : ℕ) (t : LdapTrace) {conn : ℕ} {t' : LdapTrace}
      → bind_user dir p dn password conn0 t ≡ (ok conn, t')
      → (t' ≡ bind conn dn password ∷ t) × (dir.bind conn dn password t ≡ true)
  unfolding bind_user
  bind_user_lem dn password conn0 t {conn} {t'} h =
      let (u, t1, answered, given) =
        proceed-eq-ok (λ bound. give (ok conn0))
          (done_or not_bound (dir.bind conn0 dn password t), bind conn0 dn password ∷ t) h in
      subst (λ c. (t' ≡ bind c dn password ∷ t) × (dir.bind c dn password t ≡ true)) (cc given)
        (
          sym (ap (λ x. x.1) given) ∙ sym (ap (λ x. x.1) answered),
          done_or-eq-ok not_bound _ (ap (λ x. x.0) answered),
        )

  secure_lem :
      (conn : ℕ) (t : LdapTrace) {u : Unit {0}} {t' : LdapTrace}
      → secure dir p conn t ≡ (ok u, t')
      → (calls : List LdapCall) × (t' ≡ calls ++ t)
  unfolding secure
  secure_lem conn t = elim (Bool-cases p.configuration.start_tls) [
    | inl e ↦ rw e (λ h. (start_tls conn ∷ [], sym (ap (λ x. x.1) h)))
    | inr e ↦ rw e (λ h. ([], sym (ap (λ x. x.1) h)))
  ]

  -- The bind that ends a connection that was made.
  pub connect_lem :
      (dn password : Text) (t : LdapTrace) {conn : ℕ} {t' : LdapTrace}
      → connect dir p dn password t ≡ (ok conn, t')
      → (calls : List LdapCall) × (t'
          ≡ bind conn dn password ∷ (calls ++ (dial p.configuration.url ∷ t)))
        × (dir.bind conn dn password (calls ++ (dial p.configuration.url ∷ t)) ≡ true)
  unfolding connect
  connect_lem dn password t {conn} {t'} h =
      let url = p.configuration.url in
      let (conn0, t1, dialled, secured) =
        proceed-eq-ok (λ c u. proceed (λ s. bind_user dir p dn password c) (secure dir p c u))
          (some_or no_connection (dir.dial url t), dial url ∷ t) h in
      let (u, t2, safe, bound) =
        proceed-eq-ok (λ s. bind_user dir p dn password conn0) (secure dir p conn0 t1) secured in
      let (calls, after) = secure_lem conn0 t1 safe in
      let before : t2 ≡ calls ++ (dial url ∷ t) =
        after ∙ ap (λ x. calls ++ x) (sym (ap (λ x. x.1) dialled)) in
      let (ends, accepted) = bind_user_lem dn password conn0 t2 bound in
      (
        calls,
        subst (λ x. t' ≡ bind conn dn password ∷ x) before ends,
        subst (λ x. dir.bind conn dn password x ≡ true) before accepted,
      )
