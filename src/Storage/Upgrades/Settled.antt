-- ===== src/Storage/Upgrades/Settled.antt =====
-- The transaction of an upgrade is settled.
use ldap_totp_nginx_auth.Prelude.{
  Text, List, ◌∷◌, lit, not, ◌&&◌, Bool, true, false, Bool-cases, inl, inr, Result, ok, err, ℤ, pos,
  ltb_ℤ, ◌≡◌, refl, sym, subst,
}
use ldap_totp_nginx_auth.Prelude.Actions.{proceed, give, some_or}
use ldap_totp_nginx_auth.Utils.Strings.{is_string_in_slice}
use ldap_totp_nginx_auth.Storage.{
  Value, query, tx_exec, begin, commit, rollback, SqlTrace, Database, StorageError, scan_failed,
  begin_failed, commit_failed, SqlAction, SqlProvider,
}
use ldap_totp_nginx_auth.Storage.Upgrades.{
  tables_of, version_of, get_version, get_version_of, read_tables, with_version,
  get_schema_basic_details, rolled_back, handle_upgrade_failure, commit_upgrade, finish_upgrade,
  upgrade_in_transaction, upgrade_from, upgrade,
}
use ldap_totp_nginx_auth.Storage.Upgrades.Running.{
  HasRun, nothing_run, RunsOrFails, upgrade_schema-RunsOrFails,
}

-- Queries alone.
pub data HasRead (base : SqlTrace) : SqlTrace → Type 0 where
  nothing_read : HasRead base base
  read_next :
      (sql : Text) (args : List Value) {t : SqlTrace}
      → HasRead base t
      → HasRead base (query sql args ∷ t)

-- How an upgrade from the calls `base` on has ended.
pub data IsSettled (db : Database) (base : SqlTrace)
    : Result StorageError (Unit {0}) × SqlTrace → Type 0 where
  untouched :
      (r : Result StorageError (Unit {0})) {t : SqlTrace}
      → HasRead base t
      → IsSettled db base (r, t)
  not_begun :
      {t : SqlTrace}
      → HasRead base t
      → db.begin t ≡ false
      → IsSettled db base (err begin_failed, begin ∷ t)
  is_committed :
      {t t' : SqlTrace}
      → HasRead base t
      → db.begin t ≡ true
      → HasRun db (begin ∷ t) t'
      → db.commit t' ≡ true
      → IsSettled db base (ok tt, commit ∷ t')
  not_committed :
      {t t' : SqlTrace}
      → HasRead base t
      → db.begin t ≡ true
      → HasRun db (begin ∷ t) t'
      → db.commit t' ≡ false
      → IsSettled db base (err commit_failed, commit ∷ t')
  is_rolled_back :
      (sql : Text) (args : List Value) (e : StorageError) {t t' : SqlTrace}
      → HasRead base t
      → db.begin t ≡ true
      → HasRun db (begin ∷ t) t'
      → db.tx_exec sql args t' ≡ false
      → IsSettled db base (err e, rollback ∷ tx_exec sql args ∷ t')

module _ (db : Database) (p : SqlProvider) (base : SqlTrace) where
  then_HasRead :
      {A B : Type 0} (f : A → SqlAction B) (r : Result StorageError A × SqlTrace)
      → HasRead base r.1
      → ((a : A) (t : SqlTrace) → HasRead base t → HasRead base (f a t).1)
      → HasRead base (proceed f r).1
  then_HasRead f (ok a, t) h later = later a t h
  then_HasRead f (err e, t) h later = h

  get_version_of-HasRead :
      (tables : List Text) (t : SqlTrace)
      → HasRead base t
      → HasRead base (get_version_of db p tables t).1
  unfolding get_version_of get_version
  get_version_of-HasRead tables t h = elim (Bool-cases (is_string_in_slice (lit "config") tables)) [
    | inl e ↦ rw e (
        then_HasRead (λ rows. give (some_or scan_failed (version_of db p (pos 0) rows))) _
          (read_next _ _ h) (λ rows u read. read))
    | inr e ↦ rw e h
  ]

  read_tables-HasRead : (t : SqlTrace) → HasRead base t → HasRead base (read_tables db p t).1
  unfolding read_tables
  read_tables-HasRead t h =
      then_HasRead (λ rows. give (some_or scan_failed (tables_of db p rows))) _ (read_next _ _ h)
        (λ rows u read. read)

  with_version-HasRead :
      (tables : List Text) (t : SqlTrace)
      → HasRead base t
      → HasRead base (with_version db p tables t).1
  unfolding with_version
  with_version-HasRead tables t h =
      let found : ℤ → SqlAction (ℤ × List Text) = λ version. give (ok (version, tables)) in
      then_HasRead found (get_version_of db p tables t) (get_version_of-HasRead tables t h)
        (λ version u read. read)

  get_schema_basic_details-HasRead :
      (t : SqlTrace) → HasRead base t → HasRead base (get_schema_basic_details db p t).1
  unfolding get_schema_basic_details
  get_schema_basic_details-HasRead t h =
      then_HasRead (with_version db p) (read_tables db p t) (read_tables-HasRead t h)
        with_version-HasRead

  commit_upgrade-IsSettled :
      (t t' : SqlTrace)
      → HasRead base t
      → db.begin t ≡ true
      → HasRun db (begin ∷ t) t'
      → IsSettled db base (commit_upgrade db p t')
  unfolding commit_upgrade
  commit_upgrade-IsSettled t t' read begun ran = elim (Bool-cases (db.commit t')) [
    | inl e ↦ rw e (is_committed read begun ran e)
    | inr e ↦ rw e (not_committed read begun ran e)
  ]

  rolled_back_error : (done : Bool) → (e : StorageError) × (rolled_back db p done ≡ err e)
  unfolding rolled_back
  rolled_back_error false = (_, refl)
  rolled_back_error true = (_, refl)

  finish_upgrade-IsSettled :
      (t : SqlTrace) (r : Result StorageError (Unit {0}) × SqlTrace)
      → HasRead base t
      → db.begin t ≡ true
      → RunsOrFails db p (begin ∷ t) r
      → IsSettled db base (finish_upgrade db p r)
  unfolding finish_upgrade handle_upgrade_failure
  finish_upgrade-IsSettled t (ok u, t1) read begun ran =
      commit_upgrade-IsSettled t t1 read begun ran
  finish_upgrade-IsSettled t (err e, t1) read begun (sql, args, t2, last, ran, failed) =
      let (e', rolled) = rolled_back_error (db.rollback t1) in
      subst (λ x. IsSettled db base (x, rollback ∷ t1)) (sym rolled)
        (subst (λ u. IsSettled db base (err e', rollback ∷ u)) (sym last)
          (is_rolled_back sql args e' read begun ran failed))

  upgrade_in_transaction-IsSettled :
      (version : ℤ) (tables : List Text) (t : SqlTrace)
      → HasRead base t
      → db.begin t ≡ true
      → IsSettled db base (upgrade_in_transaction db p version tables (begin ∷ t))
  unfolding upgrade_in_transaction
  upgrade_in_transaction-IsSettled version tables t read begun =
      elim (Bool-cases (not (ltb_ℤ version (pos 0)) && not (ltb_ℤ (pos 0) version))) [
        | inl e ↦ rw e (
            finish_upgrade-IsSettled t _ read begun
              (upgrade_schema-RunsOrFails db p (begin ∷ t) tables (begin ∷ t) nothing_run))
        | inr e ↦ rw e (commit_upgrade-IsSettled t (begin ∷ t) read begun nothing_run)
      ]

  upgrade_from-IsSettled :
      (version : ℤ) (tables : List Text) (t : SqlTrace)
      → HasRead base t
      → IsSettled db base (upgrade_from db p (version, tables) t)
  unfolding upgrade_from
  upgrade_from-IsSettled version tables t read = elim (Bool-cases (ltb_ℤ version (pos 1))) [
    | inl old ↦ elim (Bool-cases (db.begin t)) [
      | inl e ↦ rw (old, e) (upgrade_in_transaction-IsSettled version tables t read e)
      | inr e ↦ rw (old, e) (not_begun read e)
    ]
    | inr new ↦ rw new (untouched (ok tt) read)
  ]

  then-IsSettled :
      (r : Result StorageError (ℤ × List Text) × SqlTrace)
      → HasRead base r.1
      → IsSettled db base (proceed (upgrade_from db p) r)
  then-IsSettled (ok (version, tables), t) read = upgrade_from-IsSettled version tables t read
  then-IsSettled (err e, t) read = untouched (err e) read

-- An upgrade of the schema begins no transaction or fails to begin it, or commits one of which
-- every statement has succeeded, or rolls it back right after its first statement that failed.
pub upgrade-IsSettled :
    (db : Database) (p : SqlProvider) (t : SqlTrace) → IsSettled db t (upgrade db p t)
unfolding upgrade
upgrade-IsSettled db p t =
    then-IsSettled db p t _ (get_schema_basic_details-HasRead db p t t nothing_read)
