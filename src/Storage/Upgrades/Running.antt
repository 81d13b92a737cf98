-- ===== src/Storage/Upgrades/Running.antt =====
-- The statements of an upgrade run until one fails.
use ldap_totp_nginx_auth.Prelude.{
  Text, List, [], ◌∷◌, ◌==◌, lit, true, false, Bool-cases, inl, inr, Result, ok, err, pos, ◌≡◌,
  refl,
}
use ldap_totp_nginx_auth.Prelude.Actions.{proceed}
use ldap_totp_nginx_auth.Utils.Strings.{is_string_in_slice}
use ldap_totp_nginx_auth.Storage.{
  Value, tx_exec, SqlTrace, Database, StorageError, SqlAction, SqlProvider,
}
use ldap_totp_nginx_auth.Storage.Upgrades.{
  run_in_transaction, create_table, create_tables, sort_statements, upgrade_create_table_statements,
  upgrade_run_multiple_statements, upgrade_finalize, create_indexes, upgrade_schema_to_version_001,
}

-- The statements of the transaction that has begun with `base`, which have all succeeded.
pub data HasRun (db : Database) (base : SqlTrace) : SqlTrace → Type 0 where
  nothing_run : HasRun db base base
  run_next :
      (sql : Text) (args : List Value) {t : SqlTrace}
      → HasRun db base t
      → db.tx_exec sql args t ≡ true
      → HasRun db base (tx_exec sql args ∷ t)

module _ (db : Database) (p : SqlProvider) (base : SqlTrace) where
  -- Every statement has succeeded, or the last has failed, which was the first to fail.
  abbrev pub RunsOrFails : Result StorageError (Unit {0}) × SqlTrace → Type 0
  RunsOrFails (ok u, t) = HasRun db base t
  RunsOrFails (err e, t) =
      (sql : Text) × (args : List Value) × (t' : SqlTrace) × (t ≡ tx_exec sql args ∷ t')
      × HasRun db base t'
      × (db.tx_exec sql args t' ≡ false)

  then-RunsOrFails :
      (f : SqlAction (Unit {0})) (r : Result StorageError (Unit {0}) × SqlTrace)
      → RunsOrFails r
      → ((t : SqlTrace) → HasRun db base t → RunsOrFails (f t))
      → RunsOrFails (proceed (λ u. f) r)
  then-RunsOrFails f (ok u, t) h later = later t h
  then-RunsOrFails f (err e, t) h later = h

  run_in_transaction-RunsOrFails :
      (sql : Text) (args : List Value) (t : SqlTrace)
      → HasRun db base t
      → RunsOrFails (run_in_transaction db p sql args t)
  unfolding run_in_transaction
  run_in_transaction-RunsOrFails sql args t h = elim (Bool-cases (db.tx_exec sql args t)) [
    | inl e ↦ rw e (run_next sql args h e)
    | inr e ↦ rw e (sql, args, t, refl, h, e)
  ]

  create_tables-RunsOrFails :
      (existing : List Text) (statements : List (Text × Text)) (t : SqlTrace)
      → HasRun db base t
      → RunsOrFails (create_tables db p existing statements t)
  unfolding create_tables create_table
  create_tables-RunsOrFails existing [] t h = h
  create_tables-RunsOrFails existing (s ∷ statements) t h =
      let later = create_tables-RunsOrFails existing statements in
      elim (Bool-cases (is_string_in_slice s.0 existing)) [
        | inl e ↦ rw e (later t h)
        | inr e ↦ rw e (
            then-RunsOrFails (create_tables db p existing statements) _
              (run_in_transaction-RunsOrFails _ [] t h) later)
      ]

  run_statements-RunsOrFails :
      (statements : List Text) (t : SqlTrace)
      → HasRun db base t
      → RunsOrFails (upgrade_run_multiple_statements db p statements t)
  unfolding upgrade_run_multiple_statements
  run_statements-RunsOrFails [] t h = h
  run_statements-RunsOrFails (s ∷ statements) t h =
      then-RunsOrFails (upgrade_run_multiple_statements db p statements) _
        (run_in_transaction-RunsOrFails s [] t h) (run_statements-RunsOrFails statements)

  create_indexes-RunsOrFails :
      (t : SqlTrace) → HasRun db base t → RunsOrFails (create_indexes db p t)
  unfolding create_indexes
  create_indexes-RunsOrFails t h = elim (Bool-cases (p.name == lit "mysql")) [
    | inl e ↦ simp e h
    | inr e ↦ simp e (run_statements-RunsOrFails p.create_table_indexes_statements t h)
  ]

  pub upgrade_schema-RunsOrFails :
      (tables : List Text) (t : SqlTrace)
      → HasRun db base t
      → RunsOrFails (upgrade_schema_to_version_001 db p tables t)
  unfolding upgrade_schema_to_version_001 upgrade_create_table_statements upgrade_finalize
  upgrade_schema-RunsOrFails tables t h =
      then-RunsOrFails (λ u. proceed (λ i. upgrade_finalize db p (pos 1)) (create_indexes db p u)) _
        (create_tables-RunsOrFails tables (sort_statements p.create_table_statements) t h)
        (λ u ran.
          then-RunsOrFails (upgrade_finalize db p (pos 1)) _ (create_indexes-RunsOrFails u ran)
            (λ v ran'. run_in_transaction-RunsOrFails _ _ v ran'))
