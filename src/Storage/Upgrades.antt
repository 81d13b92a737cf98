-- ===== src/Storage/Upgrades.antt =====
-- The upgrade of the schema: upgrade and what it calls in sql_provider.go, and upgrades.go.
pub mod Running
pub mod Settled
use ldap_totp_nginx_auth.Prelude.{
  if◌then◌else◌, ltb, eqb, Text, List, [], ◌∷◌, ◌==◌, lit, not, ◌&&◌, itoa, replace_all, Bool, true,
  false, Option, none, some, Result, ok, err, ℤ, pos, ltb_ℤ,
}
use ldap_totp_nginx_auth.Prelude.Actions.{proceed, ◌>>=◌, give, ask, some_or, done_or}
use ldap_totp_nginx_auth.Utils.Strings.{is_string_in_slice}
use ldap_totp_nginx_auth.Storage.{
  Value, text, Row, SqlCall, tx_exec, begin, commit, rollback, SqlTrace, Database, StorageError,
  scan_failed, exec_failed, begin_failed, commit_failed, upgrade_failed, rollback_failed, SqlAction,
  SqlProvider, run_query,
}

-- `sort.Strings`: the order of bytes.
unfoldable pub text_leb : Text → Text → Bool
text_leb [] t = true
text_leb (c ∷ s) [] = false
text_leb (c ∷ s) (d ∷ t) = let rest = text_leb s t in if eqb c d then rest else ltb c d

unfoldable pub insert_statement : Text × Text → List (Text × Text) → List (Text × Text)
insert_statement s [] = s ∷ []
insert_statement s (s' ∷ statements) =
    let later = insert_statement s statements in
    if text_leb s.0 s'.0 then s ∷ s' ∷ statements else s' ∷ later

unfoldable pub sort_statements : List (Text × Text) → List (Text × Text)
sort_statements [] = []
sort_statements (s ∷ statements) = insert_statement s (sort_statements statements)

module _ (db : Database) (p : SqlProvider) where
  unfoldable pub run_in_transaction : Text → List Value → SqlAction (Unit {0})
  run_in_transaction sql args =
      ask (tx_exec sql args) (λ t. done_or exec_failed (db.tx_exec sql args t))

  -- A table is created where it does not exist.
  unfoldable pub create_table : List Text → Text × Text → SqlAction (Unit {0})
  create_table existing_tables (table, statement) =
      if not (is_string_in_slice table existing_tables)
      then run_in_transaction (replace_all statement (lit "%s") table) []
      else give (ok tt)

  unfoldable pub create_tables : List Text → List (Text × Text) → SqlAction (Unit {0})
  create_tables existing_tables [] = give (ok tt)
  create_tables existing_tables (s ∷ statements) =
      create_table existing_tables s >>= λ created. create_tables existing_tables statements

  unfoldable pub upgrade_create_table_statements : List Text → SqlAction (Unit {0})
  upgrade_create_table_statements existing_tables =
      create_tables existing_tables (sort_statements p.create_table_statements)

  unfoldable pub upgrade_run_multiple_statements : List Text → SqlAction (Unit {0})
  upgrade_run_multiple_statements [] = give (ok tt)
  upgrade_run_multiple_statements (s ∷ statements) =
      run_in_transaction s [] >>= λ done. upgrade_run_multiple_statements statements

  unfoldable pub upgrade_finalize : ℤ → SqlAction (Unit {0})
  upgrade_finalize version =
      run_in_transaction p.config_set_value
        (text (lit "schema") ∷ text (lit "version") ∷ text (itoa version) ∷ [])

  unfoldable pub create_indexes : SqlAction (Unit {0})
  create_indexes =
      if not (p.name == lit "mysql")
      then upgrade_run_multiple_statements p.create_table_indexes_statements
      else give (ok tt)

  unfoldable pub upgrade_schema_to_version_001 : List Text → SqlAction (Unit {0})
  upgrade_schema_to_version_001 tables = upgrade_create_table_statements tables >>= λ created.
      create_indexes >>= λ indexed. upgrade_finalize (pos 1)

  unfoldable pub add_table : Option Text → Option (List Text) → Option (List Text)
  add_table none tables = none
  add_table (some table) none = none
  add_table (some table) (some tables) = some (table ∷ tables)

  unfoldable pub tables_of : List Row → Option (List Text)
  tables_of [] = some []
  tables_of (row ∷ rows) = add_table (db.scan_text row) (tables_of rows)

  -- The version is that of the last row.
  unfoldable pub version_of : ℤ → List Row → Option ℤ
  version_of version [] = some version
  version_of version (row ∷ rows) = elim (db.scan_number row) [
    | none ↦ none
    | some later ↦ version_of later rows
  ]

  unfoldable pub get_version : SqlAction ℤ
  get_version =
      run_query db p.config_get_value (text (lit "schema") ∷ text (lit "version") ∷ []) >>= λ rows.
      give (some_or scan_failed (version_of (pos 0) rows))

  unfoldable pub get_version_of : List Text → SqlAction ℤ
  get_version_of tables =
      if is_string_in_slice (lit "config") tables then get_version else give (ok (pos 0))

  unfoldable pub read_tables : SqlAction (List Text)
  read_tables =
      run_query db p.get_existing_tables [] >>= λ rows. give (some_or scan_failed (tables_of rows))

  unfoldable pub with_version : List Text → SqlAction (ℤ × List Text)
  with_version tables = get_version_of tables >>= λ version. give (ok (version, tables))

  unfoldable pub get_schema_basic_details : SqlAction (ℤ × List Text)
  get_schema_basic_details = read_tables >>= with_version

  unfoldable pub rolled_back : Bool → Result StorageError (Unit {0})
  rolled_back false = err rollback_failed
  rolled_back true = err upgrade_failed

  unfoldable pub handle_upgrade_failure : SqlAction (Unit {0})
  handle_upgrade_failure = ask rollback (λ t. rolled_back (db.rollback t))

  unfoldable pub commit_upgrade : SqlAction (Unit {0})
  commit_upgrade = ask commit (λ t. done_or commit_failed (db.commit t))

  unfoldable pub finish_upgrade :
      Result StorageError (Unit {0}) × SqlTrace → Result StorageError (Unit {0}) × SqlTrace
  finish_upgrade (err e, t) = handle_upgrade_failure t
  finish_upgrade (ok u, t) = commit_upgrade t

  -- The switch on the version.
  unfoldable pub upgrade_in_transaction : ℤ → List Text → SqlAction (Unit {0})
  upgrade_in_transaction version tables t =
      if not (ltb_ℤ version (pos 0)) && not (ltb_ℤ (pos 0) version)
      then finish_upgrade (upgrade_schema_to_version_001 tables t)
      else commit_upgrade t

  unfoldable pub upgrade_from : ℤ × List Text → SqlAction (Unit {0})
  upgrade_from (version, tables) =
      if ltb_ℤ version (pos 1)
      then (ask begin (λ t. done_or begin_failed (db.begin t)) >>= λ begun.
          upgrade_in_transaction version tables)
      else give (ok tt)

  unfoldable pub upgrade : SqlAction (Unit {0})
  upgrade = get_schema_basic_details >>= upgrade_from
