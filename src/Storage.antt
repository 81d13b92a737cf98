-- ===== src/Storage.antt =====
-- internal/storage: the provider over a SQL database, sql_provider.go. The database answers each
-- call by a function of the calls before it; its driver scans the rows, and base64 is a library's.
pub mod Upgrades
use ldap_totp_nginx_auth.Prelude.{
  Text, List, [], ◌∷◌, Bool, true, false, Option, none, some, Result, ok, err, ℤ,
}
use ldap_totp_nginx_auth.Prelude.Actions.{Action, ◌>>=◌, give, ask, some_or, done_or}
use ldap_totp_nginx_auth.Regulation.{AuthenticationAttempt}
use ldap_totp_nginx_auth.Session.{U2fRegistration, unix, seconds_to_time}

-- An argument of a statement, or a value of a row.
pub data Value : Type 0 where
  text : Text → Value
  number : ℤ → Value
  flag : Bool → Value

abbrev pub Row : Type 0
Row = List Value

pub data SqlCall : Type 0 where
  query exec tx_exec : Text → List Value → SqlCall
  begin commit rollback : SqlCall

abbrev pub SqlTrace : Type 0
SqlTrace = List SqlCall

pub record Database : Type 0 where
  pub query : Text → List Value → SqlTrace → Option (List Row)
  pub exec : Text → List Value → SqlTrace → Bool
  pub tx_exec : Text → List Value → SqlTrace → Bool
  pub begin : SqlTrace → Bool
  pub commit : SqlTrace → Bool
  pub rollback : SqlTrace → Bool
  pub scan_text : Row → Option Text
  pub scan_texts : Row → Option (Text × Text)
  pub scan_number : Row → Option ℤ
  pub scan_flag : Row → Option Bool
  pub scan_attempt : Row → Option (Bool × ℤ)
  pub encode_base64 : Text → Text
  pub decode_base64 : Text → Option Text

pub data StorageError : Type 0 where
  query_failed scan_failed exec_failed decode_failed no_rows : StorageError
  no_totp_secret no_u2f_device_handle begin_failed commit_failed : StorageError
  upgrade_failed rollback_failed : StorageError

abbrev pub SqlAction : Type 0 → Type 0
SqlAction = Action SqlCall StorageError

-- The statements of `SQLProvider`, with the tables and the indexes of version 1 of the schema.
pub record SqlProvider : Type 0 where
  pub name : Text
  pub create_table_statements : List (Text × Text)
  pub create_table_indexes_statements : List Text
  pub get_preferences_by_username : Text
  pub upsert_second_factor_preference : Text
  pub test_identity_verification_token_existence : Text
  pub insert_identity_verification_token : Text
  pub delete_identity_verification_token : Text
  pub get_totp_secret_by_username : Text
  pub upsert_totp_secret : Text
  pub delete_totp_secret : Text
  pub get_u2f_device_handle_by_username : Text
  pub upsert_u2f_device_handle : Text
  pub insert_authentication_log : Text
  pub get_latest_authentication_logs : Text
  pub get_existing_tables : Text
  pub config_set_value : Text
  pub config_get_value : Text

-- `QueryRow`: the first row.
unfoldable pub first_row : List Row → Result StorageError Row
first_row [] = err no_rows
first_row (row ∷ rows) = ok row

unfoldable pub scanned :
    {A : Type 0} → (Row → Option A) → Result StorageError Row → Result StorageError A
scanned scan (err e) = err e
scanned scan (ok row) = some_or scan_failed (scan row)

-- Another error where there is no row.
unfoldable pub without_rows :
    {A : Type 0} → StorageError → Result StorageError A → Result StorageError A
without_rows missing (err no_rows) = err missing
without_rows missing r = r

module _ (db : Database) where
  abbrev pub run_query : Text → List Value → SqlAction (List Row)
  run_query sql args = ask (query sql args) (λ t. some_or query_failed (db.query sql args t))

  abbrev pub run_exec : Text → List Value → SqlAction (Unit {0})
  run_exec sql args = ask (exec sql args) (λ t. done_or exec_failed (db.exec sql args t))

module _ (db : Database) (p : SqlProvider) where
  -- No preference is the empty one.
  unfoldable pub preference_of : List Row → Result StorageError Text
  preference_of [] = ok []
  preference_of (row ∷ rows) = some_or scan_failed (db.scan_text row)

  unfoldable pub load_preferred_2fa_method : Text → SqlAction Text
  load_preferred_2fa_method username =
      run_query db p.get_preferences_by_username (text username ∷ []) >>= λ rows.
      give (preference_of rows)

  unfoldable pub save_preferred_2fa_method : Text → Text → SqlAction (Unit {0})
  save_preferred_2fa_method username method =
      run_exec db p.upsert_second_factor_preference (text username ∷ text method ∷ [])

  unfoldable pub find_identity_verification_token : Text → SqlAction Bool
  find_identity_verification_token token =
      run_query db p.test_identity_verification_token_existence (text token ∷ []) >>= λ rows.
      give (scanned db.scan_flag (first_row rows))

  unfoldable pub save_identity_verification_token : Text → SqlAction (Unit {0})
  save_identity_verification_token token =
      run_exec db p.insert_identity_verification_token (text token ∷ [])

  unfoldable pub remove_identity_verification_token : Text → SqlAction (Unit {0})
  remove_identity_verification_token token =
      run_exec db p.delete_identity_verification_token (text token ∷ [])

  unfoldable pub save_totp_secret : Text → Text → SqlAction (Unit {0})
  save_totp_secret username secret =
      run_exec db p.upsert_totp_secret (text username ∷ text secret ∷ [])

  unfoldable pub load_totp_secret : Text → SqlAction Text
  load_totp_secret username =
      run_query db p.get_totp_secret_by_username (text username ∷ []) >>= λ rows.
      give (without_rows no_totp_secret (scanned db.scan_text (first_row rows)))

  unfoldable pub delete_totp_secret : Text → SqlAction (Unit {0})
  delete_totp_secret username = run_exec db p.delete_totp_secret (text username ∷ [])

  unfoldable pub save_u2f_device_handle : Text → U2fRegistration → SqlAction (Unit {0})
  save_u2f_device_handle username device = run_exec db p.upsert_u2f_device_handle (
      text username
      ∷ text (db.encode_base64 device.key_handle)
      ∷ text (db.encode_base64 device.public_key)
      ∷ [])

  unfoldable pub device_of : Option Text → Option Text → Result StorageError U2fRegistration
  device_of none key = err decode_failed
  device_of (some handle) none = err decode_failed
  device_of (some handle) (some key) = ok (record { key_handle = handle; public_key = key })

  unfoldable pub decoded : Result StorageError (Text × Text) → Result StorageError U2fRegistration
  decoded (err e) = err e
  decoded (ok (handle, key)) = device_of (db.decode_base64 handle) (db.decode_base64 key)

  unfoldable pub load_u2f_device_handle : Text → SqlAction U2fRegistration
  load_u2f_device_handle username =
      run_query db p.get_u2f_device_handle_by_username (text username ∷ []) >>= λ rows.
      give (decoded (without_rows no_u2f_device_handle (scanned db.scan_texts (first_row rows))))

  -- The times are stored in seconds.
  unfoldable pub append_authentication_log : AuthenticationAttempt → SqlAction (Unit {0})
  append_authentication_log attempt =
      run_exec db p.insert_authentication_log
        (text attempt.username ∷ flag attempt.successful ∷ number (unix attempt.time) ∷ [])

  unfoldable pub add_attempt :
      Text
      → Option (Bool × ℤ)
      → Option (List AuthenticationAttempt)
      → Option (List AuthenticationAttempt)
  add_attempt username none later = none
  add_attempt username (some (successful, seconds)) none = none
  add_attempt username (some (successful, seconds)) (some attempts) = some (
      record { username = username; successful = successful; time = seconds_to_time seconds }
      ∷ attempts)

  -- The loop over the rows.
  unfoldable pub attempts_of : Text → List Row → Option (List AuthenticationAttempt)
  attempts_of username [] = some []
  attempts_of username (row ∷ rows) =
      add_attempt username (db.scan_attempt row) (attempts_of username rows)

  unfoldable pub load_latest_authentication_logs : Text → ℤ → SqlAction (List AuthenticationAttempt)
  load_latest_authentication_logs username from_date =
      run_query db p.get_latest_authentication_logs (number (unix from_date) ∷ text username ∷ [])
      >>= λ rows. give (some_or scan_failed (attempts_of username rows))
