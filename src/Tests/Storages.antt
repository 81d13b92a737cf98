-- ===== src/Tests/Storages.antt =====
-- A database with no tables, in which every call succeeds.
use ldap_totp_nginx_auth.Prelude.{[], ◌∷◌, lit, true, some, none}
use ldap_totp_nginx_auth.Storage.{Database, SqlProvider}
use ldap_totp_nginx_auth.Storage.Upgrades.{upgrade}
use ldap_totp_nginx_auth.Storage.Upgrades.Settled.{IsSettled, upgrade-IsSettled}

abbrev empty_database : Database
empty_database = record {
  query = λ sql args t. some [];
  exec = λ sql args t. true;
  tx_exec = λ sql args t. true;
  begin = λ t. true;
  commit = λ t. true;
  rollback = λ t. true;
  scan_text = λ row. none;
  scan_texts = λ row. none;
  scan_number = λ row. none;
  scan_flag = λ row. none;
  scan_attempt = λ row. none;
  encode_base64 = λ s. s;
  decode_base64 = λ s. some s;
}

abbrev statements_of_sqlite : SqlProvider
statements_of_sqlite = record {
  name = lit "sqlite";
  create_table_statements =
      (lit "totp_secrets", lit "CREATE TABLE %s (username VARCHAR(100))")
      ∷ (lit "config", lit "CREATE TABLE %s (category VARCHAR(32))")
      ∷ [];
  create_table_indexes_statements = lit "CREATE INDEX" ∷ [];
  get_preferences_by_username = lit "SELECT second_factor_method";
  upsert_second_factor_preference = lit "REPLACE INTO user_preferences";
  test_identity_verification_token_existence = lit "SELECT EXISTS";
  insert_identity_verification_token = lit "INSERT INTO identity_verification_tokens";
  delete_identity_verification_token = lit "DELETE FROM identity_verification_tokens";
  get_totp_secret_by_username = lit "SELECT secret";
  upsert_totp_secret = lit "REPLACE INTO totp_secrets";
  delete_totp_secret = lit "DELETE FROM totp_secrets";
  get_u2f_device_handle_by_username = lit "SELECT keyHandle, publicKey";
  upsert_u2f_device_handle = lit "REPLACE INTO u2f_devices";
  insert_authentication_log = lit "INSERT INTO authentication_logs";
  get_latest_authentication_logs = lit "SELECT successful, time";
  get_existing_tables = lit "SELECT name FROM sqlite_master";
  config_set_value = lit "REPLACE INTO config";
  config_get_value = lit "SELECT value";
}

upgrade-IsSettled_example :
    IsSettled empty_database [] (upgrade empty_database statements_of_sqlite [])
upgrade-IsSettled_example = upgrade-IsSettled empty_database statements_of_sqlite []
