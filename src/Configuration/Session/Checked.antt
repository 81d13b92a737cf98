-- ===== src/Configuration/Session/Checked.antt =====
-- What a session configuration without errors is good for.
use ldap_totp_nginx_auth.Prelude.{Text, [], lit, true, false, some, ok, contains, ◌≡◌, ◌≢◌}
use ldap_totp_nginx_auth.Utils.Time.{parse_duration_string}
use ldap_totp_nginx_auth.Configuration.Session.{SessionConfiguration}
use ldap_totp_nginx_auth.Session.Provider.{
  SameSite, strict, none_mode, lax, Provider, Stores, new_provider_config, new_provider,
}

-- The way of sending the cookie that the configuration names.
abbrev pub IsMode : Text → SameSite → Type 0
IsMode s strict = s ≡ lit "strict"
IsMode s none_mode = s ≡ lit "none"
IsMode s lax = s ≡ lit "lax"

-- The provider is made, and keeps the domain and the mode of the configuration.
pub record StartsAt (stores : Stores) (c : SessionConfiguration) (p : Provider) : Type 0 where
  pub made : new_provider stores c ≡ some p
  pub domain : p.config.domain ≢ []
  pub no_wildcard : contains p.config.domain (lit "*") ≡ false
  pub mode : IsMode c.same_site p.config.same_site
  pub secure : p.config.secure ≡ true
  pub expires : parse_duration_string c.expiration ≡ ok p.config.expiration

-- The library makes the store that the configuration asks for and accepts it.
abbrev pub HasStore : Stores → SessionConfiguration → Type 0
HasStore stores c =
    let store = (new_provider_config c).store in
    (stores.makes store ≡ true) × (stores.accepts store ≡ true)
