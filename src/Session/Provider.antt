-- ===== src/Session/Provider.antt =====
-- internal/session: the provider and its configuration, provider.go and provider_config.go. The
-- store of the library fasthttp/session stands behind calls of the environment.
use ldap_totp_nginx_auth.Prelude.{
  if◌then◌else◌, Text, List, [], ◌∷◌, ◌++◌, ◌==◌, lit, not, Bool, true, Option, none, some, Result,
  ok, err, ℤ, pos, itoa, to_lower,
}
use ldap_totp_nginx_auth.Utils.Strings.{is_string_in_slice}
use ldap_totp_nginx_auth.Utils.Time.{DurationError, parse_duration_string}
use ldap_totp_nginx_auth.Configuration.{int_eq}
use ldap_totp_nginx_auth.Configuration.Session.{
  RedisNode, RedisHighAvailabilityConfiguration, RedisSessionConfiguration, SessionConfiguration,
}

pub data SameSite : Type 0 where
  strict none_mode lax : SameSite

unfoldable pub same_site_of : Text → SameSite
same_site_of s = if s == lit "strict" then strict else if s == lit "none" then none_mode else lax

-- `redis.Config` and `redis.FailoverConfig`, as far as the source sets them from the configuration.
pub record RedisConfig : Type 0 where
  pub network : Text
  pub addr : Text
  pub username : Text
  pub password : Text
  pub db : ℤ
  pub pool_size : ℤ
  pub min_idle_conns : ℤ

pub record FailoverConfig : Type 0 where
  pub master_name : Text
  pub sentinel_addrs : List Text
  pub sentinel_password : Text
  pub route_by_latency : Bool
  pub route_randomly : Bool
  pub username : Text
  pub password : Text
  pub db : ℤ
  pub pool_size : ℤ
  pub min_idle_conns : ℤ

pub data Store : Type 0 where
  memory : Store
  redis : RedisConfig → Store
  redis_sentinel : FailoverConfig → Store

pub record ProviderConfig : Type 0 where
  pub cookie_name : Text
  pub domain : Text
  pub same_site : SameSite
  pub secure : Bool
  pub expiration : ℤ
  pub store : Store
  pub encrypted_with : Option Text

abbrev pub address : Text → ℤ → Text
address host port = host ++ (lit ":" ++ itoa port)

-- The loop over the nodes leaves out an address that is there already.
unfoldable pub add_nodes : List Text → List RedisNode → List Text
add_nodes addrs [] = addrs
add_nodes addrs (node ∷ nodes) =
    let addr = address (to_lower node.host) node.port in
    add_nodes (if is_string_in_slice addr addrs then addrs else addrs ++ addr ∷ []) nodes

unfoldable pub sentinel_addrs :
    RedisSessionConfiguration → RedisHighAvailabilityConfiguration → List Text
sentinel_addrs r ha =
    add_nodes (if r.host == [] then [] else address (to_lower r.host) r.port ∷ []) ha.nodes

unfoldable pub redis_config : RedisSessionConfiguration → RedisConfig
redis_config r = record {
  network = if int_eq r.port (pos 0) then lit "unix" else lit "tcp";
  addr = if int_eq r.port (pos 0) then r.host else address r.host r.port;
  username = r.username;
  password = r.password;
  db = r.database_index;
  pool_size = r.maximum_active_connections;
  min_idle_conns = r.minimum_idle_connections;
}

unfoldable pub failover_config :
    RedisSessionConfiguration → RedisHighAvailabilityConfiguration → FailoverConfig
failover_config r ha = record {
  master_name = ha.sentinel_name;
  sentinel_addrs = sentinel_addrs r ha;
  sentinel_password = ha.sentinel_password;
  route_by_latency = ha.route_by_latency;
  route_randomly = ha.route_randomly;
  username = r.username;
  password = r.password;
  db = r.database_index;
  pool_size = r.maximum_active_connections;
  min_idle_conns = r.minimum_idle_connections;
}

unfoldable pub store_of_redis :
    RedisSessionConfiguration → Option RedisHighAvailabilityConfiguration → Store
store_of_redis r none = redis (redis_config r)
store_of_redis r (some ha) =
    if not (ha.sentinel_name == [])
    then redis_sentinel (failover_config r ha)
    else redis (redis_config r)

unfoldable pub store_of : Option RedisSessionConfiguration → Store
store_of none = memory
store_of (some r) = store_of_redis r r.high_availability

abbrev pub duration_or_zero : Result DurationError ℤ → ℤ
duration_or_zero (err e) = pos 0
duration_or_zero (ok d) = d

-- What is stored in Redis is encrypted with the secret.
unfoldable pub secret_of : Text → Option RedisSessionConfiguration → Option Text
secret_of secret none = none
secret_of secret (some r) = some secret

-- `NewProviderConfig`; the error of the expiration is ignored.
unfoldable pub new_provider_config : SessionConfiguration → ProviderConfig
new_provider_config c = record {
  cookie_name = c.name;
  domain = c.domain;
  same_site = same_site_of c.same_site;
  secure = true;
  expiration = duration_or_zero (parse_duration_string c.expiration);
  store = store_of c.redis;
  encrypted_with = secret_of c.secret c.redis;
}

pub record Provider : Type 0 where
  pub config : ProviderConfig
  pub remember_me : ℤ
  pub inactivity : ℤ

-- Whether the library makes a store (`redis.New`, `redis.NewFailoverCluster`, `memory.New`) and the
-- holder of the sessions accepts it (`SetProvider`).
pub record Stores : Type 0 where
  pub makes : Store → Bool
  pub accepts : Store → Bool

-- The end of `NewProvider`, `none` where the program exits.
unfoldable pub set_provider : Stores → Provider → Option Provider
set_provider stores p =
    if not (stores.makes p.config.store)
    then none
    else if not (stores.accepts p.config.store)
    then none
    else some p

-- `NewProvider`, over what reading the two durations gives, `none` where the program exits.
unfoldable pub provider_of :
    Stores → ProviderConfig → Result DurationError ℤ → Result DurationError ℤ → Option Provider
provider_of stores config (err e) inactivity = none
provider_of stores config (ok remember_me) (err e) = none
provider_of stores config (ok remember_me) (ok inactivity) =
    set_provider stores
      (record { config = config; remember_me = remember_me; inactivity = inactivity })

-- `NewProvider`.
unfoldable pub new_provider : Stores → SessionConfiguration → Option Provider
new_provider stores c =
    provider_of stores (new_provider_config c) (parse_duration_string c.remember_me_duration)
      (parse_duration_string c.inactivity)
