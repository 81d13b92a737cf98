-- ===== src/Configuration/Session.antt =====
-- validator/session.go: the session and its store in Redis.
pub mod Checked
use ldap_totp_nginx_auth.Prelude.{
  if◌then◌else◌, Text, List, [], ◌∷◌, ◌++◌, ◌==◌, lit, not, Bool, true, false, ◌&&◌, ◌||◌, Option,
  none, some, Result, ok, err, ℤ, pos, ltb_ℤ, contains, has_prefix, is_empty,
}
use ldap_totp_nginx_auth.Utils.Time.{DurationError, parse_duration_string}
use ldap_totp_nginx_auth.Configuration.{check, defaulted, int_eq}

-- schema/session.go. The TLS settings play no part here.
pub record RedisNode : Type 0 where
  pub host : Text
  pub port : ℤ

pub record RedisHighAvailabilityConfiguration : Type 0 where
  pub sentinel_name : Text
  pub sentinel_password : Text
  pub nodes : List RedisNode
  pub route_by_latency : Bool
  pub route_randomly : Bool

pub record RedisSessionConfiguration : Type 0 where
  pub host : Text
  pub port : ℤ
  pub username : Text
  pub password : Text
  pub database_index : ℤ
  pub maximum_active_connections : ℤ
  pub minimum_idle_connections : ℤ
  pub high_availability : Option RedisHighAvailabilityConfiguration

pub record SessionConfiguration : Type 0 where
  pub name : Text
  pub domain : Text
  pub same_site : Text
  pub secret : Text
  pub expiration : Text
  pub inactivity : Text
  pub remember_me_duration : Text
  pub redis : Option RedisSessionConfiguration

pub data SessionError : Type 0 where
  sentinel_name_missing bad_expiration bad_inactivity bad_remember_me_duration : SessionError
  domain_missing domain_wildcard bad_same_site : SessionError
  redis_host_missing secret_missing redis_port_missing redis_port_range : SessionError
  host_or_nodes_missing node_host_missing : SessionError

unfoldable pub parse_errors : Result DurationError ℤ → SessionError → List SessionError
parse_errors (ok d) e = []
parse_errors (err x) e = e ∷ []

-- A duration that is set must parse.
unfoldable pub duration_errors : Text → SessionError → List SessionError
duration_errors d e = if d == [] then [] else parse_errors (parse_duration_string d) e

abbrev pub same_site_values : Text → Bool
same_site_values s = s == lit "none" || (s == lit "lax" || s == lit "strict")

-- `validateSession`.
unfoldable pub validate_base : SessionConfiguration → SessionConfiguration × List SessionError
validate_base c = (
  record c {
    expiration = defaulted c.expiration (lit "1h");
    inactivity = defaulted c.inactivity (lit "5m");
    remember_me_duration = defaulted c.remember_me_duration (lit "1M");
    same_site = defaulted c.same_site (lit "lax");
  },
  duration_errors c.expiration bad_expiration
      ++ (duration_errors c.inactivity bad_inactivity
          ++ (duration_errors c.remember_me_duration bad_remember_me_duration
              ++ (check (c.domain == []) domain_missing
                  ++ (check (contains c.domain (lit "*")) domain_wildcard
                      ++ check (not (c.same_site == []) && not (same_site_values c.same_site))
                          bad_same_site)))),
)

abbrev pub out_of_range : ℤ → Bool
out_of_range port = ltb_ℤ port (pos 0) || ltb_ℤ (pos 65535) port

-- `validateRedis`, over the secret.
unfoldable pub redis_port_errors : RedisSessionConfiguration → List SessionError
redis_port_errors r =
    if not (has_prefix r.host (lit "/")) && int_eq r.port (pos 0)
    then redis_port_missing ∷ []
    else check (out_of_range r.port) redis_port_range

unfoldable pub validate_redis :
    Text → RedisSessionConfiguration → RedisSessionConfiguration × List SessionError
validate_redis secret r = (
  record r {
    maximum_active_connections =
        if not (ltb_ℤ (pos 0) r.maximum_active_connections)
        then pos 8
        else r.maximum_active_connections;
  },
  check (r.host == []) redis_host_missing
      ++ (check (secret == []) secret_missing ++ redis_port_errors r),
)

-- The loop over the nodes, which stops at the first one without a host.
unfoldable pub validate_nodes : List RedisNode → List RedisNode × List SessionError
validate_nodes [] = ([], [])
validate_nodes (node ∷ nodes) =
    let (nodes', errors) = validate_nodes nodes in
    if node.host == [] then (node ∷ nodes, node_host_missing ∷ []) else (
      record node { port = if int_eq node.port (pos 0) then pos 26379 else node.port } ∷ nodes',
      errors,
    )

-- `validateRedisSentinel` with `validateHighAvailability`.
unfoldable pub validate_redis_sentinel :
    Text
    → RedisSessionConfiguration
    → RedisHighAvailabilityConfiguration
    → RedisSessionConfiguration × List SessionError
validate_redis_sentinel secret r ha =
    let (nodes, node_errors) = validate_nodes ha.nodes in
    (
      record r {
        port = if int_eq r.port (pos 0) then pos 26379 else r.port;
        high_availability = some (record ha { nodes = nodes });
      },
      check (not (int_eq r.port (pos 0)) && out_of_range r.port) redis_port_range
          ++ (check (r.host == [] && is_empty ha.nodes) host_or_nodes_missing
              ++ (check (secret == []) secret_missing ++ node_errors)),
    )

unfoldable pub validate_high_availability :
    Text
    → RedisSessionConfiguration
    → Option RedisHighAvailabilityConfiguration
    → RedisSessionConfiguration × List SessionError
validate_high_availability secret r none = validate_redis secret r
validate_high_availability secret r (some ha) =
    if not (ha.sentinel_name == [])
    then validate_redis_sentinel secret r ha
    else (r, sentinel_name_missing ∷ [])

unfoldable pub validate_store :
    Text → Option RedisSessionConfiguration → Option RedisSessionConfiguration × List SessionError
validate_store secret none = (none, [])
validate_store secret (some r) =
    let (r', errors) = validate_high_availability secret r r.high_availability in (some r', errors)

-- `ValidateSession`.
unfoldable pub validate_session : SessionConfiguration → SessionConfiguration × List SessionError
validate_session c =
    let (redis', redis_errors) = validate_store c.secret c.redis in
    let named = record c { name = defaulted c.name (lit "authelia_session"); redis = redis' } in
    let (c', errors) = validate_base named in (c', redis_errors ++ errors)
