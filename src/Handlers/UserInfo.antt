-- ===== src/Handlers/UserInfo.antt =====
-- What the portal shows of a user and of the configuration: handler_user_info.go, handler_state.go
-- and handler_configuration.go.
pub mod Goroutines
pub mod Races
pub mod Joining
use ldap_totp_nginx_auth.Prelude.{
  if◌then◌else◌, Text, List, [], ◌∷◌, ◌++◌, ◌==◌, lit, not, Bool, true, false, Option, none, some,
  is_empty,
}
use ldap_totp_nginx_auth.Utils.Strings.{is_string_in_slice}
use ldap_totp_nginx_auth.Session.{U2fRegistration, UserSession}
use ldap_totp_nginx_auth.Authorization.Rules.{is_second_factor_enabled}
use ldap_totp_nginx_auth.Middlewares.{
  operation_failed, UserInfo, user_info, state, methods, Call, Env, Handler, perform, ◌>>=◌, ◌>>◌,
}
use ldap_totp_nginx_auth.Middlewares.Context.{error_reply, reply_ok, set_json_body, get_session}
use ldap_totp_nginx_auth.Handlers.{Configuration}

-- `authentication.PossibleMethods`.
abbrev pub possible_methods : List Text
possible_methods = lit "totp" ∷ lit "u2f" ∷ lit "mobile_push" ∷ []

abbrev pub empty_info : UserInfo
empty_info = record { display_name = []; method = []; has_u2f = false; has_totp = false }

-- What one of the goroutines of `loadInfo` has loaded: it fails, leaves the information as it is, or
-- sets a field.
pub data Loaded : Type 0 where
  failed nothing has_u2f has_totp : Loaded
  method : Text → Loaded

unfoldable pub method_of : Option Text → Loaded
method_of none = failed
method_of (some m) = if m == [] then method (lit "totp") else method m

unfoldable pub u2f_of : Bool → Option U2fRegistration → Loaded
u2f_of missing none = if missing then nothing else failed
u2f_of missing (some registration) = has_u2f

unfoldable pub totp_of : Bool → Option Text → Loaded
totp_of missing none = if missing then nothing else failed
totp_of missing (some secret) = has_totp

-- What a goroutine writes to the information.
unfoldable pub write : Loaded → UserInfo → UserInfo
write failed info = info
write nothing info = info
write has_u2f info = record info { has_u2f = true }
write has_totp info = record info { has_totp = true }
write (method m) info = record info { method = m }

-- Whether a goroutine appends an error.
unfoldable pub fails : Loaded → Bool
fails failed = true
fails nothing = false
fails has_u2f = false
fails has_totp = false
fails (method m) = false

module _ (env : Env) where
  -- The three loads, one after the other; the goroutines of the source may interleave.
  unfoldable pub use_loads : UserSession → Loaded → Loaded → Loaded → Handler (Unit {0})
  use_loads s a b c =
      if (if fails a then true else if fails b then true else fails c)
      then error_reply operation_failed
      else set_json_body (
          user_info
            (record (write c (write b (write a empty_info))) { display_name = s.display_name }))

  unfoldable pub load_totp : UserSession → Loaded → Loaded → Handler (Unit {0})
  load_totp s a b =
      perform (Call.load_totp_secret s.username)
        (λ t. totp_of (env.no_totp_secret s.username t) (env.load_totp_secret s.username t))
      >>= use_loads s a b

  unfoldable pub load_u2f : UserSession → Loaded → Handler (Unit {0})
  load_u2f s a =
      perform (Call.load_u2f_device_handle s.username) (λ t.
        u2f_of (env.no_u2f_device_handle s.username t) (env.load_u2f_device_handle s.username t))
      >>= load_totp s a

  unfoldable pub load_info : UserSession → Handler (Unit {0})
  load_info s =
      perform (Call.load_preferred_2fa_method s.username)
        (λ t. method_of (env.load_preferred_2fa_method s.username t))
      >>= load_u2f s

  -- `UserInfoGet`.
  unfoldable pub user_info_get : Handler (Unit {0})
  user_info_get = get_session env >>= load_info

  unfoldable pub reply_preference : Bool → Handler (Unit {0})
  reply_preference false = error_reply operation_failed
  reply_preference true = reply_ok

  unfoldable pub save_preference : Text → UserSession → Handler (Unit {0})
  save_preference m s =
      perform (Call.save_preferred_2fa_method s.username m)
        (env.save_preferred_2fa_method s.username m)
      >>= reply_preference

  -- `MethodPreferencePost`, over the method of the body, `none` where the body does not parse.
  unfoldable pub method_preference_post : Option Text → Handler (Unit {0})
  method_preference_post none = error_reply operation_failed
  method_preference_post (some m) =
      if not (is_string_in_slice m possible_methods)
      then error_reply operation_failed
      else (get_session env >>= save_preference m)

  unfoldable pub reply_state : Configuration → UserSession → Handler (Unit {0})
  reply_state c s =
      set_json_body (state s.username s.authentication_level c.default_redirection_url)

  -- `StateGet`.
  unfoldable pub state_get : Configuration → Handler (Unit {0})
  state_get c = get_session env >>= reply_state c

-- `ConfigurationGet`.
unfoldable pub configuration_get : Configuration → Handler (Unit {0})
configuration_get c =
    let available = lit "totp" ∷ lit "u2f" ∷ (if c.duo_api then lit "mobile_push" ∷ [] else []) in
    set_json_body (methods available (is_second_factor_enabled c.authorizer) c.totp_period)
