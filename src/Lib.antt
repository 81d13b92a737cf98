-- ===== src/Lib.antt =====
-- The library of Authelia's access decisions (clems4ever/ldap-totp-nginx-auth): who may reach a
-- site behind the reverse proxy, and how a session comes to its level. A request of the proxy goes
-- to the verify endpoint, which reads the target, identifies the user by basic authentication or by
-- the session cookie, asks the authorizer for the level that the rules require of the target, and
-- lets the request through, redirects or refuses it. A user raises the level of the session at the
-- login portal, with a password and then with a one-time password, a security key or Duo. The
-- devices are registered, and forgotten passwords reset, over a link that is mailed to the user. The
-- users are those of a file with hashed passwords, or of an LDAP directory. The validators check the
-- configuration at the start.
--
-- Files, and the code that they follow (paths from the root of the repository):
--   Prelude             tests on numbers, lists, byte texts, int64 and integers, errors, maps,
--                       and calls of an outside system with errors (Actions)
--   Utils.Strings       internal/utils/strings.go
--   Utils.Time          internal/utils/time.go and the pattern of const.go
--   Authentication      internal/authentication/const.go and types.go: levels and user details
--   Authorization       internal/authorization/types.go, const.go, util.go: levels and objects
--   Authorization.Rules   access_control_*.go and authorizer.go; the slices of IPNet.Contains too
--   Authorization.Config  the constructors of rules in util.go and access_control_rule.go
--   Authentication.Hash   password_hash.go, over a parameter for the library crypt
--   Authentication.FileProvider  file_user_provider.go; its file is what the calls answer
--   Authentication.Directory, LdapProfile, LdapProvider
--                       ldap_connection_factory.go and ldap_user_provider.go
--   Configuration       internal/configuration/validator: access_control.go, regulation.go,
--                       session.go and authentication.go
--   Regulation          internal/regulation/regulator.go: bans after failed logins
--   Session             internal/session/types.go and user_session.go
--   Session.Provider    provider.go and provider_config.go
--   Storage, Storage.Upgrades
--                       internal/storage/sql_provider.go and upgrades.go
--   Middlewares         a request, a reply, and the calls of a handler, internal/middlewares
--   Middlewares.Context authelia_context.go
--   Middlewares.IdentityVerification, RequireFirstFactor
--                       identity_verification.go and require_first_factor.go
--   Handlers.Responses  internal/handlers/response.go, oidc.go, internal/utils/safe_redirection.go
--   Handlers.Profiles, Identification, Verify
--                       internal/handlers/handler_verify.go: keeping details up to date, finding out
--                       who sends a request, and the endpoint
--   Handlers.FirstFactor  handler_firstfactor.go, and Mark of the regulator
--   Handlers.SecondFactor handler_sign_totp.go, handler_sign_u2f_step2.go, handler_sign_duo.go
--                       and handler_logout.go
--   Handlers.U2fSign    handler_sign_u2f_step1.go
--   Handlers.ResetPassword  handler_reset_password_step1.go and handler_reset_password_step2.go
--   Handlers.Registration   handler_register_totp.go, handler_register_u2f_step1.go and
--                       handler_register_u2f_step2.go
--   Handlers.UserInfo   handler_user_info.go, handler_state.go and handler_configuration.go; its child
--                       Goroutines has those of loadInfo as a step relation
--   Handlers.Mailed     who is mailed by the handlers above
--   Handlers.Sessions   what makes a saved session lawful, and that the handlers above keep it so
--   Tests               the theorems at concrete inputs
-- The children of a module hold its proofs.
--
-- A text is the list of its bytes, and the case of letters is folded for ASCII alone. A time is the
-- number of nanoseconds since 1970 and a duration a number of nanoseconds, both as unbounded
-- integers; the parser of durations wraps around at 64 bits, as its product does, and so do the
-- products of the settings of Argon2id. An IP address is its bytes.
--
-- A handler is a function from a state, the reply so far and the trace of the calls, to a value and
-- a state, to an early end, or to a panic. Every call that leaves the program goes on the trace:
-- the session store, the user backend, the storage, the clock, the verifiers of second factors and
-- Duo. The record Env of Middlewares answers each of them by a function of the trace before it, so
-- a theorem for all environments covers every order of failures and changes of the store. The
-- parsers of URLs, addresses, base64 and regular expressions, and the notation of networks, are
-- parameters too, since they are libraries; the theorem on the cache of networks has as its
-- hypothesis that the notation of a network is read back as a network of the same addresses, not as
-- the same network: an IPv4 network in the form of IPv6 is written in that of IPv4. Whether the
-- library of sessions makes a store and accepts it is a parameter of the session provider. Loops
-- are recursions on the lists that the code ranges over. There is fuel in two places: the rounds of
-- SliceString, whose number the code itself computes, and the digits of a number that is printed,
-- 20 of them, as many as any 64 bits need.
--
-- The directory of the LDAP provider and the database of the storage are parameters in the same way,
-- each with a trace of its own: a call is answered by a function of the calls before it.
--
-- The goroutines of loadInfo take turns: a load with the write of its field is one step, and an
-- append to the slice of errors is a read and a write, between which another goroutine may come. The
-- counter of the wait group is part of the memory, each goroutine counts it down in a step of its own,
-- and the wait returns at 0. The calls of the storage that they make are taken to return.
--
-- The slice that the regulator makes for the failures panics beyond 2^48 bytes, the bound of the
-- runtime on amd64; a slice within the bound is taken to find the memory.
--
-- Not modelled: log messages; the lock and the wait of the delay that hides whether a login was
-- right, and the lock of the file provider; the conversion of JSON and YAML, for which a definition
-- takes the decoded value, or nothing where decoding fails; reading the configuration file, and the
-- validators that are not named above; the cryptography of hashes and tokens, the store of
-- sessions, the texts of the SQL statements and what the database makes of them, the notifiers; the
-- settings of TLS, OpenID Connect beyond the replies that go on with its workflow, and the command
-- line.
pub mod Prelude
pub mod Utils
pub mod Authentication
pub mod Authorization
pub mod Regulation
pub mod Configuration
pub mod Session
pub mod Storage
pub mod Middlewares
pub mod Handlers
pub mod Tests
