-- ===== src/Regulation.antt =====
-- internal/regulation: users who fail to log in too often are banned for a while. A `time.Time` is
-- its nanoseconds since 1970, a `time.Duration` its nanoseconds.
pub mod Failures
pub mod Bans
use ldap_totp_nginx_auth.Prelude.{
  Text, List, [], ◌∷◌, ◌++◌, Bool, true, false, not, ◌||◌, ℕ, ◌-◌, ◌*◌, leb, ltb, length, get_elem?,
  if◌then◌else◌, Option, none, some, ℤ, pos, ◌+ℤ◌, ◌-ℤ◌, ltb_ℤ, Result, ok, err,
}
use ldap_totp_nginx_auth.Utils.Time.{DurationError, parse_duration_string, durations}

-- `AuthenticationAttempt` of internal/models/types.go.
pub record AuthenticationAttempt : Type 0 where
  pub username : Text
  pub successful : Bool
  pub time : ℤ

-- `RegulationConfiguration` of internal/configuration/schema/regulation.go. A negative `max_retries`
-- disables the regulation as 0 does.
pub record RegulationConfiguration : Type 0 where
  pub max_retries : ℕ
  pub find_time : Text
  pub ban_time : Text

pub record Regulator : Type 0 where
  pub enabled : Bool
  pub max_retries : ℕ
  pub find_time : ℤ
  pub ban_time : ℤ

abbrev pub disabled : Regulator
disabled = record { enabled = false; max_retries = 0; find_time = pos 0; ban_time = pos 0 }

-- The rest of `NewRegulator`, over what reading the two durations gives.
unfoldable pub regulator_of : ℕ → Result DurationError ℤ → Result DurationError ℤ → Option Regulator
regulator_of max_retries (err _) ban_time = none
regulator_of max_retries (ok find_time) (err _) = none
regulator_of max_retries (ok find_time) (ok ban_time) =
    if ltb_ℤ ban_time find_time
    then none
    else some (record {
      enabled = ltb 0 max_retries;
      max_retries = max_retries;
      find_time = find_time;
      ban_time = ban_time;
    })

-- `NewRegulator`; `none` where it panics.
unfoldable pub new_regulator : Option RegulationConfiguration → Option Regulator
new_regulator none = some disabled
new_regulator (some c) =
    regulator_of c.max_retries (parse_duration_string c.find_time)
      (parse_duration_string c.ban_time)

-- The loop of `Regulate`, which breaks at a success and at the maximum.
unfoldable pub latest_failed_attempts :
    ℕ → List AuthenticationAttempt → List AuthenticationAttempt → List AuthenticationAttempt
latest_failed_attempts max_retries failed [] = failed
latest_failed_attempts max_retries failed (attempt ∷ attempts) =
    let rest = latest_failed_attempts max_retries (failed ++ attempt ∷ []) attempts in
    if attempt.successful || leb max_retries (length failed) then failed else rest

-- What `Regulate` returns: no error, `ErrUserIsBanned` with the end of the ban, or a panic.
pub data Verdict : Type 0 where
  not_banned : Verdict
  banned : ℤ → Verdict
  panics : Verdict

-- The two attempts that are compared, `latestFailedAttempts[0]` and `[maxRetries-1]`.
unfoldable pub compare_attempts :
    Regulator → Option AuthenticationAttempt → Option AuthenticationAttempt → Verdict
compare_attempts r (some latest) (some oldest) =
    if ltb_ℤ (latest.time -ℤ oldest.time) r.find_time
    then banned (latest.time +ℤ r.ban_time)
    else not_banned
compare_attempts r _ _ = panics

-- `Regulate` from its loop on.
unfoldable pub judge_attempts : Regulator → List AuthenticationAttempt → Verdict
judge_attempts r attempts =
    let failed = latest_failed_attempts r.max_retries [] attempts in
    if ltb (length failed) r.max_retries
    then not_banned
    else compare_attempts r (get_elem? failed 0) (get_elem? failed (r.max_retries - 1))

-- The bytes of an `AuthenticationAttempt` on a 64-bit platform: a text, a flag and a time.
abbrev pub attempt_size : ℕ
attempt_size = 48

-- `maxAlloc` of the runtime on amd64, 2^48 bytes: `make` panics for a slice of more.
abbrev pub max_alloc : ℕ
max_alloc = 281_474_976_710_656

-- `Regulate`, over the attempts that the storage loads; where it fails to, nobody is banned, and
-- otherwise a slice is made that can hold `maxRetries` attempts.
unfoldable pub judge : Regulator → Option (List AuthenticationAttempt) → Verdict
judge r none = not_banned
judge r (some attempts) =
    if ltb max_alloc (attempt_size * r.max_retries) then panics else judge_attempts r attempts

unfoldable pub regulate :
    Regulator → (Text → ℤ → Option (List AuthenticationAttempt)) → ℤ → Text → Verdict
regulate r load_latest_authentication_logs now username =
    if not r.enabled
    then not_banned
    else judge r (load_latest_authentication_logs username (now -ℤ r.ban_time))

-- What a test of the regulation computes with.
unfoldable pub regulating : Unit {0}
unfolding regulator_of new_regulator latest_failed_attempts compare_attempts judge_attempts judge
    regulate durations
regulating = tt
