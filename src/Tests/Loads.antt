-- ===== src/Tests/Loads.antt =====
-- The goroutines that load the information of a user, in an order in which an error is lost.
use ldap_totp_nginx_auth.Prelude.{◌≡◌, ◌⊎◌, ◌<◌, refl}
use ldap_totp_nginx_auth.Handlers.UserInfo.{failed, has_totp, empty_info, write, fails, use_loads}
use ldap_totp_nginx_auth.Handlers.UserInfo.Goroutines.{
  Shared, appending, returning, loaded, set, read_errors, write_errors, wg_done, System, Step,
  run_preference, run_u2f, run_totp, forked, Reach, later, IsJoined, joined,
}
use ldap_totp_nginx_auth.Handlers.UserInfo.Goroutines
use ldap_totp_nginx_auth.Handlers.UserInfo.Races.{reply_shared, reply_shared-use_loads}
use ldap_totp_nginx_auth.Handlers.UserInfo.Joining.{work, load_info-joins}
use ldap_totp_nginx_auth.Tests.{session_of_john, example_env}

-- Two goroutines have failed, and only one error is counted.
abbrev one_counted : Shared
one_counted = record { info = write has_totp empty_info; errors = 1; waiting = 0 }

-- Both have read that there are no errors yet.
abbrev both_reading : System
both_reading = record {
  mem = record { info = empty_info; errors = 0; waiting = 3 };
  preference = appending failed 0;
  u2f = appending failed 0;
  totp = loaded has_totp;
}

-- Each of the three has its `wg.Done` left to call.
abbrev all_returning : System
all_returning = record {
  mem = record { info = write has_totp empty_info; errors = 1; waiting = 3 };
  preference = returning failed;
  u2f = returning failed;
  totp = returning has_totp;
}

reads : Reach (forked failed failed has_totp) both_reading
unfolding fails
reads =
    later (later Goroutines.start (run_preference _ _ (read_errors failed refl)))
      (run_u2f _ _ (read_errors failed refl))

loses_error : Reach (forked failed failed has_totp) all_returning
unfolding fails
loses_error =
    later
      (later (later reads (run_preference _ _ (write_errors failed 0)))
        (run_u2f _ _ (write_errors failed 0)))
      (run_totp _ _ (set has_totp refl))

joins : Reach (forked failed failed has_totp) (joined failed failed has_totp one_counted)
joins =
    later
      (later (later loses_error (run_preference _ _ (wg_done failed 2 refl)))
        (run_u2f _ _ (wg_done failed 1 refl)))
      (run_totp _ _ (wg_done has_totp 0 refl))

reply_shared-use_loads_example :
    reply_shared example_env session_of_john one_counted
    ≡ use_loads example_env session_of_john failed failed has_totp
reply_shared-use_loads_example =
    reply_shared-use_loads failed failed has_totp refl refl refl example_env session_of_john
      (joined failed failed has_totp one_counted) joins refl

load_info-joins_example :
    ((t : System) → Step both_reading t → work t < work both_reading)
    × (IsJoined both_reading ⊎ ((t : System) × Step both_reading t))
    × (IsJoined both_reading → both_reading ≡ joined failed failed has_totp both_reading.mem)
load_info-joins_example = load_info-joins failed failed has_totp both_reading reads
