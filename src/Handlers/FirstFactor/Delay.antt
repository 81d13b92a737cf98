-- ===== src/Handlers/FirstFactor/Delay.antt =====
-- The delay of handler_firstfactor.go, which hides in the time of a reply whether a user exists.
-- Times are whole milliseconds of the monotonic clock, so not negative, and small enough for
-- `float64` to hold them exactly.
pub mod Timing
use ldap_totp_nginx_auth.Prelude.{
  if◌then◌else◌, List, [], ◌∷◌, Bool, true, false, Option, none, some, ℕ, suc, ◌+◌, ◌-◌, ◌/◌, ◌%◌,
  leb, take, drop, ◌++◌, length, ltb,
}

abbrev pub moving_average_window : ℕ
moving_average_window = 10

abbrev pub ms_minimum_delay_1fa : ℕ
ms_minimum_delay_1fa = 250

abbrev pub max : ℕ → ℕ → ℕ
max a b = if leb a b then b else a

-- `xs[i] = value`, which panics beyond the end.
unfoldable pub store : ℕ → ℕ → List ℕ → Option (List ℕ)
store i value xs = if ltb i (length xs) then some (take i xs ++ value ∷ drop (suc i) xs) else none

unfoldable pub sum : List ℕ → ℕ
sum [] = 0
sum (v ∷ vs) = v + sum vs

-- The durations of the last successful logins, and where the next one goes.
pub record MovingAverage : Type 0 where
  pub cursor : ℕ
  pub durations : List ℕ

abbrev pub stored : MovingAverage → Option (List ℕ) → Option MovingAverage
stored m none = none
stored m (some durations) =
    some (record { cursor = (m.cursor + 1) % moving_average_window; durations = durations })

-- The change of `movingAverageIteration`, and the average that it gives.
unfoldable pub moving_average_iteration : ℕ → Bool → MovingAverage → Option MovingAverage
moving_average_iteration value false m = some m
moving_average_iteration value true m = stored m (store m.cursor value m.durations)

unfoldable pub average : MovingAverage → ℕ
average m = sum m.durations / moving_average_window

-- `calculateActualDelay`, over the random delay. A difference below 0 counts as the least delay.
unfoldable pub calculate_actual_delay : ℕ → ℕ → ℕ → ℕ
calculate_actual_delay exec_duration avg_exec_duration random_delay =
    let total_delay = max avg_exec_duration ms_minimum_delay_1fa + random_delay in
    max (total_delay - exec_duration) 1
