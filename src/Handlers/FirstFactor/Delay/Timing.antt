-- ===== src/Handlers/FirstFactor/Delay/Timing.antt =====
-- How long a login takes, and that its average never leaves the window.
use ldap_totp_nginx_auth.Prelude.{
  List, ◌∷◌, ◌++◌, Bool, true, false, some, ℕ, suc, ◌+◌, ◌%◌, ◌<◌, ltb, length, take, drop,
  length-append, length-take, length-drop, ◌≡◌, refl, arith,
}
use ldap_totp_nginx_auth.Handlers.FirstFactor.Delay.{
  moving_average_window, ms_minimum_delay_1fa, max, store, MovingAverage, moving_average_iteration,
  calculate_actual_delay,
}

-- The time of a login and its delay make up the larger of the average and 250 milliseconds, and
-- the random delay, unless the login itself took as long, when it is one millisecond more than the
-- login.
pub calculate_actual_delay-total :
    (exec_duration average random : ℕ)
    → exec_duration + calculate_actual_delay exec_duration average random
      ≡ max (max average ms_minimum_delay_1fa + random) (exec_duration + 1)
unfolding calculate_actual_delay
calculate_actual_delay-total exec_duration average random = ground arith

-- A window that is full and has its cursor inside.
abbrev pub IsWindow : MovingAverage → Type 0
IsWindow m = (m.cursor < moving_average_window) × (length m.durations ≡ moving_average_window)

store-length :
    (i value : ℕ) (xs : List ℕ)
    → i < length xs
    → (ys : List ℕ) × (store i value xs ≡ some ys) × (length ys ≡ length xs)
unfolding store
store-length i value xs inside =
    let fits : ltb i (length xs) ≡ true = ground arith in
    (
      take i xs ++ value ∷ drop (suc i) xs,
      simp fits refl,
      omega (
        arith,
        length-append (take i xs) (value ∷ drop (suc i) xs),
        length-take i xs,
        length-drop (suc i) xs,
      ),
    )

-- An iteration of the moving average does not panic, and keeps a full window of ten durations with
-- its cursor inside.
pub moving_average_iteration-IsWindow :
    (value : ℕ) (successful : Bool) (m : MovingAverage)
    → IsWindow m
    → (m' : MovingAverage) × (moving_average_iteration value successful m ≡ some m') × IsWindow m'
unfolding moving_average_iteration
moving_average_iteration-IsWindow value false m window = (m, refl, window)
moving_average_iteration-IsWindow value true m (inside, full) =
    let (durations, put, same) = store-length m.cursor value m.durations (omega arith) in
    (
      record { cursor = (m.cursor + 1) % moving_average_window; durations = durations },
      simp put refl,
      (omega arith, omega arith),
    )
