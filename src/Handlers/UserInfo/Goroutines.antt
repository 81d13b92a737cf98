-- ===== src/Handlers/UserInfo/Goroutines.antt =====
-- The goroutines of `loadInfo`. They share the information and the slice of errors with no lock: an
-- append reads the slice and writes it back, and another goroutine may come in between. On each
-- path a goroutine ends with the deferred call that counts down the wait group.
use ldap_totp_nginx_auth.Prelude.{true, false, ℕ, suc, ◌+◌, ◌≡◌, refl, ap, ◌∙◌, arith}
use ldap_totp_nginx_auth.Middlewares.{UserInfo}
use ldap_totp_nginx_auth.Handlers.UserInfo.{empty_info, Loaded, write, fails}

-- What the goroutines share; of the errors only their number matters. `waiting` is the counter of
-- the wait group.
pub record Shared : Type 0 where
  pub info : UserInfo
  pub errors : ℕ
  pub waiting : ℕ

-- A goroutine has loaded its result, or has read the number of errors that it is to add one to, or
-- returns, with the deferred `wg.Done` still to call, or is done.
pub data Goroutine : Type 0 where
  loaded : Loaded → Goroutine
  appending : Loaded → ℕ → Goroutine
  returning : Loaded → Goroutine
  done : Loaded → Goroutine

pub data Move (m : Shared) : Goroutine → Shared → Goroutine → Type 0 where
  set :
      (r : Loaded)
      → fails r ≡ false
      → Move m (loaded r) (record m { info = write r m.info }) (returning r)
  read_errors : (r : Loaded) → fails r ≡ true → Move m (loaded r) m (appending r m.errors)
  write_errors :
      (r : Loaded) (n : ℕ) → Move m (appending r n) (record m { errors = suc n }) (returning r)
  -- `wg.Done`, which would panic at 0.
  wg_done :
      (r : Loaded) (n : ℕ)
      → m.waiting ≡ suc n
      → Move m (returning r) (record m { waiting = n }) (done r)

pub record System : Type 0 where
  pub mem : Shared
  pub preference : Goroutine
  pub u2f : Goroutine
  pub totp : Goroutine

pub data Step (s : System) : System → Type 0 where
  run_preference :
      (m : Shared) (g : Goroutine)
      → Move s.mem s.preference m g
      → Step s (record s { mem = m; preference = g })
  run_u2f :
      (m : Shared) (g : Goroutine) → Move s.mem s.u2f m g → Step s (record s { mem = m; u2f = g })
  run_totp :
      (m : Shared) (g : Goroutine) → Move s.mem s.totp m g → Step s (record s { mem = m; totp = g })

-- `wg.Add(3)`, before the goroutines start.
abbrev pub fork_memory : Shared
fork_memory = record { info = empty_info; errors = 0; waiting = 3 }

abbrev pub forked : Loaded → Loaded → Loaded → System
forked a b c = record { mem = fork_memory; preference = loaded a; u2f = loaded b; totp = loaded c }

pub data Reach (s : System) : System → Type 0 where
  start : Reach s s
  later : {t u : System} → Reach s t → Step t u → Reach s u

-- `wg.Wait` returns.
abbrev pub IsJoined : System → Type 0
IsJoined s = s.mem.waiting ≡ 0

-- All goroutines are done.
abbrev pub joined : Loaded → Loaded → Loaded → Shared → System
joined a b c m = record { mem = m; preference = done a; u2f = done b; totp = done c }

abbrev pub result_of : Goroutine → Loaded
result_of (loaded r) = r
result_of (appending r n) = r
result_of (returning r) = r
result_of (done r) = r

-- The call of `wg.Done` that a goroutine owes.
abbrev pub owed : Goroutine → ℕ
owed (loaded r) = 1
owed (appending r n) = 1
owed (returning r) = 1
owed (done r) = 0

-- The counter is the number of calls that are owed.
abbrev pub IsCounting : System → Type 0
IsCounting s = s.mem.waiting ≡ owed s.preference + owed s.u2f + owed s.totp

Move-owed :
    {m m' : Shared} {g g' : Goroutine} → Move m g m' g' → m'.waiting + owed g ≡ m.waiting + owed g'
Move-owed (set r e) = refl
Move-owed (read_errors r e) = refl
Move-owed (write_errors r n) = refl
Move-owed (wg_done r n e) = omega (arith, e)

Step-IsCounting : {s t : System} → Step s t → IsCounting s → IsCounting t
Step-IsCounting (run_preference m g mv) h = omega (arith, Move-owed mv, h)
Step-IsCounting (run_u2f m g mv) h = omega (arith, Move-owed mv, h)
Step-IsCounting (run_totp m g mv) h = omega (arith, Move-owed mv, h)

pub Reach-IsCounting : {a b c : Loaded} {s : System} → Reach (forked a b c) s → IsCounting s
Reach-IsCounting start = refl
Reach-IsCounting (later r st) = Step-IsCounting st (Reach-IsCounting r)

Move-result : {m m' : Shared} {g g' : Goroutine} → Move m g m' g' → result_of g' ≡ result_of g
Move-result (set r e) = refl
Move-result (read_errors r e) = refl
Move-result (write_errors r n) = refl
Move-result (wg_done r n e) = refl

abbrev pub Results : Loaded → Loaded → Loaded → System → Type 0
Results a b c s = (result_of s.preference ≡ a) × (result_of s.u2f ≡ b) × (result_of s.totp ≡ c)

Step-Results : {a b c : Loaded} {s t : System} → Step s t → Results a b c s → Results a b c t
Step-Results (run_preference m g mv) (p, q, r) = (Move-result mv ∙ p, q, r)
Step-Results (run_u2f m g mv) (p, q, r) = (p, Move-result mv ∙ q, r)
Step-Results (run_totp m g mv) (p, q, r) = (p, q, Move-result mv ∙ r)

Reach-Results : {a b c : Loaded} {s : System} → Reach (forked a b c) s → Results a b c s
Reach-Results start = (refl, refl, refl)
Reach-Results (later r st) = Step-Results st (Reach-Results r)

done_of : (g : Goroutine) {r : Loaded} → result_of g ≡ r → owed g ≡ 0 → g ≡ done r
done_of (loaded r) e h = absurd (omega arith)
done_of (appending r n) e h = absurd (omega arith)
done_of (returning r) e h = absurd (omega arith)
done_of (done r) e h = ap done e

-- Where the wait returns, every goroutine is done.
pub IsJoined-joined :
    {a b c : Loaded} (s : System) → Reach (forked a b c) s → IsJoined s → s ≡ joined a b c s.mem
IsJoined-joined s reached over =
    let counting = Reach-IsCounting reached in
    let (p, q, r) = Reach-Results reached in
    let first = done_of s.preference p (omega arith) in
    let second = done_of s.u2f q (omega arith) in
    let third = done_of s.totp r (omega arith) in ground (arith, first, second, third)
