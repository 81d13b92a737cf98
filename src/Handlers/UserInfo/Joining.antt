-- ===== src/Handlers/UserInfo/Joining.antt =====
-- `wg.Wait` returns: the goroutines of `loadInfo` have only so many steps, and none blocks.
use ldap_totp_nginx_auth.Prelude.{
  Bool-cases, ℕ, zero, suc, ◌+◌, ◌<◌, ◌≤◌, ◌≡◌, ◌⊎◌, inl, inr, refl, arith,
}
use ldap_totp_nginx_auth.Handlers.UserInfo.{Loaded, fails}
use ldap_totp_nginx_auth.Handlers.UserInfo.Goroutines.{
  Shared, Goroutine, loaded, appending, returning, done, Move, set, read_errors, write_errors,
  wg_done, System, Step, run_preference, run_u2f, run_totp, Reach, forked, IsJoined, joined, owed,
  IsCounting, Reach-IsCounting, IsJoined-joined,
}

-- The steps that a goroutine has left.
abbrev pub left : Goroutine → ℕ
left (loaded r) = 3
left (appending r n) = 2
left (returning r) = 1
left (done r) = 0

abbrev pub work : System → ℕ
work s = left s.preference + left s.u2f + left s.totp

Move-left : {m m' : Shared} {g g' : Goroutine} → Move m g m' g' → left g' < left g
Move-left (set r e) = omega arith
Move-left (read_errors r e) = omega arith
Move-left (write_errors r n) = omega arith
Move-left (wg_done r n e) = omega arith

Step-work : {s t : System} → Step s t → work t < work s
Step-work (run_preference m g mv) = omega (arith, Move-left mv)
Step-work (run_u2f m g mv) = omega (arith, Move-left mv)
Step-work (run_totp m g mv) = omega (arith, Move-left mv)

returnable :
    (m : Shared) (r : Loaded) (n : ℕ)
    → m.waiting ≡ n
    → 0 < n
    → (m' : Shared) × (g' : Goroutine) × Move m (returning r) m' g'
returnable m r zero e h = absurd (omega arith)
returnable m r (suc n) e h = (_, _, wg_done r n e)

-- A goroutine is done or can move, where the counter counts at least its own call.
movable :
    (m : Shared) (g : Goroutine)
    → owed g ≤ m.waiting
    → (owed g ≡ 0) ⊎ ((m' : Shared) × (g' : Goroutine) × Move m g m' g')
movable m (loaded r) counted = elim (Bool-cases (fails r)) [
  | inl e ↦ inr (_, _, read_errors r e)
  | inr e ↦ inr (_, _, set r e)
]
movable m (appending r n) counted = inr (_, _, write_errors r n)
movable m (returning r) counted = inr (returnable m r m.waiting refl counted)
movable m (done r) counted = inl refl

-- The wait returns or the system can step.
steppable : (s : System) → IsCounting s → IsJoined s ⊎ ((t : System) × Step s t)
steppable s counting = elim (movable s.mem s.preference (omega arith)) [
  | inr (m, g, mv) ↦ inr (_, run_preference m g mv)
  | inl p ↦ elim (movable s.mem s.u2f (omega arith)) [
    | inr (m, g, mv) ↦ inr (_, run_u2f m g mv)
    | inl q ↦ elim (movable s.mem s.totp (omega arith)) [
      | inr (m, g, mv) ↦ inr (_, run_totp m g mv)
      | inl r ↦ inl (omega arith)
    ]
  ]
]

-- Every step of the goroutines that load the information of a user leaves fewer steps; until the
-- counter of the wait group is 0 one of them can take a step, so the wait for them ends; and it
-- ends only once all of them are done, with the results that they started with.
pub load_info-joins :
    (a b c : Loaded) (s : System)
    → Reach (forked a b c) s
    → ((t : System) → Step s t → work t < work s)
      × (IsJoined s ⊎ ((t : System) × Step s t))
      × (IsJoined s → s ≡ joined a b c s.mem)
load_info-joins a b c s r =
    (λ t st. Step-work st, steppable s (Reach-IsCounting r), λ over. IsJoined-joined s r over)
