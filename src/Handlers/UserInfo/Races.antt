-- ===== src/Handlers/UserInfo/Races.antt =====
-- The goroutines of `loadInfo` race for the slice of errors, and the reply is the same in any order.
use ldap_totp_nginx_auth.Prelude.{
  if◌then◌else◌, not, Text, [], Bool, true, false, ℕ, eqb, ◌<◌, ◌≡◌, refl, subst, arith,
}
use ldap_totp_nginx_auth.Session.{UserSession}
use ldap_totp_nginx_auth.Middlewares.{operation_failed, user_info, Env, Handler}
use ldap_totp_nginx_auth.Middlewares.Context.{error_reply, set_json_body}
use ldap_totp_nginx_auth.Handlers.UserInfo.{
  empty_info, Loaded, failed, nothing, has_u2f, has_totp, method, write, fails, use_loads,
}
use ldap_totp_nginx_auth.Handlers.UserInfo.Goroutines.{
  Shared, Goroutine, loaded, appending, returning, done, Move, set, read_errors, write_errors,
  wg_done, System, Step, run_preference, run_u2f, run_totp, forked, Reach, start, later, IsJoined,
  joined, result_of, IsJoined-joined,
}

-- What `UserInfoGet` makes of the memory.
unfoldable pub reply_shared : Env → UserSession → Shared → Handler (Unit {0})
reply_shared env s m =
    if not (eqb m.errors 0)
    then error_reply operation_failed
    else set_json_body (user_info (record m.info { display_name = s.display_name }))

-- The results that each goroutine can have.
abbrev pub is_preference : Loaded → Bool
is_preference failed = true
is_preference (method m) = true
is_preference _ = false

abbrev pub is_u2f : Loaded → Bool
is_u2f failed = true
is_u2f nothing = true
is_u2f has_u2f = true
is_u2f _ = false

abbrev pub is_totp : Loaded → Bool
is_totp failed = true
is_totp nothing = true
is_totp has_totp = true
is_totp _ = false

-- What a goroutine has written so far.
abbrev method_in : Goroutine → Text
method_in (returning (method m)) = m
method_in (done (method m)) = m
method_in _ = []

abbrev u2f_in : Goroutine → Bool
u2f_in (returning has_u2f) = true
u2f_in (done has_u2f) = true
u2f_in _ = false

abbrev totp_in : Goroutine → Bool
totp_in (returning has_totp) = true
totp_in (done has_totp) = true
totp_in _ = false

-- Where a goroutine has added its error, there is one; it adds one only where it has failed.
abbrev IsCounted : ℕ → Goroutine → Type 0
IsCounted n (loaded r) = Unit
IsCounted n (appending r k) = fails r ≡ true
IsCounted n (returning r) = fails r ≡ true → 0 < n
IsCounted n (done r) = fails r ≡ true → 0 < n

record Inv (a b c : Loaded) (s : System) : Type 0 where
  name : s.mem.info.display_name ≡ []
  method : s.mem.info.method ≡ method_in s.preference
  u2f : s.mem.info.has_u2f ≡ u2f_in s.u2f
  totp : s.mem.info.has_totp ≡ totp_in s.totp
  of_preference : result_of s.preference ≡ a
  of_u2f : result_of s.u2f ≡ b
  of_totp : result_of s.totp ≡ c
  counted_preference : IsCounted s.mem.errors s.preference
  counted_u2f : IsCounted s.mem.errors s.u2f
  counted_totp : IsCounted s.mem.errors s.totp
  -- Errors come from failures only.
  failed : 0 < s.mem.errors → (if fails a then true else if fails b then true else fails c) ≡ true

module _ (a b c : Loaded) (kind_a : is_preference a ≡ true) (kind_b : is_u2f b ≡ true)
    (kind_c : is_totp c ≡ true) where
  forked-Inv : Inv a b c (forked a b c)
  forked-Inv = record {
    name = refl;
    method = refl;
    u2f = refl;
    totp = refl;
    of_preference = refl;
    of_u2f = refl;
    of_totp = refl;
    counted_preference = tt;
    counted_u2f = tt;
    counted_totp = tt;
    failed = λ h. absurd (omega arith);
  }

  Move-preference :
      (m m' : Shared) (g g' u t : Goroutine)
      → Move m g m' g'
      → Inv a b c (record { mem = m; preference = g; u2f = u; totp = t })
      → Inv a b c (record { mem = m'; preference = g'; u2f = u; totp = t })
  unfolding write fails
  Move-preference m _ _ _ u t (set r e) h = ground arith
  Move-preference m _ _ _ u t (read_errors r e) h = ground arith
  Move-preference m _ _ _ u t (write_errors r n) h = ground arith
  Move-preference m _ _ _ u t (wg_done r n e) h = ground arith

  Move-u2f :
      (m m' : Shared) (g g' p t : Goroutine)
      → Move m g m' g'
      → Inv a b c (record { mem = m; preference = p; u2f = g; totp = t })
      → Inv a b c (record { mem = m'; preference = p; u2f = g'; totp = t })
  unfolding write fails
  Move-u2f m _ _ _ p t (set r e) h = ground arith
  Move-u2f m _ _ _ p t (read_errors r e) h = ground arith
  Move-u2f m _ _ _ p t (write_errors r n) h = ground arith
  Move-u2f m _ _ _ p t (wg_done r n e) h = ground arith

  Move-totp :
      (m m' : Shared) (g g' p u : Goroutine)
      → Move m g m' g'
      → Inv a b c (record { mem = m; preference = p; u2f = u; totp = g })
      → Inv a b c (record { mem = m'; preference = p; u2f = u; totp = g' })
  unfolding write fails
  Move-totp m _ _ _ p u (set r e) h = ground arith
  Move-totp m _ _ _ p u (read_errors r e) h = ground arith
  Move-totp m _ _ _ p u (write_errors r n) h = ground arith
  Move-totp m _ _ _ p u (wg_done r n e) h = ground arith

  Step-Inv : {s t : System} → Step s t → Inv a b c s → Inv a b c t
  Step-Inv {s} (run_preference m g mv) h = Move-preference s.mem m s.preference g s.u2f s.totp mv h
  Step-Inv {s} (run_u2f m g mv) h = Move-u2f s.mem m s.u2f g s.preference s.totp mv h
  Step-Inv {s} (run_totp m g mv) h = Move-totp s.mem m s.totp g s.preference s.u2f mv h

  Reach-Inv : {s : System} → Reach (forked a b c) s → Inv a b c s
  Reach-Inv start = forked-Inv
  Reach-Inv (later r st) = Step-Inv st (Reach-Inv r)

  joined_info :
      (m : Shared) → Inv a b c (joined a b c m) → m.info ≡ write c (write b (write a empty_info))
  unfolding write
  joined_info m h = ground arith

  joined_errors :
      (m : Shared)
      → Inv a b c (joined a b c m)
      → not (eqb m.errors 0) ≡ (if fails a then true else if fails b then true else fails c)
  joined_errors m h = ground arith

  -- Whatever the order in which the three goroutines load the information of a user, append to the
  -- slice of errors, in steps of one read or one write, and count down the wait group, the reply
  -- after the wait is that of loading one after the other, though errors may be lost.
  pub reply_shared-use_loads :
      (env : Env) (u : UserSession) (s : System)
      → Reach (forked a b c) s
      → IsJoined s
      → reply_shared env u s.mem ≡ use_loads env u a b c
  unfolding reply_shared use_loads
  reply_shared-use_loads env u s r over =
      let h = subst (Inv a b c) (IsJoined-joined s r over) (Reach-Inv r) in
      rw (joined_info s.mem h, joined_errors s.mem h) refl
