-- ===== src/Trace/Checker/Sound.antt =====
-- The checker accepts a trace exactly if each effect respects the I/O boundary.
use seck.Base.{
  ◌≡◌, ◌⊎◌, ◌↔◌, refl, arith, Bool, true, false, ◌||◌, List, [], ◌∷◌, Bool-cases, inl, inr, Bytes,
  All,
}
use seck.Base.Int.{ℤ, pos, negsuc}
use seck.Base.Outcome.{ok, err, ◌>>◌, guard}
use seck.Trace.{Effect, open_p, exec_p, read_f, write_f, net_conn}
use seck.Trace.Checker.{
  InvariantError, tainted_exec, contains_subsequence, is_allowed_fd, Check, clean, check_args,
  check_env, check_effect, check_trace,
}
use seck.Trace.Checker.Occurs.{Occurs, contains_subsequence_iff}

module _ (canary : Bytes) where
  abbrev pub Untainted : Bytes → Type 0
  Untainted s = ¬ (Occurs canary s)

  -- The canary stays out of every path, argument and environment string, nothing is connected, and
  -- the canary is written to FD 3 or FD 5 alone.
  abbrev pub Respects : Effect → Type 0
  Respects (open_p path) = Untainted path
  Respects (exec_p path args env) =
      Untainted path × All Untainted args × All (λ kv. Untainted kv.0 × Untainted kv.1) env
  Respects (net_conn host port) = ⊥
  Respects (write_f fd bytes) = Occurs canary bytes → (fd ≡ pos 3) ⊎ (fd ≡ pos 5)
  Respects (read_f fd) = Unit

  clean_iff : (s : Bytes) → (clean canary s ≡ true) ↔ Untainted s
  unfolding clean
  clean_iff s = elim (Bool-cases (contains_subsequence s canary)) [
    | inl h ↦ (λ e. cc, λ n. absurd (n ((contains_subsequence_iff s canary).0 h)))
    | inr h ↦ (λ e o. cc (h, (contains_subsequence_iff s canary).1 o), λ n. rw h)
  ]

  guard_iff :
      {P : Type 0} (b : Bool) (e : InvariantError) → (b ≡ true) ↔ P → (guard b e ≡ ok tt) ↔ P
  guard_iff true e p = (λ h. p.0 refl, λ h. refl)
  guard_iff false e p = (λ h. cc, λ h. cc (p.1 h))

  then_iff :
      {P Q : Type 0} (m k : Check)
      → (m ≡ ok tt) ↔ P
      → (k ≡ ok tt) ↔ Q
      → ((m >> k) ≡ ok tt) ↔ (P × Q)
  then_iff (ok u) k p q = (λ h. (p.0 refl, q.0 h), λ h. q.1 h.1)
  then_iff (err e) k p q = (λ h. cc, λ h. cc (p.1 h.0))

  clean-guard_iff :
      (s : Bytes) (e : InvariantError) → (guard (clean canary s) e ≡ ok tt) ↔ Untainted s
  clean-guard_iff s e = guard_iff (clean canary s) e (clean_iff s)

  check_args_iff : (args : List Bytes) → (check_args canary args ≡ ok tt) ↔ All Untainted args
  unfolding check_args
  check_args_iff [] = (λ h. tt, λ h. refl)
  check_args_iff (a ∷ args) =
      then_iff _ (check_args canary args) (clean-guard_iff a _) (check_args_iff args)

  check_env_iff :
      (env : List (Bytes × Bytes))
      → (check_env canary env ≡ ok tt) ↔ All (λ kv. Untainted kv.0 × Untainted kv.1) env
  unfolding check_env
  check_env_iff [] = (λ h. tt, λ h. refl)
  check_env_iff ((k, v) ∷ env) =
      let both =
        then_iff (guard (clean canary k) (tainted_exec k))
          (guard (clean canary v) (tainted_exec v) >> check_env canary env) (clean-guard_iff k _)
          (then_iff (guard (clean canary v) (tainted_exec v)) (check_env canary env)
            (clean-guard_iff v _) (check_env_iff env)) in
      (λ h. let (hk, (hv, r)) = both.0 h in ((hk, hv), r), λ h. both.1 (h.0.0, (h.0.1, h.1)))

  fd_iff : (fd : ℤ) → (is_allowed_fd fd ≡ true) ↔ ((fd ≡ pos 3) ⊎ (fd ≡ pos 5))
  unfolding is_allowed_fd
  fd_iff (pos n) = ground arith
  fd_iff (negsuc n) = ground arith

  write_iff :
      (fd : ℤ) (bytes : Bytes)
      → ((clean canary bytes || is_allowed_fd fd) ≡ true)
        ↔ (Occurs canary bytes → (fd ≡ pos 3) ⊎ (fd ≡ pos 5))
  write_iff fd bytes = elim (Bool-cases (clean canary bytes)) [
    | inl c ↦ rw c (λ h o. absurd ((clean_iff bytes).0 c o), λ h. refl)
    | inr d ↦ rw d (λ h o. (fd_iff fd).0 h, λ h. (fd_iff fd).1 (h (tainted d)))
  ]
    where
      tainted : clean canary bytes ≡ false → Occurs canary bytes
      tainted d = (contains_subsequence_iff bytes canary).0 (unfold clean in ground arith)

  check_effect_iff : (e : Effect) → (check_effect canary e ≡ ok tt) ↔ Respects e
  unfolding check_effect
  check_effect_iff (open_p path) = clean-guard_iff path _
  check_effect_iff (exec_p path args env) =
      let all =
        then_iff _ (check_args canary args >> check_env canary env)
          (clean-guard_iff path (tainted_exec path))
          (then_iff (check_args canary args) (check_env canary env) (check_args_iff args)
            (check_env_iff env)) in
      (λ h. let (a, (b, c)) = all.0 h in (a, b, c), λ h. all.1 (h.0, (h.1, h.2)))
  check_effect_iff (net_conn host port) = (λ h. cc, λ h. absurd h)
  check_effect_iff (write_f fd bytes) = guard_iff _ _ (write_iff fd bytes)
  check_effect_iff (read_f fd) = (λ h. tt, λ h. refl)

-- The checker accepts a trace exactly if every effect respects the boundary: the canary occurs in
-- no opened path and in no executed path, argument or environment string, nothing is connected,
-- and the canary is written to no descriptor but 3 and 5.
pub check_trace_iff :
    (canary : Bytes) (effects : List Effect)
    → (check_trace canary effects ≡ ok tt) ↔ All (Respects canary) effects
unfolding check_trace
check_trace_iff canary [] = (λ h. tt, λ h. refl)
check_trace_iff canary (e ∷ effects) =
    then_iff canary (check_effect canary e) (check_trace canary effects) (check_effect_iff canary e)
      (check_trace_iff canary effects)
