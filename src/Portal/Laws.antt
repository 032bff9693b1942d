-- ===== src/Portal/Laws.antt =====
-- What a request of the portal leaves open, and what its child receives.
use seck.Base.{
  ℕ, zero, suc, ◌+◌, ◌≤◌, ◌<◌, ◌≡◌, ◌≢◌, ◌↔◌, refl, subst, sym, ap, ◌∙◌, arith, Bool, true, false,
  Bool-cases, inl, inr, Option, none, some, Option-cases, List, [], ◌∷◌, ◌==◌, if◌then◌else◌, Text,
}
use seck.Base.Outcome.{Result, ok, err, bind-eq-ok, ok-injective, Result-cases}
use seck.Base.Strings.{codes}
use seck.Orchestrator.Descriptors.{
  opened_file, Open, inherited, Table, set, kept, duplicated, OrchestratorError, dup2, spawn,
}
use seck.Portal.{
  Service, PortalError, or_failed, or_spawn, of_file, portal_which, seck_exe, open_path,
  start_analyze, after_open, analyze_path, requests,
}

-- How many of the numbers below `n` are open.
abbrev pub one_if_open : Option Open → ℕ
one_if_open none = 0
one_if_open (some o) = 1

unfoldable pub count_open : ℕ → Table → ℕ
count_open zero t = 0
count_open (suc n) t = one_if_open (t n) + count_open n t

count_open-le : (n : ℕ) (t : Table) → count_open n t ≤ n
unfolding count_open
count_open-le zero t = omega arith
count_open-le (suc n) t = elim (Option-cases (t n)) [
  | inl e ↦ rw e (omega (arith, count_open-le n t))
  | inr (o, e) ↦ rw e (omega (arith, count_open-le n t))
]

count_open-above :
    (n m : ℕ) (t : Table) (o : Open) → n ≤ m → count_open n (set t m (some o)) ≡ count_open n t
unfolding count_open
count_open-above zero m t o h = refl
count_open-above (suc n) m t o h = ground (arith, count_open-above n m t o)

count_open-set :
    (n m : ℕ) (t : Table) (o : Open)
    → m < n
    → t m ≡ none
    → count_open n (set t m (some o)) ≡ suc (count_open n t)
unfolding count_open
count_open-set zero m t o h e = absurd (omega arith)
count_open-set (suc n) m t o h e = elim (Bool-cases (n == m)) [
  | inl same ↦
      let at : n ≡ m = ground (arith, same) in
      rw (same, ap t at ∙ e) (omega (arith, count_open-above n m t o (omega (arith, at))))
  | inr differ ↦ rw differ (
      ap (λ x. one_if_open (t n) + x) (count_open-set n m t o (ground (arith, differ)) e)
      ∙ omega arith)
]

module _ (s : Service) where
  -- How many requests of a row open their file.
  abbrev pub one_if_ok {ℓ} : {A : Type ℓ} → Result PortalError A → ℕ
  one_if_ok (ok a) = 1
  one_if_ok (err e) = 0

  unfoldable pub opened : List Text → Table → ℕ
  unfolding open_path analyze_path
  opened [] t = 0
  opened (path ∷ paths) t = one_if_ok (open_path s path t) + opened paths (analyze_path s path t).1

  -- A request that opens its file leaves it open under a number that was free.
  record Opened (path : Text) (t : Table) (r : ℕ × ℕ × Table) : Type 0 where
    was_free : t r.0 ≡ none
    was_lowest : s.kernel.lowest t ≡ some r.0
    table_is : r.2 ≡ set t r.0 (some (of_file r.1))
    answer_is : analyze_path s path t ≡ (start_analyze s r.0 r.2, r.2)

  or_failed-eq-ok : (o : Option ℕ) (n : ℕ) → or_failed o ≡ ok n → o ≡ some n
  or_failed-eq-ok none n h = cc
  or_failed-eq-ok (some m) n h = cc

  open_path-Opened :
      (path : Text) (t : Table) (r : ℕ × ℕ × Table) → open_path s path t ≡ ok r → Opened path t r
  unfolding open_path analyze_path
  open_path-Opened path t r h =
      let (id, e₁, h₁) = bind-eq-ok (or_failed (s.resolves path)) _ h in
      let (raw, e₂, h₂) = bind-eq-ok (or_failed (s.kernel.lowest t)) _ h₁ in
      let is = ok-injective h₂ in
      let at = or_failed-eq-ok (s.kernel.lowest t) raw e₂ in
      subst (λ (x : ℕ × ℕ × Table). Opened path t x) is
        (record {
          was_free = s.kernel.lowest_free t raw at;
          was_lowest = at;
          table_is = refl;
          answer_is = ap (after_open s t) (h ∙ ap ok (sym is));
        })

  after_one :
      (limit : ℕ) (path : Text) (t : Table)
      → ((u : Table) (n : ℕ) → s.kernel.lowest u ≡ some n → n < limit)
      → count_open limit (analyze_path s path t).1
        ≡ one_if_ok (open_path s path t) + count_open limit t
  unfolding analyze_path
  after_one limit path t below = elim (Result-cases (open_path s path t)) [
    | inr (e, failed) ↦ rw (failed, analyze_path) (omega arith)
    | inl (r, e) ↦
        let o = open_path-Opened path t r e in
        let table : (analyze_path s path t).1 ≡ set t r.0 (some (of_file r.1)) =
          ap (λ (x : Result PortalError Table × Table). x.1) o.answer_is ∙ o.table_is in
        let grown =
          ap (count_open limit) table
          ∙ count_open-set limit r.0 t (of_file r.1) (below t r.0 o.was_lowest) o.was_free in
        let one : one_if_ok (open_path s path t) ≡ 1 = ap one_if_ok e in omega (arith, grown, one)
  ]

  -- If the kernel gives no number from `limit` on, a row of requests, whether they succeed or not, leaves
  -- open in the service what was open and one more number for every file that was opened, and these are
  -- no more than `limit`: the service never closes what it opens, so no row opens more files than there
  -- were free numbers.
  pub requests-bounded :
      (limit : ℕ) (paths : List Text) (t : Table)
      → ((u : Table) (n : ℕ) → s.kernel.lowest u ≡ some n → n < limit)
      → (count_open limit (requests s paths t) ≡ opened paths t + count_open limit t)
        × (opened paths t + count_open limit t ≤ limit)
  unfolding requests opened
  requests-bounded limit [] t below = (omega arith, omega (arith, count_open-le limit t))
  requests-bounded limit (path ∷ paths) t below =
      let more = requests-bounded limit paths (analyze_path s path t).1 below in
      let one = after_one limit path t below in
      (omega (arith, more.0, one), omega (arith, more.1, one))

  or_spawn-eq-ok :
      (r : Result OrchestratorError Table) (child : Table) → or_spawn r ≡ ok child → r ≡ ok child
  or_spawn-eq-ok (ok c) child h = cc
  or_spawn-eq-ok (err e) child h = cc

  kept-handed :
      (raw id : ℕ) (t : Table)
      → t raw ≡ some (of_file id)
      → (b : Bool) → (raw == 3) ≡ b
      → kept (duplicated raw 3 (of_file id) t 3)
        ≡ (if b then none else some (inherited (opened_file id)))
  kept-handed raw id t e true same =
      let at : raw ≡ 3 = ground (arith, same) in rw same (ap kept (ap t (sym at) ∙ e))
  kept-handed raw id t e false differ = rw differ refl

  start_analyze-child :
      (raw id : ℕ) (t child : Table)
      → t raw ≡ some (of_file id)
      → start_analyze s raw t ≡ ok child
      → child 3 ≡ kept (duplicated raw 3 (of_file id) t 3)
  unfolding start_analyze dup2 spawn
  start_analyze-child raw id t child e h =
      let started = or_spawn-eq-ok _ child h in
      let (made, e₁, h₁) = bind-eq-ok (dup2 raw 3 t) _ started in
      let made_is : ok (duplicated raw 3 (of_file id) t) ≡ ok made = rw (e, dup2) at e₁ in
      elim (Bool-cases (s.kernel.can_exec (seck_exe s (portal_which s (codes "seck"))))) [
        | inl runs ↦
            let child_is : ok (λ n. kept (made n)) ≡ ok child = rw runs at h₁ in
            sym (ap (λ (u : Table). u 3) (ok-injective child_is))
            ∙ ap (λ (u : Table). kept (u 3)) (sym (ok-injective made_is))
        | inr not_there ↦ let h₂ = rw not_there at h₁ in cc
      ]

  -- The child of a request has the file at the number 3 exactly if the service got another number for it:
  -- from 3 to 3, `dup2` leaves the flag that closes the file when the child starts.
  pub start_analyze-hands_over_iff :
      (path : Text) (t child : Table) (r : ℕ × ℕ × Table)
      → open_path s path t ≡ ok r
      → start_analyze s r.0 r.2 ≡ ok child
      → (child 3 ≡ some (inherited (opened_file r.1))) ↔ (r.0 ≢ 3)
  start_analyze-hands_over_iff path t child r e h =
      let o = open_path-Opened path t r e in
      let here : r.2 r.0 ≡ some (of_file r.1) =
        ap (λ (u : Table). u r.0) o.table_is ∙ ground arith in
      let at_3 = start_analyze-child r.0 r.1 r.2 child here h in
      (
        (λ has same.
            let closed = at_3 ∙ kept-handed r.0 r.1 r.2 here true (ground (arith, same)) in
            cc (has, closed)),
        (λ differ. at_3 ∙ kept-handed r.0 r.1 r.2 here false (ground (arith, differ))),
      )
