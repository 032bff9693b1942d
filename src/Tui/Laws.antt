-- ===== src/Tui/Laws.antt =====
-- The selection, the expanded set, and the lines drawn.
use seck.Base.{
  ℕ, suc, ◌+◌, ◌<◌, ◌≡◌, ◌⊎◌, inl, inr, refl, ap, subst, arith, Bool, true, false, not, none, some,
  List, [], ◌∷◌, ◌++◌, ltb, if◌then◌else◌, length, map, equal, equal_iff, equal_refl, Bool-cases,
  Option-cases, All, All-append, Text,
}
use seck.Report.{Report, Finding, Input}
use seck.Report.Sanitize.{sanitize}
use seck.Report.Sanitize.Laws.{IsSafe, sanitize-IsSafe}
use seck.Tui.{
  AppState, new_state, is_member, remove, toggle, Key, quit, down, up, top, bottom, enter, other,
  nth_finding, on_key, event_loop, safe_line, render_files, render_meta, finding_lines,
  findings_from, draw,
}

-- The report is shown, and the selection is one of its findings, or 0 if there is none.
pub record IsInBounds (r : Report) (s : AppState) : Type 0 where
  pub shown : s.report ≡ some r
  pub in_bounds : (s.selected < length r.findings) ⊎ (s.selected ≡ 0)

some_injective : {x y : AppState} → some x ≡ some y → x ≡ y
some_injective e = cc

on_key-IsInBounds :
    (r : Report) (k : Key) (s s' : AppState)
    → IsInBounds r s
    → on_key k s ≡ some s'
    → IsInBounds r s'
unfolding on_key
on_key-IsInBounds r quit s s' b h = cc
on_key-IsInBounds r down s s' b h = rest (rw (b.shown, on_key) at h)
  where
    rest :
        (if ltb (s.selected + 1) (length r.findings)
            then some (record s { selected = s.selected + 1 })
            else some s)
          ≡ some s'
        → IsInBounds r s'
    rest h = elim (Bool-cases (ltb (s.selected + 1) (length r.findings))) [
      | inl e ↦
          subst (IsInBounds r) (some_injective (rw e at h))
            (record { shown = b.shown; in_bounds = inl (ground arith) })
      | inr e ↦ subst (IsInBounds r) (some_injective (rw e at h)) b
    ]
on_key-IsInBounds r up s s' b h = subst (IsInBounds r) (some_injective h) (record {
  shown = b.shown;
  in_bounds = elim b.in_bounds [ inl l ↦ inl (omega arith) | inr z ↦ inr (omega arith) ];
})
on_key-IsInBounds r top s s' b h =
    subst (IsInBounds r) (some_injective h) (record { shown = b.shown; in_bounds = inr refl })
on_key-IsInBounds r bottom s s' b h =
    subst (IsInBounds r) (some_injective (rw (b.shown, on_key) at h))
      (record { shown = b.shown; in_bounds = ground arith })
on_key-IsInBounds r enter s s' b h = rest (rw (b.shown, on_key) at h)
  where
    rest :
        elim (nth_finding s.selected r.findings) [
          | none ↦ some s
          | some f ↦ some (record s { expanded = toggle f.id s.expanded })
        ]
          ≡ some s'
        → IsInBounds r s'
    rest h = elim (Option-cases (nth_finding s.selected r.findings)) [
      | inl e ↦ subst (IsInBounds r) (some_injective (rw e at h)) b
      | inr (f, e) ↦
          subst (IsInBounds r) (some_injective (rw e at h))
            (record { shown = b.shown; in_bounds = b.in_bounds })
    ]
on_key-IsInBounds r other s s' b h = subst (IsInBounds r) (some_injective h) b

event_loop-IsInBounds :
    (r : Report) (keys : List Key) (s : AppState)
    → IsInBounds r s
    → IsInBounds r (event_loop keys s)
unfolding event_loop
event_loop-IsInBounds r [] s b = b
event_loop-IsInBounds r (k ∷ keys) s b = elim (Option-cases (on_key k s)) [
  | inl e ↦ rw (e, event_loop) b
  | inr (s', e) ↦
      rw (e, event_loop) (event_loop-IsInBounds r keys s' (on_key-IsInBounds r k s s' b e))
]

-- Whatever keys are pressed on a report, it stays the one shown, and the selection is one of its
-- findings, or 0.
pub event_loop-new_state :
    (r : Report) (keys : List Key) → IsInBounds r (event_loop keys (new_state r))
event_loop-new_state r keys =
    event_loop-IsInBounds r keys (new_state r) (record { shown = refl; in_bounds = inr refl })

remove_self : (id : Text) (e : List Text) → is_member id (remove id e) ≡ false
unfolding is_member remove
remove_self id [] = refl
remove_self id (x ∷ e) = elim (Bool-cases (equal id x)) [
  | inl h ↦ rw (h, remove) (remove_self id e)
  | inr h ↦ rw (h, remove) (rw (h, is_member) (remove_self id e))
]

remove_other :
    (id id' : Text) (e : List Text)
    → equal id id' ≡ false
    → is_member id (remove id' e) ≡ is_member id e
unfolding is_member remove
remove_other id id' [] d = refl
remove_other id id' (x ∷ e) d = elim (Bool-cases (equal id' x)) [
  | inl h ↦
      let miss = subst (λ y. equal id y ≡ false) ((equal_iff id' x).0 h) d in
      rw (h, remove) (rw (miss, is_member) (remove_other id id' e d))
  | inr h ↦ rw (h, remove) (ap (λ b. if equal id x then true else b) (remove_other id id' e d))
]

-- Enter on a finding expands it or folds it, and no other id.
pub toggle_lem :
    (id id' : Text) (e : List Text)
    → is_member id (toggle id' e) ≡ (if equal id id' then not (is_member id e) else is_member id e)
unfolding toggle is_member
toggle_lem id id' e = elim (Bool-cases (equal id id')) [
  | inl h ↦
      let same = (equal_iff id id').0 h in
      rw h (subst (λ x. is_member id (toggle x e) ≡ not (is_member id e)) same (self id e))
  | inr h ↦ rw h (elim (Bool-cases (is_member id' e)) [
    | inl m ↦ rw m (remove_other id id' e h)
    | inr m ↦ rw m (rw h refl)
  ])
]
  where
    self : (id : Text) (e : List Text) → is_member id (toggle id e) ≡ not (is_member id e)
    self id e = elim (Bool-cases (is_member id e)) [
      | inl m ↦ rw m (remove_self id e)
      | inr m ↦ rw m (rw (equal_refl id) refl)
    ]

abbrev pub IsSafeText : Text → Type 0
IsSafeText t = All IsSafe t

findings_from-IsSafe :
    (s : AppState) (i : ℕ) (fs : List Finding) → All IsSafeText (findings_from s i fs)
unfolding findings_from
findings_from-IsSafe s i [] = tt
findings_from-IsSafe s i (f ∷ fs) =
    All-append IsSafeText (finding_lines s i f) (findings_from s (suc i) fs) here
      (findings_from-IsSafe s (suc i) fs)
  where
    either :
        (b : Bool) (x y : Text)
        → All IsSafeText (if b then sanitize x ∷ sanitize y ∷ [] else sanitize x ∷ [])
    either true x y = (sanitize-IsSafe x, (sanitize-IsSafe y, tt))
    either false x y = (sanitize-IsSafe x, tt)

    here : All IsSafeText (finding_lines s i f)
    here = unfold finding_lines in either (is_member f.id s.expanded) _ _

-- Every line that the viewer draws is safe for a terminal, whatever the report.
pub draw-IsSafe : (s : AppState) → All IsSafeText (draw s)
unfolding draw render_files render_meta
draw-IsSafe s = elim (Option-cases s.report) [
  | inl e ↦ rw (e, draw) tt
  | inr (r, e) ↦
      rw (e, draw)
        (All-append IsSafeText (render_files r) (render_meta r ++ findings_from s 0 r.findings)
          (names r.inputs)
          (
            sanitize-IsSafe _,
            (
              sanitize-IsSafe _,
              (sanitize-IsSafe _, (sanitize-IsSafe _, findings_from-IsSafe s 0 r.findings)),
            ),
          ))
]
  where
    names : (is : List Input) → All IsSafeText (map (λ i. safe_line i.path) is)
    names [] = tt
    names (i ∷ is) = (sanitize-IsSafe i.path, names is)
