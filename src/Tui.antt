-- ===== src/Tui.antt =====
-- crates/seck-tui/src/lib.rs: the terminal viewer of a report, its state, its keys and its lines.
-- The terminal, the layout and the drawing of borders are not modelled.
pub mod Laws
mod Runs
use seck.Base.{
  ℕ, zero, suc, ◌+◌, ◌-◌, Bool, true, false, Option, none, some, List, [], ◌∷◌, ◌++◌, ltb, ◌==◌,
  if◌then◌else◌, length, map, equal, Text,
}
use seck.Base.Strings.{codes}
use seck.Report.{Report, Finding}
use seck.Report.Sanitize.{sanitize}

-- The set of expanded ids is a list that holds each at most once.
pub record AppState : Type 0 where
  pub report : Option Report
  pub selected : ℕ
  pub expanded : List Text

-- `AppState::new`
abbrev pub new_state : Report → AppState
new_state report = record { report = some report; selected = 0; expanded = [] }

unfoldable pub is_member : Text → List Text → Bool
is_member id [] = false
is_member id (x ∷ xs) = if equal id x then true else is_member id xs

unfoldable pub remove : Text → List Text → List Text
remove id [] = []
remove id (x ∷ xs) = let rest = remove id xs in if equal id x then rest else x ∷ rest

-- The keys that the loop tells apart.
pub data Key : Type 0 where
  quit : Key
  down : Key
  up : Key
  top : Key
  bottom : Key
  enter : Key
  other : Key

unfoldable pub nth_finding : ℕ → List Finding → Option Finding
nth_finding n [] = none
nth_finding zero (f ∷ fs) = some f
nth_finding (suc n) (f ∷ fs) = nth_finding n fs

unfoldable pub toggle : Text → List Text → List Text
unfolding is_member remove
toggle id expanded = if is_member id expanded then remove id expanded else id ∷ expanded

-- The body of the event loop: `none` ends it.
unfoldable pub on_key : Key → AppState → Option AppState
unfolding nth_finding toggle
on_key quit state = none
on_key down state = elim state.report [
  | none ↦ some state
  | some r ↦
      if ltb (state.selected + 1) (length r.findings)
      then some (record state { selected = state.selected + 1 })
      else some state
]
on_key up state = some (record state { selected = state.selected - 1 })
on_key top state = some (record state { selected = 0 })
on_key bottom state = elim state.report [
  | none ↦ some state
  | some r ↦ some (record state { selected = length r.findings - 1 })
]
on_key enter state = elim state.report [
  | none ↦ some state
  | some r ↦ elim (nth_finding state.selected r.findings) [
    | none ↦ some state
    | some f ↦ some (record state { expanded = toggle f.id state.expanded })
  ]
]
on_key other state = some state

-- The state in which the loop stands after the keys, or ended.
unfoldable pub event_loop : List Key → AppState → AppState
event_loop [] state = state
event_loop (k ∷ keys) state = elim (on_key k state) [
  | none ↦ state
  | some state' ↦ event_loop keys state'
]

abbrev pub safe_line : Text → Text
safe_line s = sanitize s

unfoldable pub render_files : Report → List Text
render_files r = map (λ i. safe_line i.path) r.inputs

abbrev bool_text : Bool → Text
bool_text true = codes "true"
bool_text false = codes "false"

unfoldable pub render_meta : Report → List Text
render_meta r =
    safe_line (codes "sandbox: " ++ r.invocation.sandbox_mode)
    ∷ safe_line (codes "backend: " ++ r.invocation.backend)
    ∷ safe_line (codes "temp: " ++ r.invocation.temperature)
    ∷ safe_line (codes "deterministic: " ++ bool_text r.invocation.deterministic)
    ∷ []

-- The line of a finding, and the one below it if it is expanded; `i` is its index.
unfoldable pub finding_lines : AppState → ℕ → Finding → List Text
unfolding is_member
finding_lines s i f =
    let prefix = if i == s.selected then codes "▶" else codes " " in
    let line = safe_line (prefix ++ codes " [" ++ f.id ++ codes "] " ++ f.summary) in
    let below = safe_line (
      codes "    " ++ f.category ++ codes "/" ++ f.confidence ++ codes " — " ++ f.evidence_quote) in
    if is_member f.id s.expanded then line ∷ below ∷ [] else line ∷ []

unfoldable pub findings_from : AppState → ℕ → List Finding → List Text
unfolding finding_lines
findings_from s i [] = []
findings_from s i (f ∷ fs) = finding_lines s i f ++ findings_from s (suc i) fs

-- The lines of the three panes.
unfoldable pub draw : AppState → List Text
unfolding render_files render_meta findings_from
draw s = elim s.report [
  | none ↦ []
  | some r ↦ render_files r ++ (render_meta r ++ findings_from s 0 r.findings)
]
