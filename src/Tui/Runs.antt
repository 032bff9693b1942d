-- ===== src/Tui/Runs.antt =====
-- Keys on a report of one finding, and the theorems of `Tui` at concrete inputs.
use seck.Base.{List, [], ◌∷◌}
use seck.Report.Renderer.Runs.{sample}
use seck.Tui.{new_state, down, up, bottom, enter, event_loop, Key}
use seck.Tui.Laws.{IsInBounds, event_loop-new_state}

abbrev keys : List Key
keys = down ∷ down ∷ enter ∷ bottom ∷ up ∷ []

event_loop-new_state_example : IsInBounds sample (event_loop keys (new_state sample))
event_loop-new_state_example = event_loop-new_state sample keys
