-- ===== src/Windows/Orchestrator.antt =====
-- `run_sandboxed_windows` and `build_cmdline` of crates/seck-host/src/orchestrator_windows.rs.
use seck.Base.{ℕ, ◌+◌, ◌-◌, not, none, some, ◌++◌, if◌then◌else◌, Bytes, Text}
use seck.Base.Outcome.{Result, ok, err}
use seck.Base.Strings.{codes, decimal}
use seck.Windows.{Held, Win32}

pub data OrchError : Type 0 where
  create_file_failed : ℕ → OrchError
  initialize_attribute_list_failed : ℕ → OrchError
  update_attribute_list_failed : ℕ → OrchError
  create_process_failed : ℕ → OrchError

-- The handle is given by its number, on the command line.
unfoldable pub build_cmdline : Text → ℕ → Text
build_cmdline exe handle = codes "\"" ++ (exe ++ (codes "\" analyze --handle=" ++ decimal handle))

abbrev pub close_file : Held → Held
close_file s = record s { files = s.files - 1 }

abbrev pub delete_attribute_list : Held → Held
delete_attribute_list s = record s { attribute_lists = s.attribute_lists - 1 }

module _ (w : Win32) where
  -- From the attribute list on; the result is the number of the child.
  unfoldable pub launch : Text → ℕ → Held → Result OrchError ℕ × Held
  launch seck_exe file_handle s =
      if not w.initialize_attribute_list
      then (err (initialize_attribute_list_failed w.last_error), close_file s)
      else let s' = record s { attribute_lists = s.attribute_lists + 1 } in
        if not w.update_attribute_list
        then (
          err (update_attribute_list_failed w.last_error),
          close_file (delete_attribute_list s'),
        )
        else elim (w.create_process (build_cmdline seck_exe file_handle)) [
          | none ↦ (err (create_process_failed w.last_error), close_file (delete_attribute_list s'))
          | some pid ↦
              let running = record s' { threads = s'.threads + 1; processes = s'.processes + 1 } in
              let t = close_file (delete_attribute_list running) in
              (ok pid, record t { threads = t.threads - 1; processes = t.processes - 1 })
        ]

  unfoldable pub run_sandboxed_windows : Bytes → Text → Held → Result OrchError ℕ × Held
  unfolding launch
  run_sandboxed_windows path seck_exe s = elim (w.create_file path) [
    | none ↦ (err (create_file_failed w.last_error), s)
    | some file_handle ↦ launch seck_exe file_handle (record s { files = s.files + 1 })
  ]
