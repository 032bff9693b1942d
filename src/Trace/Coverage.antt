-- ===== src/Trace/Coverage.antt =====
-- What the parser and the checker catch together, on lines as `strace` prints them.
use seck.Base.{
  zero, ◌≡◌, ◌≢◌, refl, sym, subst, ap, ◌∙◌, false, some, List, [], ◌∷◌, ◌++◌, ◌==◌, Option-cases,
  inl, inr, append_assoc, Bytes, Text, All, All-append_right,
}
use seck.Base.Outcome.{ok}
use seck.Base.Strings.{codes, strip_prefix, trim_start}
use seck.Base.Utf8.{as_bytes}
use seck.Trace.{Effect, open_p, exec_p}
use seck.Trace.Parse.{
  scan_quotes, outside, inside, nth_quoted_string, parse_open, parse_exec, parse_line, filter_lines,
}
use seck.Trace.Checker.{check_trace}
use seck.Trace.Checker.Occurs.{Occurs}
use seck.Trace.Checker.Sound.{Untainted, check_trace_iff}

-- No quote and no backslash, so that `strace` prints the string as it is.
abbrev pub IsPlain : Text → Type 0
IsPlain s = All (λ c. ((c == b'"') ≡ false) × ((c == b'\\') ≡ false)) s

-- `strace` prints a call `name(first, "path"rest`; `first` holds no quote.
abbrev pub path_line : Text → Text → Text → Text → Text
path_line name first path rest = name ++ (first ++ (b'"' ∷ (path ++ (b'"' ∷ rest))))

scan_inside :
    (found path rest : Text)
    → IsPlain path
    → scan_quotes inside zero found (path ++ (b'"' ∷ rest)) ≡ some (found ++ path)
unfolding scan_quotes
scan_inside found [] rest plain = ap some (sym (append_nil found))
  where
    append_nil : (s : Text) → s ++ [] ≡ s
    append_nil [] = refl
    append_nil (c ∷ s) = ap (◌∷◌ c) (append_nil s)
scan_inside found (c ∷ path) rest plain =
    rw (plain.0.1, plain.0.0, scan_quotes)
      (scan_inside (found ++ c ∷ []) path rest plain.1 ∙ ap some (append_assoc found (c ∷ []) path))

scan_outside :
    (first path rest : Text)
    → IsPlain first
    → IsPlain path
    → scan_quotes outside zero [] (first ++ (b'"' ∷ (path ++ (b'"' ∷ rest)))) ≡ some path
unfolding scan_quotes
scan_outside [] path rest clear plain = scan_inside [] path rest plain
scan_outside (c ∷ first) path rest clear plain =
    rw (clear.0.0, scan_quotes) (scan_outside first path rest clear.1 plain)

parse_line-openat :
    (first path rest : Text)
    → IsPlain first
    → IsPlain path
    → parse_line (path_line (codes "openat(") first path rest) ≡ some (open_p (as_bytes path))
unfolding parse_line parse_open nth_quoted_string strip_prefix as_bytes trim_start
parse_line-openat first path rest clear plain = rw (scan_outside first path rest clear plain) refl

parse_line-execve :
    (first path rest : Text)
    → IsPlain first
    → IsPlain path
    → parse_line (path_line (codes "execve(") first path rest) ≡ some (exec_p (as_bytes path) [] [])
unfolding parse_line parse_exec nth_quoted_string strip_prefix as_bytes trim_start
parse_line-execve first path rest clear plain = rw (scan_outside first path rest clear plain) refl

filter_lines-append :
    (ls ms : List Text) → filter_lines (ls ++ ms) ≡ filter_lines ls ++ filter_lines ms
unfolding filter_lines
filter_lines-append [] ms = refl
filter_lines-append (l ∷ ls) ms = elim (Option-cases (parse_line l)) [
  | inl e ↦ rw (e, filter_lines) (filter_lines-append ls ms)
  | inr (a, e) ↦ rw (e, filter_lines) (ap (◌∷◌ a) (filter_lines-append ls ms))
]

filter_lines-hit :
    (l : Text) (ls : List Text) (e : Effect)
    → parse_line l ≡ some e
    → filter_lines (l ∷ ls) ≡ e ∷ filter_lines ls
unfolding filter_lines
filter_lines-hit l ls e h = rw (h, filter_lines) refl

-- Wherever in a capture an `openat` of a plain path stands, and whatever stands around it: if the
-- canary occurs in the path, the checker refuses the capture.
pub tainted_openat_caught :
    (canary : Bytes) (before after : List Text) (first path rest : Text)
    → IsPlain first
    → IsPlain path
    → Occurs canary (as_bytes path)
    → check_trace canary
        (filter_lines (before ++ (path_line (codes "openat(") first path rest ∷ after)))
      ≢ ok tt
tainted_openat_caught canary before after first path rest clear plain o h =
    let line = path_line (codes "openat(") first path rest in
    let split =
      filter_lines-append before (line ∷ after)
      ∙ ap (λ es. filter_lines before ++ es)
          (filter_lines-hit line after _ (parse_line-openat first path rest clear plain)) in
    let respects =
      (check_trace_iff canary _).0 (subst (λ es. check_trace canary es ≡ ok tt) split h) in
    (All-append_right _ (filter_lines before) _ respects).0 o

-- The arguments and the environment of an `execve` are never read: a call of a plain path that does
-- not hold the canary passes the check, whatever stands in the rest of the line.
pub execve_rest_unseen :
    (canary : Bytes) (first path rest : Text)
    → IsPlain first
    → IsPlain path
    → Untainted canary (as_bytes path)
    → check_trace canary (filter_lines (path_line (codes "execve(") first path rest ∷ [])) ≡ ok tt
unfolding filter_lines
execve_rest_unseen canary first path rest clear plain n =
    let hit = filter_lines-hit _ [] _ (parse_line-execve first path rest clear plain) in
    subst (λ es. check_trace canary es ≡ ok tt) (sym hit)
      ((check_trace_iff canary _).1 ((n, tt, tt), tt))
