-- ===== src/Trace/Parse.antt =====
-- `parse_strace` of crates/seck-trace-check/src/strace_parse.rs. Text is walked by character, which
-- finds the same places as the byte indices of the source: every mark looked for is ASCII, and so
-- is the character behind each slice.
use seck.Base.{
  ℕ, zero, suc, ◌-◌, ◌^◌, true, false, Option, none, some, List, [], ◌∷◌, ◌++◌, leb, ◌==◌,
  if◌then◌else◌, Text,
}
use seck.Base.Int.{ℤ, pos, negsuc}
use seck.Base.Strings.{
  codes, strip_prefix, trim_start, trim, after_first, before_first, first_part, parse_digits, lines,
}
use seck.Base.Utf8.{as_bytes}
use seck.Trace.{Effect, open_p, exec_p, read_f, write_f, net_conn}

-- Chains of `?` on options.
module _ {ℓ κ} {A : Type ℓ} {B : Type κ} where
  infixl 5 ◌>>=◌
  abbrev pub ◌>>=◌ : Option A → (A → Option B) → Option B
  none >>= f = none
  some a >>= f = f a

-- Strip `[pid 1234]` prefix and any leading whitespace.
unfoldable pub strip_pid_prefix : Text → Text
strip_pid_prefix line =
    let trimmed = trim_start line in
    elim (strip_prefix (codes "[") trimmed) [
      | some rest ↦ elim (after_first (codes "]") rest) [ some s ↦ trim_start s | none ↦ trimmed ]
      | none ↦ trimmed
    ]

-- `-n`
abbrev negate : ℕ → ℤ
negate zero = pos zero
negate (suc n) = negsuc n

abbrev at_most : ℕ → ℕ → Option ℕ
at_most limit n = if leb n limit then some n else none

-- `parse::<i32>().ok()`
unfoldable pub parse_i32 : Text → Option ℤ
parse_i32 s = elim (strip_prefix (codes "-") s) [
  | some t ↦ (do n ← parse_digits t; n ← at_most (2 ^ 31) n; some (negate n))
  | none ↦ elim (strip_prefix (codes "+") s) [
    | some t ↦ (do n ← parse_digits t; n ← at_most (2 ^ 31 - 1) n; some (pos n))
    | none ↦ (do n ← parse_digits s; n ← at_most (2 ^ 31 - 1) n; some (pos n))
  ]
]

-- `parse::<u16>().ok()`
unfoldable pub parse_u16 : Text → Option ℕ
parse_u16 s = elim (strip_prefix (codes "+") s) [
  | some t ↦ (do n ← parse_digits t; at_most (2 ^ 16 - 1) n)
  | none ↦ (do n ← parse_digits s; at_most (2 ^ 16 - 1) n)
]

unfoldable pub first_token_int : Text → Option ℤ
unfolding parse_i32
first_token_int args = parse_i32 (trim (first_part b',' args))

-- Outside a quoted string, inside one, and behind a backslash in one.
pub data Quoting : Type 0 where
  outside inside escaped : Quoting

-- `n` is the number of strings to skip, and `found` the string read so far.
unfoldable pub scan_quotes : Quoting → ℕ → Text → Text → Option Text
scan_quotes q n found [] = none
scan_quotes outside n found (c ∷ s) = elim (c == b'"') [
  | true ↦ scan_quotes inside n [] s
  | false ↦ scan_quotes outside n found s
]
scan_quotes inside zero found (c ∷ s) = elim (c == b'\\') [
  | true ↦ scan_quotes escaped zero (found ++ c ∷ []) s
  | false ↦ elim (c == b'"') [
    | true ↦ some found
    | false ↦ scan_quotes inside zero (found ++ c ∷ []) s
  ]
]
scan_quotes inside (suc n) found (c ∷ s) = elim (c == b'\\') [
  | true ↦ scan_quotes escaped (suc n) (found ++ c ∷ []) s
  | false ↦ elim (c == b'"') [
    | true ↦ scan_quotes outside n [] s
    | false ↦ scan_quotes inside (suc n) (found ++ c ∷ []) s
  ]
]
scan_quotes escaped n found (c ∷ s) = scan_quotes inside n (found ++ c ∷ []) s

unfoldable pub nth_quoted_string : Text → ℕ → Option Text
unfolding scan_quotes
nth_quoted_string args n = scan_quotes outside n [] args

unfoldable pub parse_open : Text → Option Effect
parse_open args = do path ← nth_quoted_string args 0; some (open_p (as_bytes path))

unfoldable pub parse_exec : Text → Option Effect
parse_exec args = do path ← nth_quoted_string args 0; some (exec_p (as_bytes path) [] [])

unfoldable pub parse_write : Text → Option Effect
parse_write args = do
  fd ← first_token_int args
  bytes_str ← nth_quoted_string args 0
  some (write_f fd (as_bytes bytes_str))

unfoldable pub parse_read : Text → Option Effect
parse_read args = do fd ← first_token_int args; some (read_f fd)

unfoldable pub parse_connect : Text → Option Effect
parse_connect args = do
  s ← after_first (codes "inet_addr(\"") args
  host ← before_first b'"' s
  t ← after_first (codes "htons(") args
  digits ← before_first b')' t
  port ← parse_u16 digits
  some (net_conn host port)

-- The calls of interest, in the order in which the source tries them.
abbrev pub syscalls : List (Text × (Text → Option Effect))
syscalls =
    (codes "openat(", parse_open)
    ∷ (codes "openat2(", parse_open)
    ∷ (codes "execve(", parse_exec)
    ∷ (codes "execveat(", parse_exec)
    ∷ (codes "write(", parse_write)
    ∷ (codes "read(", parse_read)
    ∷ (codes "connect(", parse_connect)
    ∷ []

-- The ladder of `if let Some(args) = body.strip_prefix(…)`, each of which returns.
unfoldable pub first_call : List (Text × (Text → Option Effect)) → Text → Option Effect
first_call [] body = none
first_call ((name, parse) ∷ calls) body = elim (strip_prefix name body) [
  | some args ↦ parse args
  | none ↦ first_call calls body
]

unfoldable pub parse_line : Text → Option Effect
unfolding strip_pid_prefix first_call
parse_line line = first_call syscalls (strip_pid_prefix line)

unfoldable pub filter_lines : List Text → List Effect
filter_lines [] = []
filter_lines (l ∷ ls) = elim (parse_line l) [
  | none ↦ filter_lines ls
  | some e ↦ e ∷ filter_lines ls
]

unfoldable pub parse_strace : Text → List Effect
unfolding filter_lines
parse_strace input = filter_lines (lines input)
