-- ===== src/Trace/Runs.antt =====
-- The source's own test lines, and the theorems of `Trace` at concrete inputs.
use seck.Base.{◌≡◌, ◌↔◌, refl, true, false, none, some, List, [], ◌∷◌, Bytes, Text, All}
use seck.Base.Outcome.{ok}
use seck.Base.Int.{pos}
use seck.Base.Strings.{
  codes, strip_prefix, trim_start, after_first, before_first, first_part, parse_digits, trim,
}
use seck.Base.Utf8.{as_bytes}
use seck.Trace.{Effect, open_p, write_f, net_conn}
use seck.Trace.Parse.{
  parse_line, parse_open, parse_write, parse_connect, first_token_int, parse_u16, nth_quoted_string,
}
use seck.Trace.Checker.{contains_subsequence, check_trace}
use seck.Trace.Checker.Occurs.{Occurs, contains_subsequence_iff}
use seck.Trace.Checker.Sound.{Respects, check_trace_iff}

abbrev openat_line : Text
openat_line = codes "[pid 1234] openat(AT_FDCWD, \"/x\", O_RDONLY) = 3"

parses_openat : parse_line openat_line ≡ some (open_p (codes "/x"))
unfolding parse_line strip_prefix trim_start after_first parse_open nth_quoted_string as_bytes
parses_openat = refl

parses_write :
    parse_line (codes "write(3, \"hello\", 5) = 5") ≡ some (write_f (pos 3) (codes "hello"))
unfolding parse_line strip_prefix trim_start parse_write first_token_int trim first_part
    parse_digits nth_quoted_string as_bytes
parses_write = refl

abbrev connect_line : Text
connect_line = codes "connect(7, {sin_addr=inet_addr(\"1.2.3.4\"), sin_port=htons(80)}, 16) = 0"

parses_connect : parse_line connect_line ≡ some (net_conn (codes "1.2.3.4") 80)
unfolding parse_line strip_prefix trim_start parse_connect after_first before_first parse_u16
    parse_digits
parses_connect = refl

-- A connection over IPv6 is not an effect.
misses_inet6 :
    parse_line (codes "connect(7, {sin6_port=htons(80), inet_pton(AF_INET6, \"::1\")}, 28) = 0")
    ≡ none
unfolding parse_line strip_prefix trim_start parse_connect after_first
misses_inet6 = refl

abbrev secret : Bytes
secret = codes "KEY"

abbrev effects : List Effect
effects = open_p (codes "/etc") ∷ write_f (pos 3) (codes "aKEYb") ∷ []

check_trace_iff_example : (check_trace secret effects ≡ ok tt) ↔ All (Respects secret) effects
check_trace_iff_example = check_trace_iff secret effects

secret-Occurs : Occurs secret (as_bytes (codes "/tmp/KEY"))
unfolding as_bytes
secret-Occurs = record { before = codes "/tmp/"; after = []; splits = refl; some_byte = λ e. cc }

not_in_sh : Occurs secret (as_bytes (codes "sh")) → ⊥
unfolding as_bytes contains_subsequence
not_in_sh o = absurd (false_true ((contains_subsequence_iff (codes "sh") secret).1 o))
  where
    false_true : false ≡ true → ⊥
    false_true e = cc
