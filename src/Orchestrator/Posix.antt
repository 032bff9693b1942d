-- ===== src/Orchestrator/Posix.antt =====
-- A kernel that gives the lowest free descriptor, as POSIX asks for, and the table of a process
-- with its standard descriptors only.
use seck.Base.{
  ℕ, zero, suc, ◌<◌, ◌≤◌, ◌≡◌, ◌≢◌, refl, arith, true, ltb, if◌then◌else◌, Option, none, some,
  Option-cases, inl, inr, [], ◌∷◌, append-nil, Bytes,
}
use seck.Base.Outcome.{ok}
use seck.Wire.Pipe
use seck.Wire.Willing.{IsWilling}
use seck.Host.Fileset.{Answers, content}
use seck.Orchestrator.Descriptors.{
  read_end, write_end, other, inherited, Table, set, kept, duplicated, Kernel, close,
}
use seck.Orchestrator.Spawn.{
  stdin_pipe, report_pipe, ipc_pipe, Started, start_reader, Pair, start_pair,
}
use seck.Orchestrator.Pipes.{HasStdio}
use seck.Orchestrator.Delivery.{Carries}

-- The lowest free number from `i` on, among `fuel` numbers.
unfoldable pub search_free : Table → ℕ → ℕ → Option ℕ
search_free t zero i = none
search_free t (suc fuel) i = elim (t i) [ none ↦ some i | some o ↦ search_free t fuel (suc i) ]

pub search_free_is_free : (t : Table) (fuel i n : ℕ) → search_free t fuel i ≡ some n → t n ≡ none
unfolding search_free
search_free_is_free t zero i n h = cc
search_free_is_free t (suc fuel) i n h = elim (Option-cases (t i)) [
  | inl e ↦ let h' = rw (e, search_free) at h in cc
  | inr (o, e) ↦ search_free_is_free t fuel (suc i) n (rw (e, search_free) at h)
]

pub search_free_is_least :
    (t : Table) (fuel i n : ℕ)
    → search_free t fuel i ≡ some n
    → (m : ℕ) → i ≤ m
    → m < n
    → t m ≢ none
unfolding search_free
search_free_is_least t zero i n h m a b = cc
search_free_is_least t (suc fuel) i n h m a b = elim (Option-cases (t i)) [
  | inl e ↦ let h' = rw (e, search_free) at h in absurd (ground (arith, h'))
  | inr (o, e) ↦
      ground (arith, search_free_is_least t fuel (suc i) n (rw (e, search_free) at h) m, e)
]

-- Sixteen descriptors for each process.
abbrev pub lowest : Table → Option ℕ
lowest t = search_free t 16 0

abbrev pub posix : Kernel
posix = record {
  lowest = lowest;
  lowest_free = λ t n h. search_free_is_free t 16 0 n h;
  lowest_least = λ t n h m. search_free_is_least t 16 0 n h m (omega arith);
  can_exec = λ b. true;
}

-- Only standard input, output and error are open.
abbrev pub fresh : Table
fresh n = if ltb n 3 then some (inherited other) else none

pub fresh-HasStdio : HasStdio fresh
fresh-HasStdio n h = ground arith

-- The two pipes take the numbers from 3 to 6.
abbrev piped : Table
piped =
    set
      (set
        (set (set fresh 3 (some (inherited (read_end stdin_pipe)))) 4
          (some (inherited (write_end stdin_pipe))))
        5 (some (inherited (read_end report_pipe))))
      6 (some (inherited (write_end report_pipe)))

abbrev pub one_reader : Started
one_reader = record {
  host = close 6 (close 3 piped);
  reader = λ n. kept (
      duplicated 6 5 (inherited (write_end report_pipe))
        (duplicated 3 3 (inherited (read_end stdin_pipe)) piped) n);
  stdin_w = 4;
  report_r = 5;
}

pub start_reader-fresh : (binary : Bytes) → start_reader posix binary fresh ≡ ok one_reader
unfolding start_reader search_free
start_reader-fresh binary = refl

-- The three pipes take the numbers from 3 to 8.
abbrev thrice : Table
thrice =
    set
      (set
        (set
          (set
            (set (set fresh 3 (some (inherited (read_end stdin_pipe)))) 4
              (some (inherited (write_end stdin_pipe))))
            5 (some (inherited (read_end ipc_pipe))))
          6 (some (inherited (write_end ipc_pipe))))
        7 (some (inherited (read_end report_pipe))))
      8 (some (inherited (write_end report_pipe)))

abbrev pub two_readers : Pair
two_readers = record {
  host = close 8 (close 6 (close 5 (close 3 thrice)));
  bytes = λ n. kept (
      duplicated 6 7 (inherited (write_end ipc_pipe))
        (duplicated 3 3 (inherited (read_end stdin_pipe)) thrice) n);
  priv = λ n. kept (
      duplicated 8 5 (inherited (write_end report_pipe))
        (duplicated 5 3 (inherited (read_end ipc_pipe)) thrice) n);
  host_to_bytes_r = 3;
  host_to_bytes_w = 4;
  bytes_to_priv_w = 6;
  priv_to_host_r = 7;
}

pub start_pair-fresh :
    (bytes_binary priv_binary : Bytes)
    → start_pair posix bytes_binary priv_binary fresh ≡ ok two_readers
unfolding start_pair search_free
start_pair-fresh bytes_binary priv_binary = refl

-- A pipe whose bytes come in one piece, and one that takes five bytes at most.
abbrev pub at_once : Bytes → Answers
at_once b = some b ∷ []

pub at_once-Carries : (b : Bytes) → Carries b (at_once b)
unfolding content
at_once-Carries [] = record { no_error = (λ e. cc, tt); content_is = refl }
at_once-Carries (x ∷ b) = record {
  no_error = (λ e. cc, tt);
  content_is = ground (arith, append-nil (x ∷ b));
}

abbrev pub five_bytes : Pipe.Kernel
five_bytes c = some 5

pub five_bytes-IsWilling : IsWilling five_bytes
five_bytes-IsWilling c = (4, refl)
