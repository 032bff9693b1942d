-- ===== src/Wire/Willing.antt =====
-- The host's writes over a pipe that always takes a byte at least.
use Prim.Native.Nat.{min}
use seck.Base.{
  ℕ, zero, suc, ◌+◌, ◌≤◌, ◌≡◌, ◌≢◌, refl, arith, ◌==◌, if◌then◌else◌, some, List, [], ◌∷◌, ◌++◌,
  length, take, drop, length-drop, Bytes,
}
use seck.Base.Outcome.{Result, ok, err}
use seck.Wire.{magic_trailer, FileEntry}
use seck.Wire.Pipe.{Kernel, Pipe, Write, FdError, ◌>>◌, write_loop, write_to_sandbox_pipe}
use seck.Wire.Writer.{header, framing, write_entries, write_fileset_protocol}

-- Every call takes a byte, if it is given one.
abbrev pub IsWilling : Kernel → Type 0
IsWilling kernel = (c : ℕ) → (m : ℕ) × (kernel c ≡ some (suc m))

record Succeeds (w : Write) : Type 0 where
  at : (p : Pipe) → (w p).0 ≡ ok tt

then-Succeeds :
    (r : Result FdError (Unit {0}) × Pipe) (k : Write)
    → r.0 ≡ ok tt
    → Succeeds k
    → (elim r.0 as (λ _. Result FdError (Unit {0}) × Pipe) [
      | ok _ ↦ k r.1
      | err e ↦ (err e, r.1)
    ]).0
      ≡ ok tt
then-Succeeds (ok u, q) k h hk = hk.at q
then-Succeeds (err e, q) k h hk = cc

Succeeds->> : (m k : Write) → Succeeds m → Succeeds k → Succeeds (m >> k)
Succeeds->> m k hm hk = record { at = λ p. then-Succeeds (m p) k (hm.at p) hk }

goes_on :
    (n : ℕ) (x r : Result FdError (Unit {0}) × Pipe)
    → n ≢ 0
    → r.0 ≡ ok tt
    → (if n == 0 then x else r).0 ≡ ok tt
goes_on n x r h e = ground arith

module _ (kernel : Kernel) (willing : IsWilling kernel) where
  write_loop-Succeeds :
      (fuel expected written : ℕ) (rest : Bytes)
      → length rest ≤ fuel
      → (p : Pipe) → (write_loop kernel fuel expected written rest p).0 ≡ ok tt
  unfolding write_loop
  write_loop-Succeeds fuel expected written [] h p = refl
  write_loop-Succeeds zero expected written (b ∷ rest) h p = absurd (omega arith)
  write_loop-Succeeds (suc fuel) expected written (b ∷ rest) h p =
      let (m, e) = willing p.calls in
      let n : ℕ = min (suc m) (suc (length rest)) in
      rw (e, write_loop)
        (goes_on n _ _ (omega arith) (
          write_loop-Succeeds fuel expected (written + n) (drop n (b ∷ rest))
            (omega (arith, length-drop n (b ∷ rest)))
            (record { calls = p.calls + 1; sent = p.sent ++ take n (b ∷ rest) })))

  sink-Succeeds : (d : Bytes) → Succeeds (write_to_sandbox_pipe kernel d)
  unfolding write_to_sandbox_pipe
  sink-Succeeds d = record { at = write_loop-Succeeds (length d) (length d) 0 d (omega arith) }

  write_entries-Succeeds : (entries : List FileEntry) → Succeeds (write_entries kernel entries)
  unfolding write_entries
  write_entries-Succeeds [] = record { at = λ p. refl }
  write_entries-Succeeds (entry ∷ entries) =
      Succeeds->> _ _ (Succeeds->> _ _ (sink-Succeeds (framing entry)) (sink-Succeeds entry.bytes))
        (write_entries-Succeeds entries)

  -- A pipe that takes a byte at each call takes the whole stream.
  pub write_fileset_protocol-Succeeds :
      (entries : List FileEntry) (p : Pipe) → (write_fileset_protocol kernel entries p).0 ≡ ok tt
  unfolding write_fileset_protocol
  write_fileset_protocol-Succeeds entries =
      let all =
        Succeeds->> _ _
          (Succeeds->> _ _ (sink-Succeeds (header entries)) (write_entries-Succeeds entries))
          (sink-Succeeds magic_trailer) in
      all.at
