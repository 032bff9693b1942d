-- ===== src/Cli/EndToEnd.antt =====
-- A whole run of `seck analyze` in approach A, from the walked tree to what is printed.
use seck.Base.{
  ◌≡◌, refl, ◌∙◌, Bool, true, false, some, List, [], ◌++◌, map, equal, All, Bytes, Text,
}
use seck.Base.Outcome.{ok, err}
use seck.Base.Strings.{codes}
use seck.Wire.{FileEntry}
use seck.Wire.Writer.{encode}
use seck.Wire.Willing.{IsWilling}
use seck.Host.Walker.{Entry, default_limits, walk}
use seck.Host.Fileset.{build_fileset}
use seck.Host.Delivery.{IsSteady, received, delivery}
use seck.Orchestrator.Spawn.{Started, start_reader}
use seck.Orchestrator.Run.{Child, run_sandboxed}
use seck.Orchestrator.Delivery.{Carries, run_sandboxed-encode}
use seck.Pipeline.{Library}
use seck.Reader.Prompt.{Encoders}
use seck.Reader.Analyze.{ReaderReport, report_of, real_main, stub_generate, stub_answer}
use seck.Cli.Analyze.{path, AnalyzeArgs, Machine, Programs, output_of, analyze}

-- The environment of the child is cleared, so it sees no `SECK_MODEL_PATH`.
abbrev pub no_model : Bytes
no_model = codes "(none — stub backend)"

module _ (lib : Library) (e : Encoders) (empty : lib.Value) (nonce : Bytes)
    (to_json : ReaderReport lib e → Bytes) where
  -- `seck-reader` as a child: the report is what it writes.
  abbrev pub reader_child : Child
  reader_child = record {
    writes = λ s. elim (real_main lib e empty no_model nonce s) [ ok r ↦ to_json r | err x ↦ [] ];
    succeeds = λ s. elim (real_main lib e empty no_model nonce s) [ ok r ↦ true | err x ↦ false ];
  }

  -- One input for each walked file, in order: the digest, size and type of its first bytes.
  abbrev pub expected : Machine → List Entry → ReaderReport lib e
  expected m walked =
      report_of lib e empty no_model nonce (map (received m.answers) walked) stub_answer

  module _ (m : Machine) (progs : Programs) (p exe sib : Bytes) (walked : List Entry)
      (fs : List FileEntry) (s : Started) where
    pub record GoesWell : Type 1 where
      pub is_reader : progs.seck_reader ≡ reader_child
      pub walks : walk (m.tree p).0 (m.tree p).1 default_limits ≡ ok walked
      pub builds : build_fileset m.answers walked ≡ ok fs
      pub steady : All (IsSteady m.answers) walked
      pub has_exe : m.current_exe ≡ some exe
      pub has_parent : m.parent exe ≡ some sib
      pub has_reader : m.exists (sib ++ codes "/seck-reader") ≡ true
      pub starts : start_reader m.kernel (sib ++ codes "/seck-reader") m.table ≡ ok s
      pub willing : IsWilling m.write
      pub carries : (b : Bytes) → Carries b (m.reads b)

    real_main-delivery :
        GoesWell → real_main lib e empty no_model nonce (encode fs) ≡ ok (expected m walked)
    unfolding real_main stub_generate report_of
    real_main-delivery g =
        rw (delivery (m.tree p).0 (m.tree p).1 m.answers walked fs g.walks g.builds g.steady) refl

    run-delivery :
        GoesWell
        → run_sandboxed m.kernel m.write m.reads m.table
            (sib ++ codes "/seck-reader")
            progs.seck_reader
            fs
          ≡ ok (to_json (expected m walked))
    run-delivery g = rw g.is_reader (
        run_sandboxed-encode m.kernel m.write m.reads m.table (sib ++ codes "/seck-reader")
          reader_child fs s g.starts g.willing g.carries
        ∙ rw (real_main-delivery g, reader_child) refl)

    abbrev pub arguments : Text → Bool → Bool → AnalyzeArgs
    arguments output airgap fips = record {
      source = path p;
      sandbox_mode = codes "a";
      output = output;
      airgap = airgap;
      fips = fips;
    }

    pub analyze-expected :
        (output : Text) (airgap fips : Bool)
        → GoesWell
        → analyze m progs (arguments output airgap fips)
          ≡ output_of m progs output (to_json (expected m walked))
    unfolding analyze equal
    analyze-expected output airgap fips g =
        rw (g.walks, g.builds, g.has_exe, g.has_parent, g.has_reader, run-delivery g) refl
