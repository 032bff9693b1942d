-- ===== src/Cli/EndToEndB.antt =====
-- A whole run of `seck analyze` in approach B, from the walked tree to what is printed.
use seck.Base.{
  ◌≡◌, refl, ◌∙◌, Bool, true, false, some, List, [], ◌++◌, map, equal, All, Bytes, Text,
}
use seck.Base.Outcome.{ok, err}
use seck.Base.Strings.{codes}
use seck.Wire.{FileEntry}
use seck.Wire.Writer.{encode}
use seck.Wire.Willing.{IsWilling}
use seck.Host.Walker.{Entry, default_limits, walk}
use seck.Host.Fileset.{build_fileset}
use seck.Host.Delivery.{IsSteady, received, delivery}
use seck.Orchestrator.Spawn.{Pair, start_pair}
use seck.Orchestrator.Run.{Child, run_sandboxed_mode_b}
use seck.Orchestrator.Delivery.{Carries, run_sandboxed_mode_b-encode}
use seck.Reader.Ipc.{IsDocumented, emit_ipc}
use seck.Reader.Process.{Codec, Process, reader_main}
use seck.Reader.PrivProcess.{PrivReport, priv_report_json, priv_main}
use seck.Reader.Split.{as_bytes_child, reader_main-bytes, split_report, priv_main-messages}
use seck.Cli.Analyze.{path, AnalyzeArgs, Machine, Programs, output_of, analyze, run_in_mode}

module _ (c : Codec) (d : IsDocumented c.message) (bytes_process priv_process : Process) where
  -- The two readers as children of the host.
  abbrev pub bytes_child : Child
  bytes_child = record {
    writes = λ s. elim (reader_main c (as_bytes_child c bytes_process s)).0 [
      | ok w ↦ w.fd7
      | err e ↦ []
    ];
    succeeds = λ s. elim (reader_main c (as_bytes_child c bytes_process s)).0 [
      | ok w ↦ true
      | err e ↦ false
    ];
  }

  abbrev pub priv_child : Child
  priv_child = record {
    writes =
        λ s. elim (priv_main c (record priv_process { fd3 = s })).0 [ ok w ↦ w.fd5 | err e ↦ [] ];
    succeeds =
        λ s. elim (priv_main c (record priv_process { fd3 = s })).0 [ ok w ↦ true | err e ↦ false ];
  }

  module _ (m : Machine) (progs : Programs) (p exe sib nonce : Bytes) (walked : List Entry)
      (fs : List FileEntry) (s : Pair) where
    pub record GoesWell : Type 1 where
      pub is_bytes : progs.bytes_to_ipc ≡ bytes_child
      pub is_priv : progs.seck_reader_priv ≡ priv_child
      pub walks : walk (m.tree p).0 (m.tree p).1 default_limits ≡ ok walked
      pub builds : build_fileset m.answers walked ≡ ok fs
      pub steady : All (IsSteady m.answers) walked
      pub has_exe : m.current_exe ≡ some exe
      pub has_parent : m.parent exe ≡ some sib
      pub has_reader : m.exists (sib ++ codes "/seck-reader") ≡ true
      pub has_reader_priv : m.exists (sib ++ codes "/seck-reader-priv") ≡ true
      pub starts :
          start_pair m.kernel
            (sib ++ codes "/seck-reader")
            (sib ++ codes "/seck-reader-priv")
            m.table
          ≡ ok s
      pub willing : IsWilling m.write
      pub carries : (b : Bytes) → Carries b (m.reads b)
      pub has_nonce : bytes_process.random_nonce ≡ some nonce
      pub writes7 : (b : Bytes) → bytes_process.write7 b ≡ true
      pub writes5 : (b : Bytes) → priv_process.write5 b ≡ true

    abbrev pub expected : PrivReport
    expected = split_report c d priv_process nonce (map (received m.answers) walked)

    abbrev pub expected_json : Text
    expected_json =
        c.to_string (priv_report_json c priv_process.os priv_process.bundled_profile_hash expected)

    bytes_child-delivery :
        GoesWell
        → (reader_main c (as_bytes_child c bytes_process (encode fs))).0
          ≡ ok (record {
            fd5 = [];
            fd7 = emit_ipc c.message c.encoders nonce (map (received m.answers) walked);
          })
    bytes_child-delivery g =
        reader_main-bytes c bytes_process (encode fs) nonce [] (map (received m.answers) walked)
          (delivery (m.tree p).0 (m.tree p).1 m.answers walked fs g.walks g.builds g.steady)
          g.has_nonce g.writes7

    run-delivery :
        GoesWell
        → run_sandboxed_mode_b m.kernel m.write m.reads m.table
            (sib ++ codes "/seck-reader")
            (sib ++ codes "/seck-reader-priv")
            progs.bytes_to_ipc
            progs.seck_reader_priv
            fs
          ≡ ok expected_json
    run-delivery g =
        rw (g.is_bytes, g.is_priv)
          (run_sandboxed_mode_b-encode m.kernel m.write m.reads m.table
              (sib ++ codes "/seck-reader") (sib ++ codes "/seck-reader-priv") bytes_child
              priv_child fs s g.starts g.willing g.carries
            ∙ rw (bytes_child-delivery g, bytes_child, priv_child)
                (rw
                  (
                    priv_main-messages c d priv_process nonce (map (received m.answers) walked)
                        g.writes5,
                    priv_child,
                  )
                  refl))

    abbrev pub arguments : Text → Bool → Bool → AnalyzeArgs
    arguments output airgap fips = record {
      source = path p;
      sandbox_mode = codes "b";
      output = output;
      airgap = airgap;
      fips = fips;
    }

    pub analyze-expected_split :
        (output : Text) (airgap fips : Bool)
        → GoesWell
        → analyze m progs (arguments output airgap fips) ≡ output_of m progs output expected_json
    unfolding analyze run_in_mode equal
    analyze-expected_split output airgap fips g =
        rw
          (
            g.walks,
            g.builds,
            g.has_exe,
            g.has_parent,
            g.has_reader,
            g.has_reader_priv,
            run-delivery g,
          )
          refl
