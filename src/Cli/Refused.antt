-- ===== src/Cli/Refused.antt =====
-- What the command `analyze` makes of its own report when it is to print it for a terminal.
use seck.Base.{◌≡◌, refl, ◌∙◌, Bool, false, Option, none, some, List, [], map, equal, Bytes, Text}
use seck.Base.Outcome.{Result, ok, err}
use seck.Base.Strings.{codes}
use seck.Wire.{FileEntry, Frame}
use seck.Host.Walker.{Entry}
use seck.Host.Delivery.{received}
use seck.Report.{Report}
use seck.Report.Value.{Value, JsonError, array, items}
use seck.Report.Schema.{report_from}
use seck.Orchestrator.Spawn.{Started}
use seck.Orchestrator.Run.{Child}
use seck.Reader.Analyze.{ReaderReport, report_of, stub_answer}
use seck.Reader.Process.{Codec, library, report_json}
use seck.Reader.Schema.{IsJson, refused-report_of}
use seck.Cli.Analyze.{Machine, Programs, not_a_report, print_terminal, output_of, analyze}
use seck.Cli.EndToEnd.{no_model, reader_child, GoesWell, arguments, analyze-expected}

-- `serde_json::from_value(v)?` without the error's text
abbrev pub report_or_none : Result JsonError Report → Option Report
report_or_none (ok r) = some r
report_or_none (err e) = none

module _ (c : Codec) (j : IsJson c) (os : Text) (profile_hash nonce : Bytes) where
  abbrev pub to_json : ReaderReport (library c) c.encoders → Bytes
  to_json r = c.to_string (report_json c os profile_hash r)

  -- The shipped reader, with the schema of the report; the other programs are not run.
  abbrev pub shipped : Child → Child → (Value → Option Text) → Programs
  shipped bytes priv pretty = record {
    seck_reader = reader_child (library c) c.encoders (array (items [])) nonce to_json;
    bytes_to_ipc = bytes;
    seck_reader_priv = priv;
    Value = Value;
    from_slice = c.from_str;
    to_string_pretty = pretty;
    from_value = λ v. report_or_none (report_from v);
  }

  module _ (m : Machine) (bytes priv : Child) (pretty : Value → Option Text) where
    output_of-refused :
        (output : Text) (fs : List Frame)
        → equal output (codes "json") ≡ false
        → output_of m (shipped bytes priv pretty) output (
            to_json
              (report_of (library c) c.encoders (array (items [])) no_model nonce fs stub_answer))
          ≡ err not_a_report
    unfolding output_of
    output_of-refused output fs n =
        rw (j.from_str-to_string _, n)
          (rw (refused-report_of c j os profile_hash no_model nonce fs, print_terminal) refl)

    -- In approach A, a run of `seck analyze` that goes well and is to print its report in another form
    -- than JSON fails: with the stub, no report is in the schema that the renderer reads.
    pub analyze-refused :
        (p exe sib : Bytes) (walked : List Entry) (fs : List FileEntry) (s : Started)
        (output : Text) (airgap fips : Bool)
        → GoesWell
            (library c)
            c.encoders
            (array (items []))
            nonce
            to_json
            m
            (shipped bytes priv pretty)
            p
            exe
            sib
            walked
            fs
            s
        → equal output (codes "json") ≡ false
        → analyze m (shipped bytes priv pretty) (
            arguments
              (library c)
              c.encoders
              (array (items []))
              nonce
              to_json
              m
              (shipped bytes priv pretty)
              p
              exe
              sib
              walked
              fs
              s
              output
              airgap
              fips)
          ≡ err not_a_report
    analyze-refused p exe sib walked fs s output airgap fips g n =
        analyze-expected (library c) c.encoders (array (items [])) nonce to_json m
          (shipped bytes priv pretty) p exe sib walked fs s output airgap fips g
        ∙ output_of-refused output (map (received m.answers) walked) n
