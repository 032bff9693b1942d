-- ===== src/Cli/Printed.antt =====
-- What `seck analyze` prints as JSON in both approaches, file by file.
use seck.Base.{
  Option, ◌≡◌, refl, ap, ◌∙◌, Bool, some, List, [], ◌∷◌, ◌++◌, map, if◌then◌else◌, take, length,
  equal, Bytes, Text,
}
use seck.Base.Outcome.{ok}
use seck.Base.Strings.{codes}
use seck.Base.Utf8.{is_utf8, to_string_lossy}
use seck.Wire.{FileEntry}
use seck.Host.Walker.{Entry}
use seck.Host.Fileset.{content}
use seck.Host.Delivery.{received}
use seck.Report.Value.{Value, str, number, unsigned, array, object, items, fields, lookup, get}
use seck.Report.Schema.{report_from}
use seck.Orchestrator.Spawn.{Started, Pair}
use seck.Orchestrator.Run.{Child}
use seck.Reader.Analyze.{input_of, report_of}
use seck.Reader.Ipc.{IsDocumented}
use seck.Reader.Handover.{priv_input_of}
use seck.Reader.Process.{Codec, Process, library, input_json, report_json}
use seck.Reader.PrivProcess.{priv_input_json, priv_report_json}
use seck.Reader.Split.{split_report-inputs}
use seck.Reader.Schema.{IsJson}
use seck.Cli.Analyze.{AnalyzeArgs, Machine, Programs, output_of, print_json, analyze}
use seck.Cli.EndToEnd as A
use seck.Cli.EndToEndB as B
use seck.Cli.Refused.{report_or_none, to_json, shipped}

module _ (c : Codec) (m : Machine) where
  -- What the report is to say of a file in approach A: its path, the digest and the size of its content,
  -- and whether this is text.
  abbrev pub listed : Text → Bytes → Value
  listed path content = object (
      fields (
        (codes "path", str path)
        ∷ (codes "sha3_256", str (c.encoders.hex_encode (c.sha3_256 content)))
        ∷ (codes "size", number (unsigned (length content)))
        ∷ (codes "type", str (if is_utf8 content then codes "text" else codes "binary"))
        ∷ []))

  -- In approach B the digest is of the base64 form, and the type is always the same.
  abbrev pub listed_split : Text → Bytes → Value
  listed_split path content = object (
      fields (
        (codes "path", str path)
        ∷ (
          codes "sha3_256_of_base64",
          str (c.encoders.hex_encode (c.sha3_256 (c.encoders.base64_encode content))),
        )
        ∷ (codes "size", number (unsigned (length content)))
        ∷ (codes "type", str (codes "ipc-structured"))
        ∷ []))

  -- Each walked file by its path as UTF-8 and its first `size` bytes.
  abbrev pub each : (Text → Bytes → Value) → List Entry → List Value
  each say walked =
      map (λ e. say (to_string_lossy e.relative) (take e.size (content (m.answers e.fd)))) walked

  inputs-each :
      (walked : List Entry)
      → map input_json (map (input_of (library c) c.encoders) (map (received m.answers) walked))
        ≡ each listed walked
  inputs-each [] = refl
  inputs-each (e ∷ walked) =
      ap (◌∷◌ (input_json (input_of (library c) c.encoders (received m.answers e))))
        (inputs-each walked)

  priv_inputs-each :
      (walked : List Entry)
      → map priv_input_json
          (map (priv_input_of c.encoders c.sha3_256) (map (received m.answers) walked))
        ≡ each listed_split walked
  priv_inputs-each [] = refl
  priv_inputs-each (e ∷ walked) =
      ap (◌∷◌ (priv_input_json (priv_input_of c.encoders c.sha3_256 (received m.answers e))))
        (priv_inputs-each walked)

-- Values that are printed on several lines, always.
abbrev pub always : (Value → Text) → Value → Option Text
always pretty v = some (pretty v)

module _ (c : Codec) (j : IsJson c) (m : Machine) (pretty : Value → Text) (p exe sib nonce : Bytes)
    (walked : List Entry) (fs : List FileEntry) where
  module _ (os : Text) (profile_hash : Bytes) (bytes priv : Child) (s : Started) where
    abbrev pub programs_a : Programs
    programs_a = shipped c j os profile_hash nonce bytes priv (always pretty)

    abbrev pub GoesWellA : Type 1
    GoesWellA =
        A.GoesWell (library c) c.encoders (array (items [])) nonce
          (to_json c j os profile_hash nonce) m programs_a p exe sib walked fs s

    abbrev pub arguments_a : Bool → Bool → AnalyzeArgs
    arguments_a airgap fips =
        A.arguments (library c) c.encoders (array (items [])) nonce
          (to_json c j os profile_hash nonce) m programs_a p exe sib walked fs s (codes "json")
          airgap fips

    -- If the walk, the reading, the start and the pipes go well, no walked file has shrunk, no path is
    -- too long and JSON works as documented, `seck analyze` on a path, in approach A, prints a JSON
    -- report that lists every walked file, in order: its path as UTF-8, and the digest, the size and the
    -- type, text or binary, of its first `size` bytes.
    pub analyze-lists :
        (airgap fips : Bool)
        → GoesWellA
        → (v : Value) × (analyze m programs_a (arguments_a airgap fips)
            ≡ ok (pretty v ++ b'\n' ∷ []))
          × (get (codes "inputs") v ≡ some (array (items (each c m (listed c m) walked))))
    unfolding output_of print_json get lookup equal report_json report_of
    analyze-lists airgap fips g =
        let r =
          A.expected (library c) c.encoders (array (items [])) nonce
            (to_json c j os profile_hash nonce) m walked in
        (
          report_json c os profile_hash r,
          A.analyze-expected (library c) c.encoders (array (items [])) nonce
                (to_json c j os profile_hash nonce) m programs_a p exe sib walked fs s
                (codes "json") airgap fips g
              ∙ rw (j.from_str-to_string (report_json c os profile_hash r), output_of) refl,
          ap (λ vs. some (array (items vs))) (inputs-each c m walked),
        )

  module _ (d : IsDocumented c.message) (bytes_process priv_process : Process) (reader : Child)
      (s : Pair) where
    abbrev pub programs_b : Programs
    programs_b = record {
      seck_reader = reader;
      bytes_to_ipc = B.bytes_child c d bytes_process priv_process;
      seck_reader_priv = B.priv_child c d bytes_process priv_process;
      Value = Value;
      from_slice = c.from_str;
      to_string_pretty = always pretty;
      from_value = λ v. report_or_none (report_from v);
    }

    abbrev pub GoesWellB : Type 1
    GoesWellB = B.GoesWell c d bytes_process priv_process m programs_b p exe sib nonce walked fs s

    abbrev pub arguments_b : Bool → Bool → AnalyzeArgs
    arguments_b airgap fips =
        B.arguments c d bytes_process priv_process m programs_b p exe sib nonce walked fs s
          (codes "json") airgap fips

    -- If the walk, the reading, the start and the pipes go well, no walked file has shrunk, no path is
    -- too long and JSON works as documented, `seck analyze` on a path, in approach B, prints a JSON
    -- report that lists every walked file, in order: its path as UTF-8, the digest of the base64 form
    -- and the size of its first `size` bytes, and the type ipc-structured.
    pub analyze-lists_split :
        (airgap fips : Bool)
        → GoesWellB
        → (v : Value) × (analyze m programs_b (arguments_b airgap fips)
            ≡ ok (pretty v ++ b'\n' ∷ []))
          × (get (codes "inputs") v ≡ some (array (items (each c m (listed_split c m) walked))))
    unfolding output_of print_json get lookup equal priv_report_json
    analyze-lists_split airgap fips g =
        let r =
          B.expected c d bytes_process priv_process m programs_b p exe sib nonce walked fs s in
        let v = priv_report_json c priv_process.os priv_process.bundled_profile_hash r in
        (
          v,
          B.analyze-expected_split c d bytes_process priv_process m programs_b p exe sib nonce
                walked fs s (codes "json") airgap fips g
              ∙ rw (j.from_str-to_string v, output_of) refl,
          ap (λ is. some (array (items (map priv_input_json is))))
                (split_report-inputs c d priv_process nonce (map (received m.answers) walked))
              ∙ ap (λ vs. some (array (items vs))) (priv_inputs-each c m walked),
        )
