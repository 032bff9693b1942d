-- ===== src/Reader/Schema.antt =====
-- What the report's own schema makes of the reports that the readers write.
use seck.Base.{
  ◌≤◌, ◌≡◌, refl, sym, ap, ◌∙◌, true, none, some, List, [], ◌∷◌, map, append-nil, equal, length,
  All, Bytes, Text,
}
use seck.Base.Outcome.{ok, err, ◌>>=◌}
use seck.Base.Strings.{codes}
use seck.Wire.{max_entries, FileEntry, Frame}
use seck.Wire.Writer.{encode}
use seck.Wire.Reader.{read_frames}
use seck.Wire.RoundTrip.{Fits, frame_of, read_frames-encode}
use seck.Report.{Input, Finding, Report}
use seck.Report.Value.{
  Value, missing_field, str, array, object, Fields, items, values, fields, lookup, get, to_vec,
  all_of,
}
use seck.Report.Schema.{input_from, finding_from, invocation_from, attestation_from, report_from}
use seck.Reader.Analyze.{
  analyze, parse_mode, ReaderReport, report_of, analyze_frames, stub_generate, stub_answer,
  findings_or,
}
use seck.Reader.Process.{
  Codec, library, Process, Written, model_path, input_json, invocation_json, attestation_json,
  report_json, reader_main, entry, warnings,
}

values-items : (vs : List Value) → values (items vs) ≡ vs
values-items [] = refl
values-items (v ∷ vs) = ap (◌∷◌ v) (values-items vs)

input_from-input_json : (i : Input) → input_from (input_json i) ≡ ok i
unfolding input_from equal
input_from-input_json i = refl

all_of-input_json : (is : List Input) → all_of input_from (map input_json is) ≡ ok is
unfolding all_of
all_of-input_json [] = refl
all_of-input_json (i ∷ is) = rw (input_from-input_json i, all_of-input_json is) refl

module _ (c : Codec) (os : Text) (profile_hash : Bytes) where
  -- The report of approach A, around findings in the schema.
  abbrev pub full_report : ReaderReport (library c) c.encoders → List Finding → Report
  full_report r fs = record {
    version = codes "0.1.0";
    invocation = record {
      nonce_sha3_256 = r.nonce_sha3_256;
      started_at = [];
      finished_at = [];
      sandbox_mode = codes "A";
      backend = codes "stub";
      model = r.model;
      model_sha3_256 = [];
      temperature = c.show_f32 r.temperature;
      seed = r.seed;
      deterministic = true;
    };
    inputs = r.inputs;
    findings = fs;
    sandbox_attestation = record {
      platform = os;
      sandbox_mode = codes "A";
      profile_sha3_256 = c.encoders.hex_encode profile_hash;
      binary_sha3_256 = [];
    };
  }

  invocation_from_json :
      (r : ReaderReport (library c) c.encoders) (fs : List Finding)
      → invocation_from
          (invocation_json c r.nonce_sha3_256 (codes "A") r.model r.temperature r.seed)
        ≡ ok (full_report r fs).invocation
  unfolding invocation_from equal
  invocation_from_json r fs = refl

  attestation_from_json :
      (r : ReaderReport (library c) c.encoders) (fs : List Finding)
      → attestation_from (attestation_json c os (codes "A") profile_hash)
        ≡ ok (full_report r fs).sandbox_attestation
  unfolding attestation_from equal
  attestation_from_json r fs = refl

  -- The report of approach A is in the schema exactly if its findings are, and is read back as it was
  -- written.
  pub report_from-report_json :
      (r : ReaderReport (library c) c.encoders)
      → report_from (report_json c os profile_hash r)
        ≡ (to_vec finding_from r.findings >>= λ fs. ok (full_report r fs))
  unfolding report_from report_json equal
  report_from-report_json r =
      rw (values-items (map input_json r.inputs), all_of-input_json r.inputs) refl

-- The stub's answer as a JSON value. Its finding has the fields that the prompt asks for.
abbrev pub stub_finding : Value
stub_finding = object (
    fields (
      (
        codes "summary",
        str (
            codes
              "stub backend: no actual analysis was performed. The pipeline ran end-to-end and would emit real findings if a real LLM backend were configured."),
      )
      ∷ (codes "files", array (items (str (codes "(all)") ∷ [])))
      ∷ (codes "category", str (codes "note"))
      ∷ (codes "confidence", str (codes "low"))
      ∷ (codes "evidence_quote", str [])
      ∷ []))

abbrev pub stub_value : Value
stub_value = object (fields ((codes "findings", array (items (stub_finding ∷ []))) ∷ []))

-- What serde_json documents: a value that is written is read back, and the answer of the stub is read
-- as the object that it stands for.
pub record IsJson (c : Codec) : Type 0 where
  pub from_str-to_string : (v : Value) → c.from_str (c.to_string v) ≡ some v
  pub from_str-stub_answer : c.from_str stub_answer ≡ some stub_value

-- An object without an id is no finding of the schema.
pub finding_from-HasNoId :
    (fs : Fields)
    → lookup (codes "id") fs ≡ none
    → finding_from (object fs) ≡ err (missing_field (codes "id"))
unfolding finding_from
finding_from-HasNoId fs h = rw h refl

module _ (c : Codec) (j : IsJson c) where
  findings_or-stub :
      findings_or (library c) c.encoders (array (items [])) stub_answer
      ≡ array (items (stub_finding ∷ []))
  unfolding findings_or equal get
  findings_or-stub = rw (j.from_str-stub_answer, findings_or) refl

  -- The schema refuses a report with the stub's findings, whatever the files.
  pub refused-report_of :
      (os : Text) (profile_hash path nonce : Bytes) (fs : List Frame)
      → report_from (
          report_json c os profile_hash
            (report_of (library c) c.encoders (array (items [])) path nonce fs stub_answer))
        ≡ err (missing_field (codes "id"))
  unfolding report_of all_of equal lookup
  refused-report_of os profile_hash path nonce fs =
      report_from-report_json c os profile_hash
        (report_of (library c) c.encoders (array (items [])) path nonce fs stub_answer)
      ∙ rw (findings_or-stub, finding_from-HasNoId _ refl) refl

  -- The report of a process on any files, with the stub's findings.
  abbrev pub stub_report : Process → Bytes → List FileEntry → ReaderReport (library c) c.encoders
  stub_report p nonce es =
      report_of (library c) c.encoders (array (items [])) (model_path p.seck_model_path) nonce
        (map frame_of es) stub_answer

  -- What a run that goes well is given.
  pub record GoesWell (p : Process) (nonce : Bytes) (es : List FileEntry) : Type 0 where
    pub mode_is : parse_mode p.args analyze ≡ ok analyze
    pub stream_is : p.fd3 ≡ encode es
    pub few : length es ≤ max_entries
    pub fit : All Fits es
    pub has_nonce : p.random_nonce ≡ some nonce
    pub writes : (b : Bytes) → p.write5 b ≡ true

  read_stream :
      (p : Process) (nonce : Bytes) (es : List FileEntry)
      → GoesWell p nonce es
      → read_frames p.fd3 ≡ ok (map frame_of es, [])
  read_stream p nonce es g =
      ap read_frames (g.stream_is ∙ sym (append-nil (encode es)))
      ∙ read_frames-encode es [] g.few g.fit

  pub reader_main-writes :
      (p : Process) (nonce : Bytes) (es : List FileEntry)
      → GoesWell p nonce es
      → (reader_main c p).0
        ≡ ok (record {
          fd5 = c.to_string (report_json c p.os p.bundled_profile_hash (stub_report p nonce es));
          fd7 = [];
        })
  unfolding reader_main analyze_frames stub_generate
  reader_main-writes p nonce es g =
      rw (g.mode_is, reader_main) (rw (read_stream p nonce es g, g.has_nonce, g.writes) refl)

  -- A run of the reader that goes well, on any files, writes a report that the report's own schema
  -- refuses: the finding that the stub makes, of the shape that the prompt asks for, has no id.
  pub reader_main-refused :
      (p : Process) (nonce : Bytes) (es : List FileEntry)
      → GoesWell p nonce es
      → (w : Written) × ((reader_main c p).0 ≡ ok w)
        × (v : Value) × (c.from_str w.fd5 ≡ some v)
        × (report_from v ≡ err (missing_field (codes "id")))
  reader_main-refused p nonce es g = (
    record {
      fd5 = c.to_string (report_json c p.os p.bundled_profile_hash (stub_report p nonce es));
      fd7 = [];
    },
    reader_main-writes p nonce es g,
    report_json c p.os p.bundled_profile_hash (stub_report p nonce es),
    j.from_str-to_string _,
    refused-report_of p.os p.bundled_profile_hash (model_path p.seck_model_path) nonce
        (map frame_of es),
  )

  -- Even if the lockdown of the reader fails, a run that goes well otherwise writes its report, exits with
  -- success and attests the sandbox profile that was not applied; the failure is only warned of.
  pub reader_main-attests :
      (p : Process) (nonce why : Bytes) (es : List FileEntry)
      → GoesWell p nonce es
      → p.lockdown ≡ some why
      → (w : Written) × ((reader_main c p).0 ≡ ok w)
        × (entry c p ≡ 0)
        × ((reader_main c p).1 ≡ warnings (codes "seck-reader") (some why))
        × (v : Value) × (c.from_str w.fd5 ≡ some v)
        × (a : Value) × (get (codes "sandbox_attestation") v ≡ some a)
        × (attestation_from a
            ≡ ok (record {
              platform = p.os;
              sandbox_mode = codes "A";
              profile_sha3_256 = c.encoders.hex_encode p.bundled_profile_hash;
              binary_sha3_256 = [];
            }))
  unfolding entry get lookup equal report_json
  reader_main-attests p nonce why es g failed = (
    record {
      fd5 = c.to_string (report_json c p.os p.bundled_profile_hash (stub_report p nonce es));
      fd7 = [];
    },
    reader_main-writes p nonce es g,
    rw (entry, reader_main-writes p nonce es g) refl,
    rw (reader_main, g.mode_is, failed) refl,
    report_json c p.os p.bundled_profile_hash (stub_report p nonce es),
    j.from_str-to_string _,
    attestation_json c p.os (codes "A") p.bundled_profile_hash,
    refl,
    attestation_from_json c p.os p.bundled_profile_hash (stub_report p nonce es) [],
  )
