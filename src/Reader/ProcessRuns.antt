-- ===== src/Reader/ProcessRuns.antt =====
-- The reader processes at concrete inputs.
use seck.Base.{◌≡◌, refl, arith, true, none, some, [], ◌∷◌}
use seck.Base.Outcome.{ok, err, ◌>>=◌}
use seck.Base.Strings.{codes, decimal, strip_prefix}
use seck.Wire.Writer.{encode}
use seck.Wire.Runs.{two_files, two_files-Fits}
use seck.Report.Value.{Value, missing_field, str, array, object, items, fields, get, to_vec}
use seck.Report.Schema.{attestation_from, finding_from, report_from}
use seck.Reader.Analyze.{ReaderReport, report_of, parse_mode, stub_answer}
use seck.Reader.Process.{
  Codec, library, Process, Written, warnings, report_json, reader_main, entry,
}
use seck.Reader.Schema.{
  IsJson, GoesWell, full_report, report_from-report_json, reader_main-refused, reader_main-attests,
}
use seck.Reader.Coding.{read_value, write_value, read_value-write_value}
use seck.Reader.Runs.{json, encoders}

abbrev pub codec : Codec
codec = record {
  from_str = read_value;
  to_string = write_value;
  message = json;
  show_f32 = decimal;
  to_uppercase = λ t. t;
  to_lowercase = λ t. t;
  encoders = encoders;
  sha3_256 = λ m. m;
}

pub codec-IsJson : IsJson codec
unfolding read_value
codec-IsJson = record { from_str-to_string = read_value-write_value; from_str-stub_answer = refl }

-- The lockdown has failed.
abbrev unlocked : Process
unlocked = record {
  args = codes "--protocol-version=1" ∷ [];
  seck_model_path = none;
  lockdown = some (codes "Landlock not enforced");
  fd3 = encode two_files;
  random_nonce = some (codes "n");
  write5 = λ b. true;
  write7 = λ b. true;
  os = codes "linux";
  bundled_profile_hash = codes "profile";
}

unlocked-GoesWell : GoesWell codec codec-IsJson unlocked (codes "n") two_files
unfolding parse_mode strip_prefix
unlocked-GoesWell = record {
  mode_is = refl;
  stream_is = refl;
  few = omega arith;
  fit = two_files-Fits;
  has_nonce = refl;
  writes = λ b. refl;
}

reader_main-refused_example :
    (w : Written) × ((reader_main codec unlocked).0 ≡ ok w)
    × (v : Value) × (codec.from_str w.fd5 ≡ some v)
    × (report_from v ≡ err (missing_field (codes "id")))
reader_main-refused_example =
    reader_main-refused codec codec-IsJson unlocked (codes "n") two_files unlocked-GoesWell

reader_main-attests_example :
    (w : Written) × ((reader_main codec unlocked).0 ≡ ok w)
    × (entry codec unlocked ≡ 0)
    × ((reader_main codec unlocked).1
        ≡ warnings (codes "seck-reader") (some (codes "Landlock not enforced")))
    × (v : Value) × (codec.from_str w.fd5 ≡ some v)
    × (a : Value) × (get (codes "sandbox_attestation") v ≡ some a)
    × (attestation_from a
        ≡ ok (record {
          platform = codes "linux";
          sandbox_mode = codes "A";
          profile_sha3_256 = encoders.hex_encode (codes "profile");
          binary_sha3_256 = [];
        }))
reader_main-attests_example =
    reader_main-attests codec codec-IsJson unlocked (codes "n") (codes "Landlock not enforced")
      two_files unlocked-GoesWell refl

-- A report on one file, with the finding of the stub, to which an id is added.
abbrev numbered : Value
numbered = array (
    items (
      object (
        fields (
          (codes "id", str (codes "F1"))
          ∷ (codes "summary", str (codes "reads the clock"))
          ∷ (codes "files", array (items (str (codes "a.rs") ∷ [])))
          ∷ (codes "category", str (codes "note"))
          ∷ (codes "confidence", str (codes "low"))
          ∷ (codes "evidence_quote", str [])
          ∷ []))
      ∷ []))

abbrev one_report : ReaderReport (library codec) encoders
one_report =
    report_of (library codec) encoders (array (items [])) (codes "model") (codes "n")
      (record { relative_path = codes "a.rs"; bytes = codes "x" } ∷ []) stub_answer

report_from-report_json_example :
    report_from (
      report_json codec
        (codes "linux")
        (codes "profile")
        (record one_report { findings = numbered }))
    ≡ (to_vec finding_from numbered >>= λ fs. ok (
        full_report codec
          (codes "linux")
          (codes "profile")
          (record one_report { findings = numbered })
          fs))
report_from-report_json_example =
    report_from-report_json codec (codes "linux") (codes "profile")
      (record one_report { findings = numbered })
