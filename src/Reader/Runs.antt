-- ===== src/Reader/Runs.antt =====
-- Simple encoders and a simple form of the messages, and the theorems of `Reader` with them.
use seck.Base.{
  ◌≡◌, ◌≢◌, refl, ap, ◌∙◌, arith, Bool-cases, inl, inr, Option, none, some, List, [], ◌∷◌, ◌++◌,
  map, if◌then◌else◌, ◌==◌, Bytes, Text,
}
use seck.Base.Packing.{enc, enc_all, split, split-enc_all, enc_all-HasNoBreak, trim_end-enc_all}
use seck.Base.Outcome.{ok, ◌>>=◌}
use seck.Base.Count.{count}
use seck.Base.Strings.{codes}
use seck.Wire.{Frame}
use seck.Wire.Writer.{encode}
use seck.Wire.Runs.{two_files, two_files-Fits}
use seck.Pipeline.Runs.{simple}
use seck.Reader.Prompt.{Encoders}
use seck.Reader.Ipc.{Message, header, file, end_files, Json, IsDocumented, read_messages, emit_ipc}
use seck.Reader.Priv.{priv_inputs, priv_prompt}
use seck.Reader.Analyze.{ReaderReport, real_main}
use seck.Reader.Handover.{described, priv_input_of, handover, real_main-encode}
use seck.Base.Utf8.{to_string_lossy}
use seck.Reader.Quotes.{quotes}

-- A message is a list of texts, of which the first one is its kind.
pub parts : Message → List Text
parts (header nonce system task) = [] ∷ nonce ∷ system ∷ task ∷ []
parts (file path content n) = (0 ∷ []) ∷ path ∷ content ∷ (n ∷ []) ∷ []
parts end_files = [] ∷ []

pub of_parts : List Text → Option Message
of_parts ([] ∷ nonce ∷ system ∷ task ∷ []) = some (header nonce system task)
of_parts ((_ ∷ _) ∷ path ∷ content ∷ (n ∷ []) ∷ []) = some (file path content n)
of_parts ([] ∷ []) = some end_files
of_parts _ = none

of_parts-parts : (m : Message) → of_parts (parts m) ≡ some m
unfolding of_parts parts
of_parts-parts (header nonce system task) = refl
of_parts-parts (file path content n) = refl
of_parts-parts end_files = refl

abbrev pub json : Json
json = record { to_json = λ m. enc_all (parts m); from_json = λ s. of_parts (split s) }

some_parts : (m : Message) → enc_all (parts m) ≢ []
unfolding enc_all enc parts
some_parts (header nonce system task) e = cc
some_parts (file path content n) e = cc
some_parts end_files e = cc

pub json-IsDocumented : IsDocumented json
json-IsDocumented = record {
  from_json-to_json = λ m. ap of_parts (split-enc_all (parts m)) ∙ of_parts-parts m;
  to_json-HasNoBreak = λ m. enc_all-HasNoBreak (parts m);
  trim_end-to_json = λ m. trim_end-enc_all (parts m);
  some_text = some_parts;
}

abbrev ms : List Message
ms = header (codes "n") (codes "s") (codes "t") ∷ file (codes "a") (codes "x") 3 ∷ []

-- Encoders that drop the quotes.
pub unquoted : Bytes → Bytes
unquoted [] = []
unquoted (c ∷ s) = let rest = unquoted s in if c == b'"' then rest else c ∷ rest

quotes-unquoted : (s : Bytes) → quotes (unquoted s) ≡ 0
unfolding unquoted count
quotes-unquoted [] = refl
quotes-unquoted (c ∷ s) = elim (Bool-cases (c == b'"')) [
  | inl q ↦ rw (q, unquoted) (quotes-unquoted s)
  | inr n ↦ rw (n, unquoted) (rw (n, count) (quotes-unquoted s))
]

abbrev pub encoders : Encoders
encoders = record { hex_encode = unquoted; base64_encode = unquoted }

abbrev frames : List Frame
frames = record { relative_path = codes "a\"b"; bytes = 1 ∷ 2 ∷ [] } ∷ []

-- The prompt of the other reader does not escape the path: three quotes for one file.
quotes-priv_prompt : quotes (priv_prompt encoders unquoted (file (codes "a\"b") [] 0 ∷ [])) ≡ 3
unfolding priv_prompt unquoted count
quotes-priv_prompt = refl

handover_example :
    (read_messages json (emit_ipc json encoders (codes "n") frames) >>= λ ms.
    ok (priv_inputs encoders unquoted ms))
    ≡ ok (map (priv_input_of encoders unquoted) frames)
handover_example = handover encoders unquoted json json-IsDocumented (codes "n") frames

real_main-encode_example :
    (r : ReaderReport simple encoders) × (real_main simple encoders []
        (codes "m")
        (codes "n")
        (encode two_files ++ [])
      ≡ ok r)
    × (r.inputs
        ≡ map (λ f. described simple encoders (to_string_lossy f.relative) f.bytes) two_files)
real_main-encode_example =
    real_main-encode simple encoders [] (codes "m") (codes "n") two_files [] (omega arith)
      two_files-Fits
