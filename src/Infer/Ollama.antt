-- ===== src/Infer/Ollama.antt =====
-- crates/seck-infer/src/ollama.rs: the address, the request and what is made of the response. The
-- daemon, JSON and the texts of errors are parameters.
use seck.Base.{
  ℕ, ℕ, true, false, Option, none, some, List, [], ◌∷◌, ◌++◌, if◌then◌else◌, ◌==◌, equal, length,
  Bytes, Text,
}
use seck.Base.Outcome.{Result, ok, err, ◌>>=◌}
use seck.Base.Strings.{codes, decimal, flatten, strip_prefix, after_first}
use seck.Base.Utf8.{to_string_lossy}
use seck.Pipeline.{InferenceConfig, BackendError, model_load, generation, LlmBackend}

pub record OllamaBackend : Type 0 where
  pub uds : Bytes
  pub cfg : Option InferenceConfig

unfoldable pub ollama_new : Text → Result BackendError OllamaBackend
unfolding strip_prefix
ollama_new host = elim (strip_prefix (codes "unix://") host) [
  | none ↦ err (model_load (codes "Ollama backend accepts only unix://<path>; got " ++ host))
  | some uds ↦ ok record { uds = uds; cfg = none }
]

-- The JSON of a request; `stream` is false and `temperature` 0. The seed is the bits of an `i64`.
pub record GenerateRequest : Type 0 where
  pub model : Text
  pub prompt : Text
  pub seed : ℕ
  pub num_ctx : ℕ

-- `read_to_end` is given what has been sent; `response` is `v["response"].as_str()`.
pub record Daemon : Type 1 where
  pub debug : Bytes → Text
  pub to_vec : GenerateRequest → Result Text Bytes
  pub connect : Bytes → Result Text (Unit {0})
  pub write_all : Bytes → Result Text (Unit {0})
  pub read_to_end : Bytes → Result Text Bytes
  pub Value : Type 0
  pub from_str : Text → Result Text Value
  pub response : Value → Option Text

-- The names in a path, without those that are empty or `.`
kept : Bytes → List Bytes
kept name = if equal name [] then [] else if equal name (codes ".") then [] else name ∷ []

names_from : Bytes → Bytes → List Bytes
names_from name [] = kept name
names_from name (c ∷ s) = elim (c == b'/') [
  | true ↦ kept name ++ names_from [] s
  | false ↦ names_from (name ++ c ∷ []) s
]

last_name : List Bytes → Option Bytes
last_name [] = none
last_name (n ∷ []) = if equal n (codes "..") then none else some n
last_name (n ∷ m ∷ ns) = last_name (m ∷ ns)

-- What stands before the last dot.
before_dot : Bytes → Option Bytes
before_dot [] = none
before_dot (c ∷ s) = elim (before_dot s) [
  | some t ↦ some (c ∷ t)
  | none ↦ if c == b'.' then some [] else none
]

stem : Bytes → Bytes
stem name = elim (before_dot name) [ none ↦ name | some [] ↦ name | some (c ∷ t) ↦ c ∷ t ]

-- `Path::file_stem`
unfoldable pub file_stem : Bytes → Option Bytes
unfolding kept names_from last_name before_dot stem
file_stem path = elim (last_name (names_from [] path)) [ none ↦ none | some n ↦ some (stem n) ]

-- What stands behind the last dot.
after_dot : Bytes → Option Bytes
after_dot [] = none
after_dot (c ∷ s) = elim (after_dot s) [
  | some t ↦ some t
  | none ↦ if c == b'.' then some s else none
]

-- `Path::extension` of a name, of which something must stand before the dot.
extension : Bytes → Option Bytes
extension name = elim (before_dot name) [
  | none ↦ none
  | some [] ↦ none
  | some (c ∷ t) ↦ after_dot name
]

unfoldable pub file_extension : Bytes → Option Bytes
unfolding kept names_from last_name extension after_dot before_dot
file_extension path = elim (last_name (names_from [] path)) [ none ↦ none | some n ↦ extension n ]

-- A path up to its last `/` and what stands behind it.
unfoldable pub parent_and_name : Bytes → Bytes × Bytes
parent_and_name [] = ([], [])
parent_and_name (c ∷ s) =
    let (dir, name) = parent_and_name s in
    elim dir [
      | [] ↦ if c == b'/' then (c ∷ [], name) else ([], c ∷ name)
      | d ∷ ds ↦ (c ∷ d ∷ ds, name)
    ]

unfoldable pub model_name : Bytes → Text
unfolding file_stem
model_name path = elim (file_stem path) [ none ↦ codes "default" | some s ↦ to_string_lossy s ]

unfoldable pub head_of : Bytes → Bytes
head_of body_bytes = flatten (
    codes "POST /api/generate HTTP/1.1\r\n"
    ∷ codes "Host: ollama\r\n"
    ∷ codes "Content-Type: application/json\r\n"
    ∷ codes "Content-Length: "
    ∷ decimal (length body_bytes)
    ∷ codes "\r\n"
    ∷ codes "Connection: close\r\n\r\n"
    ∷ [])

-- A text up to its first `sep`, or all of it.
unfoldable pub until : Text → Text → Text
unfolding strip_prefix
until sep [] = []
until sep (c ∷ s) = elim (strip_prefix sep (c ∷ s)) [ some rest ↦ [] | none ↦ c ∷ until sep s ]

abbrev pub blank_line : Text
blank_line = codes "\r\n\r\n"

-- `raw.split("\r\n\r\n").nth(1)`
unfoldable pub second_part : Text → Option Text
unfolding after_first until
second_part raw = elim (after_first blank_line raw) [
  | none ↦ none
  | some rest ↦ some (until blank_line rest)
]

-- `map_err(|e| BackendError::Generation(…))?`
abbrev pub in_generation {ℓ} : {A : Type ℓ} → Text → Result Text A → Result BackendError A
in_generation at (ok a) = ok a
in_generation at (err e) = err (generation (at ++ e))

abbrev pub or_generation : Text → Option Text → Result BackendError Text
or_generation at none = err (generation at)
or_generation at (some a) = ok a

-- `.as_str().unwrap_or("")`
abbrev pub answer_of : Option Text → Text
answer_of none = []
answer_of (some t) = t

module _ (d : Daemon) where
  -- From the response to the answer.
  unfoldable pub read_answer : Bytes → Result BackendError Text
  unfolding second_part
  read_answer buf = do
    body ← or_generation (codes "no HTTP body separator") (second_part (to_string_lossy buf))
    v ← in_generation (codes "parse: ") (d.from_str body)
    ok (answer_of (d.response v))

  unfoldable pub exchange : Bytes → Bytes → Result BackendError Bytes
  unfolding head_of
  exchange uds body_bytes = do
    c ← in_generation (codes "connect " ++ (d.debug uds ++ codes ": ")) (d.connect uds)
    w₁ ← in_generation [] (d.write_all (head_of body_bytes))
    w₂ ← in_generation [] (d.write_all body_bytes)
    in_generation [] (d.read_to_end (head_of body_bytes ++ body_bytes))

  abbrev pub request_of : InferenceConfig → Text → GenerateRequest
  request_of cfg prompt = record {
    model = model_name cfg.model_path;
    prompt = prompt;
    seed = cfg.seed;
    num_ctx = cfg.context_window;
  }

  unfoldable pub ask_daemon : Bytes → InferenceConfig → Text → Result BackendError Text
  unfolding exchange read_answer model_name
  ask_daemon uds cfg prompt = do
    body_bytes ← in_generation [] (d.to_vec (request_of cfg prompt))
    buf ← exchange uds body_bytes
    read_answer buf

  unfoldable pub ollama_generate : Text → OllamaBackend → Result BackendError (Text × OllamaBackend)
  unfolding ask_daemon
  ollama_generate prompt b = elim b.cfg [
    | none ↦ err (generation (codes "not loaded — call load() first"))
    | some cfg ↦ do answer ← ask_daemon b.uds cfg prompt; ok (answer, b)
  ]

  abbrev pub ollama : LlmBackend OllamaBackend
  ollama = record { load = λ cfg b. ok (record b { cfg = some cfg }); generate = ollama_generate }
