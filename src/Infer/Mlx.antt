-- ===== src/Infer/Mlx.antt =====
-- crates/seck-infer/src/mlx.rs: the runner is started and spoken to in lines. The runner, the disk
-- and the kernel are parameters. The pipes of a child that was started with them are never missing.
use seck.Base.{
  Bool, true, false, Option, none, some, List, [], ◌∷◌, ◌++◌, if◌then◌else◌, ◌==◌, equal, Bytes,
  Text,
}
use seck.Base.Outcome.{Result, ok, err, ◌>>=◌, ◌>>◌, guard}
use seck.Base.Strings.{codes, decimal}
use seck.Pipeline.{InferenceConfig, BackendError, model_load, generation, io, LlmBackend}

-- The child by what has been written to it.
pub record MlxBackend : Type 0 where
  pub child : Option Bytes
  pub cfg : Option InferenceConfig

abbrev pub mlx_new : MlxBackend
mlx_new = record { child = none; cfg = none }

pub record Env : Type 0 where
  pub seck_mlx_model : Bytes
  pub seck_mlx_seed : Text
  pub seck_mlx_max_tokens : Text

-- `spawn` gives the text of its error, if it fails; `writes` takes what was written and what is to be;
-- `lines` is what a new reader of the runner's output yields, an error of a line being `none`.
pub record Runner : Type 0 where
  pub current_exe : Option Bytes
  pub parent : Bytes → Option Bytes
  pub spawn : Bytes → Env → Option Text
  pub writes : Bytes → Bytes → Bool
  pub lines : Bytes → List (Option Text)

unfoldable pub collect : Bool → Text → List (Option Text) → Result BackendError Text
collect in_response acc [] = ok acc
collect in_response acc (none ∷ ls) = err io
collect false acc (some l ∷ ls) = collect (equal l (codes "RESPONSE")) acc ls
collect true acc (some l ∷ ls) =
    let rest = collect true (acc ++ (l ++ b'\n' ∷ [])) ls in
    if equal l (codes "END") then ok acc else rest

-- `trim_end_matches('\n')`
unfoldable pub trim_newlines : Text → Text
trim_newlines [] = []
trim_newlines (c ∷ s) = elim (trim_newlines s) [
  | [] ↦ if c == b'\n' then [] else c ∷ []
  | d ∷ t ↦ c ∷ d ∷ t
]

abbrev pub trimmed : Result BackendError Text → Result BackendError Text
trimmed (ok t) = ok (trim_newlines t)
trimmed (err e) = err e

-- What is written for a prompt.
unfoldable pub prompt_lines : Text → Bytes
prompt_lines prompt = codes "PROMPT\n" ++ (prompt ++ codes "\nEND\n")

abbrev pub env_of : InferenceConfig → Env
env_of cfg = record {
  seck_mlx_model = cfg.model_path;
  seck_mlx_seed = decimal cfg.seed;
  seck_mlx_max_tokens = decimal cfg.max_tokens;
}

module _ (r : Runner) where
  unfoldable pub start_runner : InferenceConfig → Bytes → Result BackendError MlxBackend
  start_runner cfg dir = elim (r.spawn (dir ++ codes "/MLXRunner") (env_of cfg)) [
    | some e ↦ err (model_load (codes "spawn: " ++ e))
    | none ↦ ok record { child = some []; cfg = some cfg }
  ]

  unfoldable pub mlx_load : InferenceConfig → MlxBackend → Result BackendError MlxBackend
  unfolding start_runner
  mlx_load cfg b = elim r.current_exe [
    | none ↦ err io
    | some exe ↦ elim (r.parent exe) [
      | none ↦ err (model_load (codes "no parent dir for current_exe"))
      | some dir ↦ start_runner cfg dir
    ]
  ]

  unfoldable pub write_prompt : Bytes → Text → Result BackendError (Unit {0})
  write_prompt sent prompt = do
    guard (r.writes sent (codes "PROMPT\n")) io
    guard (r.writes (sent ++ codes "PROMPT\n") prompt) io
    guard (r.writes (sent ++ (codes "PROMPT\n" ++ prompt)) (codes "\nEND\n")) io

  unfoldable pub converse : Bytes → Text → Result BackendError Text
  unfolding write_prompt prompt_lines collect trim_newlines
  converse sent prompt = do
    w ← write_prompt sent prompt
    trimmed (collect false [] (r.lines (sent ++ prompt_lines prompt)))

  unfoldable pub mlx_generate : Text → MlxBackend → Result BackendError (Text × MlxBackend)
  unfolding converse
  mlx_generate prompt b = elim b.child [
    | none ↦ err (generation (codes "not loaded"))
    | some sent ↦ do
      answer ← converse sent prompt
      ok (answer, record b { child = some (sent ++ prompt_lines prompt) })
  ]

  abbrev pub mlx : LlmBackend MlxBackend
  mlx = record { load = mlx_load; generate = mlx_generate }
