-- ===== src/Mcp.antt =====
-- crates/seck-mcp: the JSON-RPC server over lines, its tools and its store of reports. serde_json,
-- hex, SHA3-256, the file system and the run of the command line are an interface; the texts of their
-- own errors are cut to `parse` and `io`.
pub mod Laws
mod Runs
use seck.Base.{
  ℕ, Bool, true, false, not, ◌&&◌, Option, none, some, List, [], ◌∷◌, ◌++◌, equal, if◌then◌else◌,
  Bytes, Text,
}
use seck.Base.Int.{ℤ, negsuc}
use seck.Base.Outcome.{Result, ok, err, ◌>>=◌}
use seck.Base.Strings.{codes, join, trim}
use seck.Report.Sanitize.{sanitize}

-- How `Command::output` ends: with an I/O error, a failure and its message, or the output.
pub data Output : Type 0 where
  not_run : Text → Output
  failed : Text → Output
  succeeded : Bytes → Output

-- `Value` with what the server calls on it; `summaries` are the strings `findings[i].summary`, if
-- `findings` is an array; `model_list` is the text for the bundled manifest.
pub record World : Type 1 where
  pub Value : Type 0
  pub get_str : Text → Value → Option Text
  pub get_value : Text → Value → Option Value
  pub empty_object : Value
  pub from_slice : Bytes → Option Value
  pub to_vec : Value → Bytes
  pub summaries : Value → Option (List Text)
  pub digest_hex : Bytes → Text
  pub to_lowercase : Text → Text
  pub run_seck : Text → Output
  pub read_file : Text → Option Bytes
  pub model_list : Option Text

-- The objects that the server builds with `json!`.
pub data Payload : Type 0 where
  handshake : Payload
  null : Payload
  tool_list : Payload
  content : Text → Payload
  verdict : Text → Bool → Payload

pub record RpcError : Type 0 where
  pub code : ℤ
  pub message : Text

module _ (w : World) where
  pub record RpcRequest : Type 0 where
    pub id : Option w.Value
    pub method : Text
    pub params : w.Value

  pub record RpcResponse : Type 0 where
    pub id : Option w.Value
    pub result : Option Payload
    pub error : Option RpcError

  -- `RpcResponse::ok` and `RpcResponse::err`
  abbrev pub rpc_ok : Option w.Value → Payload → RpcResponse
  rpc_ok id result = record { id = id; result = some result; error = none }

  abbrev pub rpc_err : Option w.Value → ℤ → Text → RpcResponse
  rpc_err id code message = record {
    id = id;
    result = none;
    error = some (record { code = code; message = message });
  }

  -- The map from ids to reports.
  abbrev pub ReportStore : Type 0
  ReportStore = List (Text × w.Value)

  unfoldable pub get_report : Text → ReportStore → Option w.Value
  get_report id [] = none
  get_report id ((k, v) ∷ store) = if equal k id then some v else get_report id store

  -- A later entry stands in front of an earlier one with its id.
  unfoldable pub put : w.Value → ReportStore → Text × ReportStore
  put v store = let id = w.digest_hex (w.to_vec v) in (id, (id, v) ∷ store)

  unfoldable pub sanitized : List Text → List Text
  sanitized [] = []
  sanitized (s ∷ ss) = sanitize s ∷ sanitized ss

  unfoldable pub summary_of : w.Value → Text
  unfolding sanitized
  summary_of report = elim (w.summaries report) [
    | none ↦ []
    | some ss ↦ join (codes "\n") (sanitized ss)
  ]

  unfoldable pub tool_analyze_file : w.Value → ReportStore → Result Text Payload × ReportStore
  unfolding put summary_of
  tool_analyze_file args store = elim (w.get_str (codes "path") args) [
    | none ↦ (err (codes "missing 'path'"), store)
    | some path ↦ elim (w.run_seck path) [
      | not_run e ↦ (err e, store)
      | failed stderr ↦ (err (codes "seck analyze failed: " ++ stderr), store)
      | succeeded stdout ↦ elim (w.from_slice stdout) [
        | none ↦ (err (codes "parse"), store)
        | some report ↦
            let (report_id, store') = put report store in
            (
              ok (
                  content
                    (codes "report_id: " ++ (report_id ++ (codes "\n" ++ summary_of report)))),
              store',
            )
      ]
    ]
  ]

  unfoldable pub tool_list_models : Result Text Payload
  tool_list_models = elim w.model_list [ none ↦ err (codes "parse") | some t ↦ ok (content t) ]

  unfoldable pub tool_verify_file_sha3 : w.Value → Result Text Payload
  tool_verify_file_sha3 args = elim (w.get_str (codes "path") args) [
    | none ↦ err (codes "missing 'path'")
    | some path ↦ elim (w.get_str (codes "sha3_256_hex") args) [
      | none ↦ err (codes "missing 'sha3_256_hex'")
      | some given ↦ elim (w.read_file path) [
        | none ↦ err (codes "io")
        | some bytes ↦
            let want = w.to_lowercase given in
            let got = w.digest_hex bytes in
            if equal got want
            then ok (verdict (codes "OK — " ++ path) false)
            else ok
                (verdict (codes "MISMATCH: expected " ++ (want ++ (codes ", got " ++ got))) true)
      ]
    ]
  ]

  -- `Ok(v) => RpcResponse::ok(…), Err(e) => RpcResponse::err(…, -32000, …)`
  abbrev pub respond : Option w.Value → Result Text Payload → RpcResponse
  respond id (ok v) = rpc_ok id v
  respond id (err e) = rpc_err id (negsuc 31999) e

  unfoldable pub call_tool :
      Option w.Value → Text → w.Value → ReportStore → RpcResponse × ReportStore
  unfolding tool_analyze_file tool_list_models tool_verify_file_sha3
  call_tool id name args store =
      if equal name (codes "analyze_file")
      then (respond id (tool_analyze_file args store).0, (tool_analyze_file args store).1)
      else if equal name (codes "list_models")
      then (respond id tool_list_models, store)
      else if equal name (codes "verify_file_sha3")
      then (respond id (tool_verify_file_sha3 args), store)
      else (rpc_err id (negsuc 32601) (codes "unknown tool: " ++ name), store)

  abbrev pub or_else {ℓ} : {A : Type ℓ} → Option A → A → A
  or_else none a = a
  or_else (some b) a = b

  unfoldable pub handle_tool_call : RpcRequest → ReportStore → RpcResponse × ReportStore
  unfolding call_tool
  handle_tool_call req store =
      call_tool req.id (or_else (w.get_str (codes "name") req.params) [])
        (or_else (w.get_value (codes "arguments") req.params) w.empty_object) store

  unfoldable pub handle : RpcRequest → ReportStore → RpcResponse × ReportStore
  unfolding handle_tool_call
  handle req store =
      if equal req.method (codes "initialize")
      then (rpc_ok req.id handshake, store)
      else if equal req.method (codes "notifications/initialized")
      then (rpc_ok req.id null, store)
      else if equal req.method (codes "initialized")
      then (rpc_ok req.id null, store)
      else if equal req.method (codes "tools/list")
      then (rpc_ok req.id tool_list, store)
      else if equal req.method (codes "tools/call")
      then handle_tool_call req store
      else (rpc_err req.id (negsuc 32600) (codes "method not found: " ++ req.method), store)

  abbrev pub is_none {ℓ} : {A : Type ℓ} → Option A → Bool
  is_none none = true
  is_none (some a) = false

  -- Notifications (no id) get no response, errors aside.
  unfoldable pub answer_to : Option w.Value → RpcResponse → Option RpcResponse
  answer_to id resp = if is_none id && is_none resp.error then none else some resp

  module _ (parse_request : Text → Option RpcRequest) where
    -- `none` is no response.
    unfoldable pub dispatch : Text → ReportStore → Option RpcResponse × ReportStore
    unfolding handle answer_to
    dispatch line store = elim (parse_request line) [
      | none ↦ (some (rpc_err none (negsuc 32699) (codes "parse")), store)
      | some req ↦ (answer_to req.id (handle req store).0, (handle req store).1)
    ]

    -- The responses to the lines, of which blank ones are passed over.
    unfoldable pub serve : List Text → ReportStore → List RpcResponse
    unfolding dispatch
    serve [] store = []
    serve (line ∷ ls) store = elim (trim line) [
      | [] ↦ serve ls store
      | c ∷ s ↦ elim (dispatch line store).0 [
        | none ↦ serve ls (dispatch line store).1
        | some resp ↦ resp ∷ serve ls (dispatch line store).1
      ]
    ]
