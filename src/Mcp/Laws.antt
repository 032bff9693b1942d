-- ===== src/Mcp/Laws.antt =====
-- Who gets a response, and what the store gives back.
use seck.Base.{
  ◌≡◌, ◌⊎◌, inl, inr, refl, sym, subst, Bool, true, false, Option, none, some, if◌then◌else◌, equal,
  equal_refl, Option-cases, Text,
}
use seck.Base.Int.{ℤ}
use seck.Base.Outcome.{Result, ok, err}
use seck.Base.Strings.{codes}
use seck.Mcp.{
  World, Payload, RpcError, RpcRequest, RpcResponse, rpc_ok, rpc_err, ReportStore, get_report, put,
  respond, tool_analyze_file, tool_list_models, tool_verify_file_sha3, call_tool, handle_tool_call,
  handle, is_none, answer_to, dispatch,
}

module _ (w : World) where
  -- The response carries the id of the request, and either a result or an error.
  pub record Answers (id : Option w.Value) (resp : RpcResponse w) : Type 0 where
    pub same_id : resp.id ≡ id
    pub one_of :
        ((result : Payload) × (resp.result ≡ some result) × (resp.error ≡ none))
        ⊎ ((error : RpcError) × (resp.error ≡ some error) × (resp.result ≡ none))

  rpc_ok-Answers : (id : Option w.Value) (v : Payload) → Answers id (rpc_ok w id v)
  rpc_ok-Answers id v = record { same_id = refl; one_of = inl (v, refl, refl) }

  rpc_err-Answers :
      (id : Option w.Value) (code : ℤ) (message : Text) → Answers id (rpc_err w id code message)
  rpc_err-Answers id code message = record { same_id = refl; one_of = inr (_, refl, refl) }

  respond-Answers : (id : Option w.Value) (r : Result Text Payload) → Answers id (respond w id r)
  respond-Answers id (ok v) = rpc_ok-Answers id v
  respond-Answers id (err e) = rpc_err-Answers id _ e

  -- A test with an answer on either branch.
  if-Answers :
      (id : Option w.Value) (b : Bool) (x y : RpcResponse w × ReportStore w)
      → Answers id x.0
      → Answers id y.0
      → Answers id (if b then x else y).0
  if-Answers id true x y hx hy = hx
  if-Answers id false x y hx hy = hy

  call_tool-Answers :
      (id : Option w.Value) (name : Text) (args : w.Value) (store : ReportStore w)
      → Answers id (call_tool w id name args store).0
  unfolding call_tool
  call_tool-Answers id name args store =
      if-Answers id (equal name (codes "analyze_file")) _ _
        (respond-Answers id (tool_analyze_file w args store).0)
        (if-Answers id (equal name (codes "list_models")) _ _
          (respond-Answers id (tool_list_models w))
          (if-Answers id (equal name (codes "verify_file_sha3")) _ _
            (respond-Answers id (tool_verify_file_sha3 w args)) (rpc_err-Answers id _ _)))

  handle-Answers :
      (req : RpcRequest w) (store : ReportStore w) → Answers req.id (handle w req store).0
  unfolding handle handle_tool_call
  handle-Answers req store =
      if-Answers req.id (equal req.method (codes "initialize")) _ _ (rpc_ok-Answers req.id _) (
        if-Answers req.id (equal req.method (codes "notifications/initialized")) _ _
          (rpc_ok-Answers req.id _)
          (if-Answers req.id (equal req.method (codes "initialized")) _ _ (rpc_ok-Answers req.id _)
            (if-Answers req.id (equal req.method (codes "tools/list")) _ _ (rpc_ok-Answers req.id _)
              (if-Answers req.id (equal req.method (codes "tools/call")) _ _
                (call_tool-Answers req.id _ _ store) (rpc_err-Answers req.id _ _)))))

  -- What `dispatch` returns for a request with the given id.
  pub data Replies : Option w.Value → Option (RpcResponse w) → Type 0 where
    answered :
        (v : w.Value) (resp : RpcResponse w) → Answers (some v) resp → Replies (some v) (some resp)
    silent : Replies none none
    complained :
        (resp : RpcResponse w) (e : RpcError) → resp.error ≡ some e → Replies none (some resp)

  answer_to-Replies :
      (id : Option w.Value) (resp : RpcResponse w)
      → Answers id resp
      → Replies id (answer_to w id resp)
  unfolding answer_to
  answer_to-Replies (some v) resp a = answered v resp a
  answer_to-Replies none resp a = elim (Option-cases resp.error) [
    | inl e ↦ rw e silent
    | inr (x, e) ↦
        subst (λ o. Replies none (if is_none w o then none else some resp)) (sym e)
          (complained resp x e)
  ]

  -- A request with an id gets one response, with that id and either a result or an error. One
  -- without an id gets no response, unless it ends in an error.
  pub dispatch-Replies :
      (parse_request : Text → Option (RpcRequest w)) (line : Text) (store : ReportStore w)
      (req : RpcRequest w)
      → parse_request line ≡ some req
      → Replies req.id (dispatch w parse_request line store).0
  unfolding dispatch
  dispatch-Replies parse_request line store req h =
      rw (h, dispatch) (answer_to-Replies req.id (handle w req store).0 (handle-Answers req store))

  -- A report that is put into the store is found under the id that it gets.
  pub get_report-put :
      (v : w.Value) (store : ReportStore w)
      → get_report w (put w v store).0 (put w v store).1 ≡ some v
  unfolding get_report put
  get_report-put v store = rw (equal_refl (w.digest_hex (w.to_vec v))) refl
