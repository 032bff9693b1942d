-- ===== src/Mcp/Runs.antt =====
-- A small world, and the theorem of `Mcp` in it.
use seck.Base.{◌≡◌, refl, none, some, [], equal, if◌then◌else◌, Option, Text}
use seck.Base.Strings.{codes}
use seck.Mcp.{World, succeeded, RpcRequest, dispatch}
use seck.Mcp.Laws.{Replies, dispatch-Replies}

-- Values are texts.
abbrev world : World
world = record {
  Value = Text;
  get_str = λ key v. some v;
  get_value = λ key v. some v;
  empty_object = [];
  from_slice = λ b. some b;
  to_vec = λ v. v;
  summaries = λ v. none;
  digest_hex = λ b. b;
  to_lowercase = λ t. t;
  run_seck = λ path. succeeded path;
  read_file = λ path. some path;
  model_list = none;
}

abbrev call : RpcRequest world
call = record { id = some (codes "7"); method = codes "tools/call"; params = codes "analyze_file" }

abbrev parse_request : Text → Option (RpcRequest world)
parse_request line = if equal line (codes "call") then some call else none

parsed : parse_request (codes "call") ≡ some call
unfolding equal
parsed = refl

dispatch-Replies_example :
    Replies world (some (codes "7")) (dispatch world parse_request (codes "call") []).0
dispatch-Replies_example = dispatch-Replies world parse_request (codes "call") [] call parsed
