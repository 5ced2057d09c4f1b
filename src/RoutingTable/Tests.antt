-- ===== src/RoutingTable/Tests.antt =====
-- A table of two tools.
use liop.Common.{
  ℕ, String, ◌≡◌, refl, true, false, none, some, List, [], ◌∷◌, text_equality, leb, inl,
}
use liop.Common.Dict
use liop.Common.Dict.{Dict}
use liop.RoutingTable.{
  ToolDefinition, ToolRoute, http_gateway, p2p_grpc, remote_route, register_gateway_tools,
  register_mesh_tools, register_mesh_tool, resolve, target_name, max_failures,
}
use liop.RoutingTable.Register.{
  IsFresh, register_mesh_tools_keeps, register_mesh_tools-IsFresh, register_gateway_tools-IsFresh,
}
use liop.RoutingTable.Circuit.{Call, succeeded, failed, streak, record_calls, resolve-record_calls}

abbrev tool : String → ToolDefinition ℕ
tool name = record { name = name; description = none; input_schema = none }

abbrev route : ToolRoute ℕ
route = record {
  name = "a";
  provider = http_gateway;
  endpoint = "http://g/mcp";
  description = none;
  input_schema = some 7;
  latency_ms = 4;
  fail_count = 0;
  last_success = 9;
  auth_required = true;
}

abbrev table : Dict String (ToolRoute ℕ)
table = ("a", route) ∷ []

mesh_adds_the_other :
    Dict.get "b" (register_mesh_tools (tool "a" ∷ tool "b" ∷ []) "grpc:1" false 12 table)
    ≡ some (remote_route p2p_grpc "grpc:1" false 12 (tool "b") none)
unfolding register_mesh_tools register_mesh_tool Dict.get Dict.set
mesh_adds_the_other = refl

register_mesh_tools_keeps_example :
    Dict.get "a" (register_mesh_tools (tool "a" ∷ []) "grpc:1" false 12 table) ≡ Dict.get "a" table
unfolding Dict.get
register_mesh_tools_keeps_example =
    register_mesh_tools_keeps (tool "a" ∷ []) "grpc:1" false 12 table "a" (inl refl)

register_mesh_tools-IsFresh_example :
    IsFresh p2p_grpc "grpc:1" false
      (Dict.get "b" (register_mesh_tools (tool "b" ∷ []) "grpc:1" false 12 table))
unfolding Dict.get
register_mesh_tools-IsFresh_example =
    register_mesh_tools-IsFresh (tool "b" ∷ []) "grpc:1" false 12 table "b" refl refl

register_gateway_tools-IsFresh_example :
    IsFresh http_gateway "http://g/mcp" true
      (Dict.get "b" (register_gateway_tools (tool "b" ∷ []) "http://g/mcp" true 5 table))
register_gateway_tools-IsFresh_example =
    register_gateway_tools-IsFresh (tool "b" ∷ []) "http://g/mcp" true 5 table "b" refl

abbrev calls : List Call
calls = failed ∷ succeeded 3 20 ∷ failed ∷ failed ∷ failed ∷ failed ∷ failed ∷ []

resolve-record_calls_example :
    (r' : ToolRoute ℕ) × (resolve "a" (record_calls "a" calls table)
      ≡ some (r', leb max_failures (streak 0 calls)))
    × (r'.provider ≡ http_gateway)
    × (r'.endpoint ≡ "http://g/mcp")
unfolding Dict.get target_name
resolve-record_calls_example = resolve-record_calls "a" calls table route refl refl
