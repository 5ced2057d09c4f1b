-- ===== src/RoutingTable.antt =====
-- `RoutingTable` (sdks/typescript/src/runtime/routing-table.ts) and the aliases of tool names that
-- it resolves (sdks/typescript/src/gateway/mcp-compat.ts). A method takes the clock's time as
-- `now`. The JSON schema of a tool, which the table only carries, is a type `S`. Log lines are left
-- out, but for the warning of `resolve`, which is part of its result.
pub mod Register
pub mod Circuit
mod Tests
use liop.Common.{
  ℕ, ◌+◌, String, Bool, true, false, Option, none, some, List, [], ◌∷◌, leb, eqb, ◌&&◌,
  if◌then◌else◌, coalesce, coalesce_to, text_equality, map, length,
}
use liop.Common.Dict
use liop.Common.Dict.{Dict}

pub data TransportProvider : Type 0 where
  http_gateway p2p_grpc local : TransportProvider

pub record ToolDefinition (S : Type 0) : Type 0 where
  pub name : String
  pub description : Option String
  pub input_schema : Option S

pub record ToolRoute (S : Type 0) : Type 0 where
  pub name : String
  pub provider : TransportProvider
  pub endpoint : String
  pub description : Option String
  pub input_schema : Option S
  pub latency_ms : ℕ
  pub fail_count : ℕ
  pub last_success : ℕ
  pub auth_required : Bool

abbrev pub tool_aliases : Dict String String
tool_aliases =
    ("bank_tool", "Analyze_Synthetic_Bank_Transactions")
    ∷ ("bank_tool_XDwd", "Analyze_Synthetic_Bank_Transactions")
    ∷ ("vault_tool", "Analyze_Synthetic_Medical_Records")
    ∷ ("vault_tool_E8wP", "Analyze_Synthetic_Medical_Records")
    ∷ ("oracle_tool", "Analyze_HFT_Market_Data")
    ∷ ("compute_aggregate", "Analyze_Synthetic_Bank_Transactions")
    ∷ []

-- `TOOL_ALIASES[name] || name`. A name that `Object.prototype` has too yields a function there,
-- which no route has for its key; `resolve` then looks for the name itself, as it does here.
unfoldable pub target_name : String → String
target_name name = coalesce_to (Dict.get name tool_aliases) name

abbrev pub is_gateway : TransportProvider → Bool
is_gateway http_gateway = true
is_gateway _ = false

abbrev pub max_failures : ℕ
max_failures = 5

-- `existing?.f`
abbrev pub of_existing {ℓ} :
    {S : Type 0} {A : Type ℓ} → (ToolRoute S → Option A) → Option (ToolRoute S) → Option A
of_existing f none = none
of_existing f (some r) = f r

module _ {S : Type 0} where
  -- The route that a registration over a transport writes.
  unfoldable pub remote_route :
      TransportProvider → String → Bool → ℕ → ToolDefinition S → Option (ToolRoute S) → ToolRoute S
  remote_route provider endpoint auth_required now tool existing = record {
    name = tool.name;
    provider = provider;
    endpoint = endpoint;
    description = coalesce tool.description (of_existing (λ r. r.description) existing);
    input_schema = coalesce tool.input_schema (of_existing (λ r. r.input_schema) existing);
    latency_ms = coalesce_to (of_existing (λ r. some r.latency_ms) existing) 0;
    fail_count = 0;
    last_success = coalesce_to (of_existing (λ r. some r.last_success) existing) now;
    auth_required = auth_required;
  }

  unfoldable pub register_gateway_tools :
      List (ToolDefinition S)
      → String
      → Bool
      → ℕ
      → Dict String (ToolRoute S)
      → Dict String (ToolRoute S)
  register_gateway_tools [] endpoint auth now routes = routes
  register_gateway_tools (tool ∷ tools) endpoint auth now routes =
      register_gateway_tools tools endpoint auth now (
        Dict.set tool.name
          (remote_route http_gateway endpoint auth now tool (Dict.get tool.name routes)) routes)

  -- `existing && existing.provider === "http-gateway" && existing.failCount === 0`
  abbrev pub is_healthy_gateway : Option (ToolRoute S) → Bool
  is_healthy_gateway none = false
  is_healthy_gateway (some r) = is_gateway r.provider && eqb r.fail_count 0

  -- The body of the loop of `registerMeshTools`; its `continue` keeps the table.
  unfoldable pub register_mesh_tool :
      ToolDefinition S → String → Bool → ℕ → Dict String (ToolRoute S) → Dict String (ToolRoute S)
  register_mesh_tool tool target auth now routes =
      if is_healthy_gateway (Dict.get tool.name routes)
      then routes
      else Dict.set tool.name
          (remote_route p2p_grpc target auth now tool (Dict.get tool.name routes)) routes

  unfoldable pub register_mesh_tools :
      List (ToolDefinition S)
      → String
      → Bool
      → ℕ
      → Dict String (ToolRoute S)
      → Dict String (ToolRoute S)
  register_mesh_tools [] target auth now routes = routes
  register_mesh_tools (tool ∷ tools) target auth now routes =
      register_mesh_tools tools target auth now (register_mesh_tool tool target auth now routes)

  unfoldable pub register_local_tool :
      ToolDefinition S → ℕ → Dict String (ToolRoute S) → Dict String (ToolRoute S)
  register_local_tool tool now routes =
      Dict.set tool.name
        (record {
          name = tool.name;
          provider = local;
          endpoint = "in-process";
          description = tool.description;
          input_schema = tool.input_schema;
          latency_ms = 0;
          fail_count = 0;
          last_success = now;
          auth_required = false;
        })
        routes

  abbrev warned : Option (ToolRoute S) → Option (ToolRoute S × Bool)
  warned none = none
  warned (some r) = some (r, leb max_failures r.fail_count)

  -- The route, and whether the open circuit is warned of.
  unfoldable pub resolve : String → Dict String (ToolRoute S) → Option (ToolRoute S × Bool)
  resolve name routes =
      warned (coalesce (Dict.get (target_name name) routes) (Dict.get name routes))

  abbrev update_route :
      String
      → (ToolRoute S → ToolRoute S)
      → Option (ToolRoute S)
      → Dict String (ToolRoute S)
      → Dict String (ToolRoute S)
  update_route name f none routes = routes
  update_route name f (some r) routes = Dict.set name (f r) routes

  unfoldable pub record_success :
      String → ℕ → ℕ → Dict String (ToolRoute S) → Dict String (ToolRoute S)
  record_success name latency now routes =
      update_route name (λ r. record r { fail_count = 0; latency_ms = latency; last_success = now })
        (Dict.get name routes) routes

  unfoldable pub record_failure : String → Dict String (ToolRoute S) → Dict String (ToolRoute S)
  record_failure name routes =
      update_route name (λ r. record r { fail_count = r.fail_count + 1 }) (Dict.get name routes)
        routes

  -- The list that `getAllToolDefinitions` builds, before `list.sort`.
  unfoldable pub all_definitions : Dict String (ToolRoute S) → List (ToolDefinition S)
  all_definitions [] = []
  all_definitions ((k, r) ∷ routes) =
      record { name = r.name; description = r.description; input_schema = r.input_schema }
      ∷ all_definitions routes

  -- `sort` is the engine's `Array.prototype.sort` with `localeCompare` on the names.
  unfoldable pub get_all_tool_definitions :
      (List (ToolDefinition S) → List (ToolDefinition S))
      → Dict String (ToolRoute S)
      → List (ToolDefinition S)
  get_all_tool_definitions sort routes = sort (all_definitions routes)

  abbrev pub get_route : String → Dict String (ToolRoute S) → Option (ToolRoute S)
  get_route name routes = Dict.get name routes

  abbrev pub size : Dict String (ToolRoute S) → ℕ
  size routes = length routes

abbrev pub clear {ℓ} : {R : Type ℓ} → Dict String R → Dict String R
clear routes = []
