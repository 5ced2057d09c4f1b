-- ===== src/FieldBudget.antt =====
-- The query budget of fields in memory, of sdks/typescript/src/server/index.ts (`applyInMemoryBudget`,
-- phase 3 of `runPreflightPolicy` with no store, `resetFieldBudget`) and the tiers of
-- sdks/typescript/src/security/taint-analyzer.ts (`classifyField`). The fields of a piece of logic are
-- what `extractQueriedFields` gives: the names that a set holds. `lower` is `toLowerCase`.
pub mod Count
pub mod Bound
pub mod Disk
mod Tests
use liop.Common.{
  ℕ, ◌+◌, String, Bool, true, false, ◌&&◌, ◌||◌, Option, none, some, List, [], ◌∷◌, if◌then◌else◌,
  leb, ◌==◌, text_equality, map, any, coalesce_to, truthy,
}
use liop.Common.Dict
use liop.Common.Dict.{Dict}

pub data FieldSensitivity : Type 0 where
  forbidden : FieldSensitivity
  sensitive : FieldSensitivity
  public_field : FieldSensitivity

-- The parts of `LogicExecutionPolicy` that the budget reads.
pub record Policy : Type 0 where
  pub query_budget_per_field : Option ℕ
  pub sensitive_keys : List String

-- The names that the analyzer holds, in lower case.
pub record Analyzer : Type 0 where
  pub pii_fields : List String
  pub sensitive_keys : List String

abbrev pub includes : List String → String → Bool
includes names x = any (λ n. n == x) names

-- The budget of a client: for each tool, how often a field was asked for.
abbrev pub ToolBudget : Type 0
ToolBudget = Dict String ℕ

abbrev pub Budgets : Type 0
Budgets = Dict String (Dict String ToolBudget)

-- `Query budget exceeded for field ...`: the field, the limit and the word for its tier.
pub record Exceeded : Type 0 where
  pub field : String
  pub limit : ℕ
  pub label : String

pub data Verdict : Type 0 where
  accepted : Verdict
  exceeded : Exceeded → Verdict
  unsafe_names : Verdict

unfoldable pub charge : List String → ToolBudget → ToolBudget
charge [] budget = budget
charge (field ∷ fields) budget =
    charge fields (Dict.set field (coalesce_to (Dict.get field budget) 0 + 1) budget)

abbrev pub tool_budget : Budgets → String → String → ToolBudget
tool_budget s client tool = coalesce_to (Dict.get tool (coalesce_to (Dict.get client s) [])) []

-- The budgets of the client and the tool are made if they are absent, and changed in place.
unfoldable pub store : Budgets → String → String → ToolBudget → Budgets
store s client tool budget =
    Dict.set client (Dict.set tool budget (coalesce_to (Dict.get client s) [])) s

abbrev pub is_unsafe : String → Bool
is_unsafe name = (name == "__proto__") || (name == "constructor") || (name == "prototype")

-- What a verdict on the fields does to the budgets.
abbrev pub settle :
    Budgets → String → String → List String → ToolBudget → Verdict → Budgets × Verdict
settle s client tool fields budget accepted = (store s client tool (charge fields budget), accepted)
settle s client tool fields budget (exceeded e) = (store s client tool budget, exceeded e)
settle s client tool fields budget unsafe_names = (s, unsafe_names)

module _ (lower : String → String) (analyzer : Analyzer) where
  -- `policy?.sensitiveKeys`, which is `[]` by default
  abbrev own_keys : Option Policy → List String
  own_keys none = []
  own_keys (some p) = p.sensitive_keys

  unfoldable pub classify_field : String → Option Policy → FieldSensitivity
  classify_field field policy =
      let own = own_keys policy in
      if includes analyzer.pii_fields (lower field)
      then forbidden
      else if includes analyzer.sensitive_keys (lower field)
          || includes (map lower own) (lower field)
      then sensitive
      else public_field

  abbrev tier_limit : FieldSensitivity → ℕ × String
  tier_limit forbidden = (3, "forbidden")
  tier_limit sensitive = (8, "sensitive")
  tier_limit public_field = (25, "public")

  -- `policy?.queryBudgetPerField`
  abbrev override : Option Policy → Option ℕ
  override none = none
  override (some p) = p.query_budget_per_field

  unfoldable pub query_limit : Option Policy → String → ℕ × String
  unfolding classify_field
  query_limit policy field = elim (override policy) [
    | none ↦ tier_limit (classify_field field policy)
    | some n ↦ (n, "override")
  ]

  -- The first field of which the budget is spent.
  unfoldable pub check_fields : Option Policy → ToolBudget → List String → Verdict
  check_fields policy budget [] = accepted
  check_fields policy budget (field ∷ fields) =
      let rest = check_fields policy budget fields in
      let tier = query_limit policy field in
      if leb tier.0 (coalesce_to (Dict.get field budget) 0)
      then exceeded (record { field = field; limit = tier.0; label = tier.1 })
      else rest

  unfoldable pub apply_in_memory_budget :
      Budgets → String → String → List String → Option Policy → Budgets × Verdict
  unfolding check_fields charge store
  apply_in_memory_budget s client tool fields policy =
      let budget = tool_budget s client tool in
      settle s client tool fields budget (check_fields policy budget fields)

  -- Phase 3 of `runPreflightPolicy` without a store; the phases before it may refuse logic first.
  unfoldable pub preflight :
      Budgets → String → String → List String → Option Policy → Budgets × Verdict
  unfolding apply_in_memory_budget
  preflight s client tool [] policy = (s, accepted)
  preflight s client tool (f ∷ fs) policy =
      if is_unsafe client || is_unsafe tool
      then (s, unsafe_names)
      else apply_in_memory_budget s client tool (f ∷ fs) policy

abbrev pub delete_tool : String → String → Option (Dict String ToolBudget) → Budgets → Budgets
delete_tool client tool none s = s
delete_tool client tool (some budget) s = Dict.set client (Dict.delete tool budget) s

-- An empty name of a tool is as none.
abbrev pub reset_memory : Budgets → String → Option String → Budgets
reset_memory s client none = Dict.delete client s
reset_memory s client (some tool) =
    if truthy (some tool)
    then delete_tool client tool (Dict.get client s) s
    else Dict.delete client s

unfoldable pub reset_field_budget : Budgets → String → Option String → Budgets
reset_field_budget s client tool =
    let rest = reset_memory s client tool in
    if is_unsafe client || (truthy tool && is_unsafe (coalesce_to tool "")) then s else rest
