-- ===== src/Sandbox.antt =====
-- What a sandbox is given (sdks/typescript/src/sandbox/wasi.ts): its environment, and the fuel that the
-- syntax of the logic costs. The parser is a parameter: it gives the nodes that the walk visits.
pub mod Environment
pub mod Fuel
mod Tests
use liop.Common.{
  ℕ, ◌+◌, ◌*◌, ◌/◌, ◌≡◌, String, Bool, true, false, not, Option, none, some, List, [], ◌∷◌,
  if◌then◌else◌, eqb, text_equality, ◌==◌,
}
use liop.Common.Bytes.{is_prefix}
use liop.Common.Text.{codes}
use liop.Common.Dict
use liop.Common.Dict.{Dict}

abbrev windows_keys : List String
windows_keys =
    "APPDATA" ∷ "HOMEDRIVE" ∷ "HOMEPATH" ∷ "LOCALAPPDATA" ∷ "PATH" ∷ "PROCESSOR_ARCHITECTURE"
    ∷ "SYSTEMDRIVE" ∷ "SYSTEMROOT" ∷ "TEMP" ∷ "USERNAME" ∷ "USERPROFILE" ∷ "PROGRAMFILES" ∷ []

abbrev posix_keys : List String
posix_keys = "HOME" ∷ "LOGNAME" ∷ "PATH" ∷ "SHELL" ∷ "TERM" ∷ "USER" ∷ []

abbrev pub safe_keys : Bool → List String
safe_keys is_windows = if is_windows then windows_keys else posix_keys

-- `val.startsWith("()")`
abbrev pub is_function : List ℕ → Bool
is_function value = is_prefix (codes "()") value

abbrev pub copy : String → Option (List ℕ) → Dict String (List ℕ) → Dict String (List ℕ)
copy key none env = env
copy key (some value) env = if is_function value then env else Dict.set key value env

-- The loop; `process` is `process.env`.
unfoldable pub copy_all :
    (String → Option (List ℕ)) → List String → Dict String (List ℕ) → Dict String (List ℕ)
copy_all process [] env = env
copy_all process (key ∷ keys) env = copy_all process keys (copy key (process key) env)

abbrev pub base_environment : Dict String (List ℕ)
base_environment = ("NODE_ENV", codes "production") ∷ ("LIOP_NODE", codes "true") ∷ []

unfoldable pub get_default_environment : Bool → (String → Option (List ℕ)) → Dict String (List ℕ)
unfolding copy_all
get_default_environment is_windows process =
    copy_all process (safe_keys is_windows) base_environment

-- The nodes that count, with the numbers of their parts.
pub data AstNode : Type 0 where
  identifier : AstNode
  literal : AstNode
  binary_expression : AstNode
  unary_expression : AstNode
  logical_expression : AstNode
  variable_declaration : (declarations : ℕ) → AstNode
  assignment_expression : AstNode
  member_expression : AstNode
  object_expression : (properties : ℕ) → AstNode
  array_expression : (elements : ℕ) → AstNode
  call_expression : (arguments : ℕ) → AstNode
  function_declaration : AstNode
  function_expression : AstNode
  arrow_function_expression : AstNode
  if_statement : AstNode
  switch_statement : AstNode
  for_statement : AstNode
  for_in_statement : AstNode
  for_of_statement : AstNode
  while_statement : AstNode
  do_while_statement : AstNode
  try_statement : AstNode
  return_statement : AstNode
  other_node : AstNode

abbrev or_one : ℕ → ℕ
or_one n = if eqb n 0 then 1 else n

unfoldable pub cost : AstNode → ℕ
cost identifier = 1
cost literal = 1
cost binary_expression = 2
cost unary_expression = 2
cost logical_expression = 2
cost (variable_declaration n) = 5 * or_one n
cost assignment_expression = 3
cost member_expression = 3
cost (object_expression n) = 5 + n * 2
cost (array_expression n) = 5 + n * 2
cost (call_expression n) = 10 + n * 2
cost function_declaration = 20
cost function_expression = 15
cost arrow_function_expression = 15
cost if_statement = 5
cost switch_statement = 10
cost for_statement = 50
cost for_in_statement = 50
cost for_of_statement = 50
cost while_statement = 50
cost do_while_statement = 50
cost try_statement = 15
cost return_statement = 2
cost other_node = 0

unfoldable pub score_from : ℕ → List AstNode → ℕ
unfolding cost
score_from score [] = score
score_from score (n ∷ ns) = score_from (score + cost n) ns

-- `Math.ceil(score / 100) * 100`
abbrev pub bucket : ℕ → ℕ
bucket score = (score + 99) / 100 * 100

abbrev by_nodes : Option (List AstNode) → ℕ
by_nodes none = 500
by_nodes (some nodes) = bucket (score_from 100 nodes)

unfoldable pub calculate_ast_instruction_fuel : (List ℕ → Option (List AstNode)) → List ℕ → ℕ
unfolding score_from
calculate_ast_instruction_fuel parse code = by_nodes (parse code)
