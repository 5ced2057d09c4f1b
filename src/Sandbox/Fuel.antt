-- ===== src/Sandbox/Fuel.antt =====
-- The fuel of an execution.
use liop.Common.{ℕ, ◌+◌, ◌%◌, ◌≤◌, ◌<◌, ◌≡◌, Option, some, List, [], ◌∷◌, arith}
use liop.Sandbox.{AstNode, cost, score_from, bucket, calculate_ast_instruction_fuel}

-- The costs of all nodes, and those of the start.
abbrev pub total : List AstNode → ℕ
total [] = 100
total (n ∷ ns) = cost n + total ns

score_from-total : (score : ℕ) (ns : List AstNode) → score_from score ns + 100 ≡ score + total ns
unfolding score_from
score_from-total score [] = omega arith
score_from-total score (n ∷ ns) = omega (arith, score_from-total (score + cost n) ns)

total-positive : (ns : List AstNode) → 100 ≤ total ns
total-positive [] = omega arith
total-positive (n ∷ ns) = omega (arith, total-positive ns)

bucket-bounds :
    (score : ℕ) → (bucket score % 100 ≡ 0) × (score ≤ bucket score) × (bucket score < score + 100)
bucket-bounds score = (omega arith, omega arith, omega arith)

-- The fuel of logic that parses is a multiple of 100, covers the costs of all its nodes with those of the
-- start, 100 at least, and exceeds them by less than 100.
pub fuel_bounds :
    (parse : List ℕ → Option (List AstNode)) (code : List ℕ) (nodes : List AstNode)
    → parse code ≡ some nodes
    → let fuel = calculate_ast_instruction_fuel parse code in
      (fuel % 100 ≡ 0) × (100 ≤ fuel) × (total nodes ≤ fuel) × (fuel < total nodes + 100)
unfolding calculate_ast_instruction_fuel
fuel_bounds parse code nodes parsed =
    let score : score_from 100 nodes ≡ total nodes = omega (arith, score_from-total 100 nodes) in
    let bounds = bucket-bounds (total nodes) in
    rw (parsed, score) (bounds.0, omega (arith, total-positive nodes), bounds.1, bounds.2)
