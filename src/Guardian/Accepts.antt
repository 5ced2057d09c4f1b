-- ===== src/Guardian/Accepts.antt =====
-- Which modules the checks let through.
use liop.Common.{
  ℕ, ◌+◌, ◌≤◌, ◌≡◌, ◌↔◌, true, List, [], ◌∷◌, arith, length, ltb, ltb→ge, Bool-cases, inl, inr, All,
  text_equality,
}
use liop.Guardian.{
  Import, passed, is_allowed, is_wasi, is_host, analyze, analyze_from, analyze_ast, scan_imports,
  Compiled, compiled, invalid,
}

-- An allowed function of WASI.
abbrev pub IsSafe : Import → Type 0
IsSafe imp = (is_wasi imp ≡ true) × (is_allowed imp.name ≡ true)

-- A function of WASI or of LIOP.
abbrev pub IsHost : Import → Type 0
IsHost imp = is_host imp ≡ true

analyze_from_iff :
    (count : ℕ) (imports : List Import)
    → count ≤ 128
    → (analyze_from count imports ≡ passed) ↔ (All IsSafe imports × (count + length imports ≤ 128))
unfolding analyze_from
analyze_from_iff count [] h = ground arith
analyze_from_iff count (imp ∷ imports) h = elim (Bool-cases (is_wasi imp)) [
  | inr host ↦ rw host (ground arith)
  | inl wasi ↦ elim (Bool-cases (is_allowed imp.name)) [
    | inr banned ↦ rw (wasi, banned) (ground arith)
    | inl allowed ↦ elim (Bool-cases (ltb 128 (count + 1))) [
      | inl over ↦ rw (wasi, allowed, over) (ground arith)
      | inr under ↦
          let rest = analyze_from_iff (count + 1) imports (ltb→ge 128 (count + 1) under) in
          rw (wasi, allowed, under) (ground (arith, rest))
    ]
  ]
]

-- The sandbox's guardian lets a module through exactly when all its imports are allowed functions of
-- WASI and there are at most 128.
pub analyze_iff :
    (imports : List Import)
    → (analyze imports ≡ passed) ↔ (All IsSafe imports × (length imports ≤ 128))
unfolding analyze
analyze_iff imports = ground (arith, analyze_from_iff 0 imports (omega arith))

-- It compiles, and each import is of WASI or of LIOP.
abbrev pub Hosted : Compiled → Type 0
Hosted (compiled imports) = All IsHost imports
Hosted (invalid why) = ⊥

scan_imports_iff : (imports : List Import) → (scan_imports imports ≡ passed) ↔ All IsHost imports
unfolding scan_imports
scan_imports_iff [] = ground arith
scan_imports_iff (imp ∷ imports) = ground (arith, scan_imports_iff imports)

-- The other guardian lets bytes through exactly when they compile and each import of the module is of
-- WASI or of LIOP.
pub analyze_ast_iff : (c : Compiled) → (analyze_ast c ≡ passed) ↔ Hosted c
unfolding analyze_ast
analyze_ast_iff (compiled imports) = scan_imports_iff imports
analyze_ast_iff (invalid why) = ground arith

safe-IsHost : (imports : List Import) → All IsSafe imports → All IsHost imports
unfolding is_host
safe-IsHost [] h = tt
safe-IsHost (imp ∷ imports) (s, h) = (ground arith, safe-IsHost imports h)

-- A module that the sandbox's guardian lets through is let through by the other one.
pub analyze_ast-analyze :
    (imports : List Import) → analyze imports ≡ passed → analyze_ast (compiled imports) ≡ passed
analyze_ast-analyze imports h =
    (analyze_ast_iff (compiled imports)).1 (safe-IsHost imports ((analyze_iff imports).0 h).0)
