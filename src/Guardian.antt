-- ===== src/Guardian.antt =====
-- The import checks of a WebAssembly module: `ASTGuardian.analyze` of
-- sdks/typescript/src/sandbox/guardian.ts and `GuardianTS.analyzeAst` of
-- sdks/typescript/src/security/guardian.ts. What the engine says of the bytes, the imports of a module
-- that it compiles or why it does not, is an argument.
pub mod Accepts
mod Tests
use liop.Common.{
  ℕ, ◌+◌, String, Bool, true, false, Option, none, some, List, [], ◌∷◌, if◌then◌else◌, ltb, any,
  ◌==◌, text_equality, ◌||◌,
}
use liop.Common.Text.{◌+++◌}

-- An entry of `WebAssembly.Module.imports(module)`.
pub record Import : Type 0 where
  pub module_name : String
  pub name : String

-- A check throws or goes through.
pub data Check : Type 0 where
  passed : Check
  violation : (message : String) → Check

abbrev pub allowed_wasi_functions : List String
allowed_wasi_functions =
    "fd_write" ∷ "fd_read" ∷ "fd_close" ∷ "fd_seek" ∷ "environ_get" ∷ "environ_sizes_get"
    ∷ "args_get" ∷ "args_sizes_get" ∷ "clock_time_get" ∷ "random_get" ∷ "proc_exit"
    ∷ "fd_prestat_get" ∷ "fd_prestat_dir_name" ∷ "fd_fdstat_get" ∷ []

unfoldable pub is_allowed : String → Bool
is_allowed name = any (λ f. f == name) allowed_wasi_functions

unfoldable pub is_wasi : Import → Bool
is_wasi imp = imp.module_name == "wasi_snapshot_preview1"

abbrev pub max_imports : ℕ
max_imports = 128

-- The loop of `ASTGuardian.analyze`, with the imports counted so far.
unfoldable pub analyze_from : ℕ → List Import → Check
unfolding is_wasi is_allowed
analyze_from count [] = passed
analyze_from count (imp ∷ imports) =
    let rest = analyze_from (count + 1) imports in
    if is_wasi imp
    then (if is_allowed imp.name
        then (if ltb max_imports (count + 1)
            then violation "Import limit exceeded. Possible resource exhaustion attack."
            else rest)
        else violation ("Banned WASI Import Detected: " +++ imp.module_name +++ "/" +++ imp.name))
    else violation ("Banned Host Import Module Detected: " +++ imp.module_name)

unfoldable pub analyze : List Import → Check
unfolding analyze_from
analyze imports = analyze_from 0 imports

-- `imp.module === "wasi_snapshot_preview1" || imp.module === "LIOP"`
unfoldable pub is_host : Import → Bool
unfolding is_wasi
is_host imp = is_wasi imp || (imp.module_name == "LIOP")

-- The loop of `GuardianTS.analyzeAst`.
unfoldable pub scan_imports : List Import → Check
unfolding is_host
scan_imports [] = passed
scan_imports (imp ∷ imports) =
    let rest = scan_imports imports in
    if is_host imp
    then rest
    else violation ("Banned Host Import Detected: " +++ imp.module_name +++ "/" +++ imp.name)

-- What `WebAssembly.compile` gives.
pub data Compiled : Type 0 where
  compiled : (imports : List Import) → Compiled
  invalid : (message : String) → Compiled

unfoldable pub analyze_ast : Compiled → Check
unfolding scan_imports
analyze_ast (compiled imports) = scan_imports imports
analyze_ast (invalid why) = violation ("Payload structurally invalid or potential bomb: " +++ why)
