-- ===== src/Guardian/Tests.antt =====
-- Modules that write, and one that runs a shell.
use liop.Common.{◌≤◌, ◌≡◌, ◌↔◌, refl, List, [], ◌∷◌, length, All}
use liop.Guardian.{Import, passed, violation, analyze, analyze_ast, compiled}
use liop.Guardian.Accepts.{IsSafe, Hosted, analyze_iff, analyze_ast_iff, analyze_ast-analyze}

abbrev writer : List Import
writer =
    record { module_name = "wasi_snapshot_preview1"; name = "fd_write" }
    ∷ record { module_name = "wasi_snapshot_preview1"; name = "proc_exit" }
    ∷ []

abbrev shell : List Import
shell = record { module_name = "env"; name = "shell_exec" } ∷ []

analyze_iff_example : (analyze writer ≡ passed) ↔ (All IsSafe writer × (length writer ≤ 128))
analyze_iff_example = analyze_iff writer

writer_passes : analyze writer ≡ passed
unfolding analyze
writer_passes = refl

shell_banned : analyze shell ≡ violation "Banned Host Import Module Detected: env"
unfolding analyze
shell_banned = refl

analyze_ast_iff_example : (analyze_ast (compiled shell) ≡ passed) ↔ Hosted (compiled shell)
analyze_ast_iff_example = analyze_ast_iff (compiled shell)

analyze_ast-analyze_example : analyze_ast (compiled writer) ≡ passed
analyze_ast-analyze_example = analyze_ast-analyze writer writer_passes
