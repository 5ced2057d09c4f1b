-- ===== src/Egress/Stream/Unscanned.antt =====
-- What the checks of a tool's result do not see.
use liop.Common.{Bool, if◌then◌else◌, Option, none, some}
use liop.Common.Text.{codes}
use liop.Value.{Value, Entries, entry, object}
use liop.Egress.Stream.{Evidence, Streamed, responds, unfinished_stream}

module _ {F : Type 0} where
  -- An object with a result beside other fields.
  abbrev pub computed : Value F → Entries F → Value F
  computed v es = object (entry (codes "computation_result") v es)

-- Whether a response is an error.
abbrev pub failed : Streamed → Option Bool
failed (responds r) = some r.is_error
failed unfinished_stream = none

-- What a client reads that is not an error.
abbrev pub sent : Streamed → Option Evidence
sent (responds r) = if r.is_error then none else some r.semantic_evidence
sent unfinished_stream = none
