-- ===== src/AuditLogger.antt =====
-- `AuditLogger` (sdks/typescript/src/security/audit-logger.ts), a log in which each entry holds the
-- hash of the one before it. The SHA-256 of an entry's canonical JSON, the JSON of a file's line and
-- the test for a blank line belong to the platform: they are the fields of `Platform`. The file is
-- the list of its lines. Random ids and the time are arguments.
pub mod Chain
pub mod Tamper
pub mod Restart
mod Tests
use liop.Common.{
  ℕ, zero, suc, ◌+◌, String, Bool, true, false, not, Option, none, some, List, [], ◌∷◌, ◌++◌,
  if◌then◌else◌, str_or, length, filter, ◌==◌, text_equality, map,
}
use liop.Common.Text.{join}

pub data AuditStatus : Type 0 where
  success blocked_egress error policy_violation taint_analysis_violation : AuditStatus

-- `Omit<AuditEntry, "entryHash">`
pub record PartialEntry : Type 0 where
  pub id : String
  pub timestamp : String
  pub trace_id : String
  pub agent_did : String
  pub peer_id : String
  pub tool_name : String
  pub dataset_hash : String
  pub fuel_consumed : ℕ
  pub output_hash : String
  pub zk_receipt_sig : String
  pub status : AuditStatus
  pub prev_entry_hash : String

pub record AuditEntry : Type 0 where
  pub partial : PartialEntry
  pub entry_hash : String

pub record AuditRecordParams : Type 0 where
  pub timestamp : Option String
  pub trace_id : Option String
  pub agent_did : String
  pub peer_id : String
  pub tool_name : String
  pub dataset_hash : Option String
  pub fuel_consumed : ℕ
  pub output_hash : Option String
  pub zk_receipt_sig : Option String
  pub status : AuditStatus

-- What the platform gives: `computeEntryHash`'s SHA-256 over the canonical JSON, the SHA-256 of "",
-- `JSON.stringify` and `JSON.parse` of a line, and `l.trim().length > 0`.
pub record Platform : Type 0 where
  pub compute_entry_hash : PartialEntry → String
  pub empty_hash : String
  pub stringify : AuditEntry → String
  pub parse : String → AuditEntry
  pub is_line : String → Bool

-- What the constructor and the clock give a call.
pub record Context : Type 0 where
  pub uuid : String
  pub now : String
  pub random_trace : String

abbrev pub genesis_hash : String
genesis_hash = "0000000000000000000000000000000000000000000000000000000000000000"

-- `file` is the content of `filePath`, if one was given.
pub record Logger : Type 0 where
  pub entries : List AuditEntry
  pub last_entry_hash : String
  pub file : Option (List String)

pub data Reason : Type 0 where
  broken_chain hash_mismatch : Reason

pub data Integrity : Type 0 where
  valid : (total_entries : ℕ) → Integrity
  broken : (total_entries broken_index : ℕ) → Reason → Integrity

module _ (p : Platform) where
  -- The loop of `loadFromFile`, on the lines that are not blank.
  unfoldable pub load_lines : List String → Logger → Logger
  load_lines [] l = l
  load_lines (line ∷ lines) l =
      let entry = p.parse line in
      load_lines lines
        (record l { entries = l.entries ++ entry ∷ []; last_entry_hash = entry.entry_hash })

  -- The constructor: no file, or a file that may exist with the given lines.
  unfoldable pub init : Option (Option (List String)) → Logger
  init none = record { entries = []; last_entry_hash = genesis_hash; file = none }
  init (some none) = record { entries = []; last_entry_hash = genesis_hash; file = some [] }
  init (some (some lines)) =
      load_lines (filter p.is_line lines)
        (record { entries = []; last_entry_hash = genesis_hash; file = some lines })

  -- The entry that `recordExecution` builds, before its hash.
  unfoldable pub partial_entry : Context → AuditRecordParams → String → PartialEntry
  partial_entry c params prev = record {
    id = c.uuid;
    timestamp = str_or params.timestamp c.now;
    trace_id = str_or params.trace_id c.random_trace;
    agent_did = params.agent_did;
    peer_id = params.peer_id;
    tool_name = params.tool_name;
    dataset_hash = str_or params.dataset_hash p.empty_hash;
    fuel_consumed = params.fuel_consumed;
    output_hash = str_or params.output_hash p.empty_hash;
    zk_receipt_sig = str_or params.zk_receipt_sig "";
    status = params.status;
    prev_entry_hash = prev;
  }

  abbrev pub seal : PartialEntry → AuditEntry
  seal e = record { partial = e; entry_hash = p.compute_entry_hash e }

  abbrev append_line : AuditEntry → Option (List String) → Option (List String)
  append_line e none = none
  append_line e (some lines) = some (lines ++ p.stringify e ∷ [])

  -- The interceptor gets a frozen copy afterwards and its result is dropped, so that it is no part of
  -- the state.
  unfoldable pub record_execution : Context → AuditRecordParams → Logger → Logger × AuditEntry
  record_execution c params l =
      let entry : AuditEntry = seal (partial_entry c params l.last_entry_hash) in
      (
        record {
          entries = l.entries ++ entry ∷ [];
          last_entry_hash = entry.entry_hash;
          file = append_line entry l.file;
        },
        entry,
      )

  -- The loop of `verifyIntegrity` from index `i` on.
  unfoldable pub verify_from : ℕ → ℕ → String → List AuditEntry → Integrity
  verify_from total i expected [] = valid total
  verify_from total i expected (e ∷ es) =
      let rest = verify_from total (i + 1) e.entry_hash es in
      if e.partial.prev_entry_hash == expected
      then (if p.compute_entry_hash e.partial == e.entry_hash
          then rest
          else broken total i hash_mismatch)
      else broken total i broken_chain

  unfoldable pub verify_integrity : Logger → Integrity
  unfolding verify_from
  verify_integrity l = verify_from (length l.entries) 0 genesis_hash l.entries

  unfoldable pub export_jsonl : Logger → String
  export_jsonl l = join "\n" (map p.stringify l.entries)

abbrev pub get_entries : Logger → List AuditEntry
get_entries l = l.entries

abbrev pub get_entry_count : Logger → ℕ
get_entry_count l = length l.entries
