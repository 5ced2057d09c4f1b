-- ===== src/AuditLogger/Tests.antt =====
-- Logs over a platform whose hash keeps every text that the tests vary.
use liop.Common.{
  ◌+◌, String, ◌≡◌, refl, ◌↔◌, ◌⊎◌, not, none, some, List, [], ◌∷◌, length, text_equality, ◌==◌,
}
use liop.Common.Text.{◌+++◌}
use liop.AuditLogger.{
  record_execution, Platform, Context, AuditRecordParams, PartialEntry, AuditEntry, success, Logger,
  valid, genesis_hash, init, verify_integrity, partial_entry, seal,
}
use liop.AuditLogger.Chain.{
  IsChain, IsSound, record_all, verify_integrity_iff, verify_integrity-record_all,
}
use liop.AuditLogger.Tamper.{Weakness, tamper_evident}

abbrev only : PartialEntry
only = record {
  id = "1";
  timestamp = "2026";
  trace_id = "r";
  agent_did = "did";
  peer_id = "p";
  tool_name = "t";
  dataset_hash = "e3b0";
  fuel_consumed = 3;
  output_hash = "o";
  zk_receipt_sig = "";
  status = success;
  prev_entry_hash = genesis_hash;
}

-- `parse` knows one line.
abbrev platform : Platform
platform = record {
  compute_entry_hash = λ e. "h" +++ e.id +++ e.prev_entry_hash;
  empty_hash = "e3b0";
  stringify = λ e. "{}";
  parse = λ line. record { partial = only; entry_hash = "h1" +++ genesis_hash };
  is_line = λ line. not (line == "");
}

abbrev context : String → Context
context id = record { uuid = id; now = "2026"; random_trace = "r" }

abbrev params : AuditRecordParams
params = record {
  timestamp = none;
  trace_id = some "";
  agent_did = "did";
  peer_id = "p";
  tool_name = "t";
  dataset_hash = none;
  fuel_consumed = 3;
  output_hash = some "o";
  zk_receipt_sig = none;
  status = success;
}

abbrev calls : List (Context × AuditRecordParams)
calls = (context "1", params) ∷ (context "2", params) ∷ []

empty-IsSound : IsSound platform (init platform none)
unfolding init
empty-IsSound = record { chain = tt; last = refl }

verify_integrity_iff_example :
    (verify_integrity platform (record_all platform calls (init platform none))
      ≡ valid (length (record_all platform calls (init platform none)).entries))
    ↔ IsChain platform genesis_hash (record_all platform calls (init platform none)).entries
verify_integrity_iff_example =
    verify_integrity_iff platform (record_all platform calls (init platform none))

verify_integrity-record_all_example :
    verify_integrity platform (record_all platform calls (init platform none))
    ≡ valid (length (init platform none).entries + 2)
verify_integrity-record_all_example =
    verify_integrity-record_all platform calls (init platform none) empty-IsSound

abbrev first : AuditEntry
first = seal platform (partial_entry platform (context "1") params genesis_hash)

-- The second entry of the log, with its id changed and its hash kept.
abbrev second : AuditEntry
second = record {
  partial = partial_entry platform (context "3") params first.entry_hash;
  entry_hash = "h2";
}

abbrev tampered : Logger
tampered = record { entries = first ∷ second ∷ []; last_entry_hash = "h2"; file = none }

abbrev recorded : Logger
recorded = record_all platform calls (init platform none)

tamper_evident_example : (recorded.entries ≡ recorded.entries) ⊎ Weakness platform
unfolding record_all record_execution init
tamper_evident_example =
    tamper_evident platform calls (init platform none) recorded empty-IsSound
      (verify_integrity-record_all platform calls (init platform none) empty-IsSound) refl
