-- ===== src/Egress/Stream/Required.antt =====
-- A client's mode goes before the policy's.
use liop.Common.{◌≡◌, refl, some, none}
use liop.Egress.{
  Server, LogicExecutionPolicy, WorkerResponse, ZkMode, no_zk, required, hmac_legacy, reason_told,
  proof_unavailable, zk_optimistic, stream_check, validate_output_policy,
}
use liop.Egress.Stream.{Calls, told, error_response, answer_stream, answer_tool, answer_checks}

module _ {F N : Type 0} where
  abbrev pub with_mode : ZkMode → LogicExecutionPolicy F N → LogicExecutionPolicy F N
  with_mode mode p = record p { zk_mode = mode }

module _ {F N : Type 0} (s : Server F N) (calls : Calls F) where
  -- Under a policy that requires proofs, a response with an HMAC receipt is refused to a client that asks
  -- for no mode; to a client that asks for the optimistic mode it is answered as under a policy that asks
  -- for no proofs to one that asks for no mode.
  pub optimistic_overrides :
      (p : LogicExecutionPolicy F N) (r : WorkerResponse F)
      → r.proof_type ≡ hmac_legacy
      → (answer_stream s calls none (some (with_mode required p)) r
          ≡ error_response (told (reason_told proof_unavailable)))
        × (answer_stream s calls (some zk_optimistic) (some (with_mode required p)) r
            ≡ answer_stream s calls none (some (with_mode no_zk p)) r)
  unfolding answer_stream answer_tool answer_checks stream_check validate_output_policy
  optimistic_overrides p r bare = (rw bare refl, refl)
