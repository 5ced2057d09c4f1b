-- ===== src/Backoff.antt =====
-- The cooldowns of failing peers: `shouldSkipManifestQuery`, `recordManifestQueryFailure` and
-- `recordManifestQuerySuccess` of sdks/typescript/src/gateway/router.ts, and `shouldSkipManifestDial`,
-- `recordManifestDialFailure` and `clearManifestDialFailure` of sdks/typescript/src/mesh/node.ts, which
-- are the same code with other constants. The line that is logged is a flag.
pub mod History
pub mod Throttle
mod Tests
use liop.Common.{
  ℕ, ◌+◌, ◌-◌, ◌*◌, ◌^◌, min, String, Bool, true, false, Option, none, some, if◌then◌else◌, leb,
  ltb, text_equality,
}
use liop.Common.Dict
use liop.Common.Dict.{Dict}

pub record Cooldown : Type 0 where
  pub base_ms : ℕ
  pub max_ms : ℕ
  pub log_throttle_ms : ℕ

abbrev pub manifest_query : Cooldown
manifest_query = record { base_ms = 15000; max_ms = 5 * 60000; log_throttle_ms = 30000 }

abbrev pub manifest_dial : Cooldown
manifest_dial = record { base_ms = 10000; max_ms = 2 * 60000; log_throttle_ms = 30000 }

pub record FailureState : Type 0 where
  pub failures : ℕ
  pub cooldown_until : ℕ
  pub last_skip_log_at : ℕ

abbrev pub Failures : Type 0
Failures = Dict String FailureState

-- What `shouldSkip...` answers, and whether it logs.
pub record Skip : Type 0 where
  pub skipped : Bool
  pub logged : Bool

abbrev pub go_on : Skip
go_on = record { skipped = false; logged = false }

module _ (k : Cooldown) where
  -- From the lookup on. The time of the log line is written to the state of the peer in its place.
  unfoldable pub skip_with : String → ℕ → Failures → Option FailureState → Failures × Skip
  skip_with peer now m none = (m, go_on)
  skip_with peer now m (some s) =
      if leb s.cooldown_until now
      then (m, go_on)
      else if ltb k.log_throttle_ms (now - s.last_skip_log_at)
      then (
        Dict.set peer (record s { last_skip_log_at = now }) m,
        record { skipped = true; logged = true },
      )
      else (m, record { skipped = true; logged = false })

  unfoldable pub should_skip : String → ℕ → Failures → Failures × Skip
  unfolding skip_with
  should_skip peer now m = skip_with peer now m (Dict.get peer m)

  -- `(prev?.failures || 0) + 1`
  abbrev pub next_count : Option FailureState → ℕ
  next_count none = 1
  next_count (some s) = s.failures + 1

  -- `Math.min(BASE * 2 ** Math.max(0, failures - 1), MAX)`
  abbrev pub backoff : ℕ → ℕ
  backoff failures = min (k.base_ms * 2 ^ (failures - 1)) k.max_ms

  unfoldable pub record_failure : String → ℕ → Failures → Failures
  record_failure peer now m =
      let failures = next_count (Dict.get peer m) in
      Dict.set peer
        (record {
          failures = failures;
          cooldown_until = now + backoff failures;
          last_skip_log_at = 0;
        })
        m

-- `recordManifestQuerySuccess`, `clearManifestDialFailure`
unfoldable pub record_success : String → Failures → Failures
record_success peer m = Dict.delete peer m
