-- ===== src/Backoff/Tests.antt =====
-- A peer that fails three times.
use liop.Common.{◌≡◌, refl, true, false, List, [], ◌∷◌, arith, text_equality, ne_of_beq}
use liop.Common.Dict
use liop.Backoff.{manifest_query, Failures, should_skip, skip_with}
use liop.Backoff.History.{Event, asks, fails, answers, run, is_cooling, recall_all, should_skip-run}
use liop.Backoff.Throttle.{log_throttled}

abbrev troubles : List Event
troubles =
    fails "p" 1000
    ∷ answers "p"
    ∷ fails "p" 40000
    ∷ asks "p" 41000
    ∷ fails "q" 42000
    ∷ fails "p" 60000
    ∷ []

should_skip-run_example :
    (should_skip manifest_query "p" 89999 (run manifest_query [] troubles)).1.skipped
    ≡ is_cooling manifest_query 89999 (recall_all "p" (0, 0) troubles)
should_skip-run_example = should_skip-run manifest_query "p" troubles 89999

abbrev failed_once : Failures
failed_once = ("p", record { failures = 1; cooldown_until = 115000; last_skip_log_at = 0 }) ∷ []

logs : (should_skip manifest_query "p" 100000 failed_once).1.logged ≡ true
unfolding should_skip skip_with Dict.get
logs = refl

log_throttled_example :
    (should_skip manifest_query "p" 110000 (
      run manifest_query
        (should_skip manifest_query "p" 100000 failed_once).0
        (fails "q" 105000 ∷ []))).1.logged
    ≡ false
log_throttled_example =
    log_throttled manifest_query "p" 100000 failed_once (fails "q" 105000 ∷ []) 110000 logs
      ((ne_of_beq "q" "p" refl), tt) (omega arith)
