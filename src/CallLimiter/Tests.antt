-- ===== src/CallLimiter/Tests.antt =====
-- Two calls a minute of each tool and three in all.
use liop.Common.{
  filter, ℕ, ◌≤◌, ◌<◌, ◌≡◌, ◌↔◌, refl, String, Bool, true, none, List, [], ◌∷◌, arith,
}
use liop.Common.Dict
use liop.CallLimiter.{Call, call_tool, check_tool_call_rate_limit}
use liop.CallLimiter.Refines.{answers, ideal_answers, answers-ideal_answers}
use liop.CallLimiter.Window.{within, recent}
use liop.CallLimiter.Quota.{
  fresh, run, tool_history, global_history, last_time, InOrder, quota_sliding,
  check_tool_call_rate_limit_iff,
}

abbrev any_tool : String → Bool
any_tool name = true

abbrev burst : List Call
burst =
    record { name = "read"; global_now = 10; tool_now = 10 }
    ∷ record { name = "read"; global_now = 20; tool_now = 21 }
    ∷ record { name = "read"; global_now = 30; tool_now = 30 }
    ∷ record { name = "write"; global_now = 40; tool_now = 40 }
    ∷ record { name = "read"; global_now = 60015; tool_now = 60015 }
    ∷ []

burst-InOrder : InOrder 0 burst
burst-InOrder = ground arith

quota_sliding_example :
    ((a : ℕ) → within 60000 a (tool_history any_tool "read" (fresh 2 60000 3) burst []) ≤ 2)
    × ((a : ℕ) → within 60000 a (global_history any_tool (fresh 2 60000 3) burst []) ≤ 3)
quota_sliding_example = quota_sliding any_tool "read" 2 60000 3 burst burst-InOrder

check_tool_call_rate_limit_iff_example :
    ((check_tool_call_rate_limit (run any_tool (fresh 2 60000 3) burst) "read" 60016).1 ≡ none)
    ↔ (recent 60000 60016 (tool_history any_tool "read" (fresh 2 60000 3) burst []) < 2)
unfolding last_time
check_tool_call_rate_limit_iff_example =
    check_tool_call_rate_limit_iff any_tool "read" 2 60000 3 burst burst-InOrder 60016 (omega arith)

-- The third call is refused for its tool, the fourth for all tools; the last comes when the first has
-- expired.
tool_history_test : tool_history any_tool "read" (fresh 2 60000 3) burst [] ≡ 60015 ∷ 21 ∷ 10 ∷ []
unfolding tool_history call_tool filter Dict.get Dict.set
tool_history_test = refl

abbrev times : List ℕ
times = 10 ∷ 20 ∷ 30 ∷ 40 ∷ 60015 ∷ []

answers-ideal_answers_example : answers (fresh 2 60000 3) times ≡ ideal_answers 3 60000 [] times
answers-ideal_answers_example = answers-ideal_answers (fresh 2 60000 3) times refl (ground arith)
