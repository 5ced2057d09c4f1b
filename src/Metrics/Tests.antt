-- ===== src/Metrics/Tests.antt =====
-- A counter and a gauge with labels.
use liop.Common.{◌+◌, String, ◌≡◌, refl, Option, none, some, List, [], ◌∷◌, text_equality}
use liop.Common.Dict
use liop.Common.Int.{ℤ, pos, negsuc}
use liop.Common.Text.{join}
use liop.Metrics.{
  Labels, Engine, Counter, Gauge, inc, get, labels_to_key, format_labels, escape,
  counter_to_prometheus, gauge_get, gauge_inc, gauge_dec,
}
use liop.Metrics.Counting.{inc_all, total, get-inc_all, gauge_dec-inc}

abbrev engine : Engine
engine = record { sort_entries = λ es. es; show = λ n. "1" }

abbrev calls : Counter
calls = record { name = "liop_tool_calls_total"; help = "calls"; values = [] }

abbrev level : Gauge
level = record { name = "peers"; help = "peers"; values = [] }

abbrev by_tool : String → Option Labels
by_tool t = some (("tool", t) ∷ [])

abbrev steps : List (Option Labels × ℤ)
steps = (by_tool "a", pos 2) ∷ (none, pos 1) ∷ (by_tool "a", negsuc 4) ∷ (by_tool "a", pos 3) ∷ []

reads_five : get engine (by_tool "a") (inc_all engine steps calls) ≡ 5
unfolding get inc_all inc labels_to_key join Dict.get Dict.set
reads_five = refl

printed :
    counter_to_prometheus engine (inc_all engine ((by_tool "a\"b", pos 1) ∷ []) calls)
    ≡ "# HELP liop_tool_calls_total calls" ∷ "# TYPE liop_tool_calls_total counter"
      ∷ "liop_tool_calls_total{tool=\"a\\\"b\"} 1" ∷ []
unfolding counter_to_prometheus format_labels escape inc_all inc labels_to_key join Dict.get
    Dict.set
printed = refl

get-inc_all_example :
    get engine (by_tool "a") (inc_all engine steps calls)
    ≡ get engine (by_tool "a") calls + total engine (labels_to_key engine (by_tool "a")) steps
get-inc_all_example = get-inc_all engine (by_tool "a") steps calls

gauge_dec-inc_example :
    gauge_get engine none (gauge_dec engine none (pos 3) (gauge_inc engine none (pos 3) level))
    ≡ gauge_get engine none level
gauge_dec-inc_example = gauge_dec-inc engine none none (pos 3) level
