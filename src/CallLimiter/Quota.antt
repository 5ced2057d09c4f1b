-- ===== src/CallLimiter/Quota.antt =====
-- No window of time holds more calls than the limits allow, whatever the calls.
use liop.Common.{
  ℕ, ◌≤◌, ◌<◌, ◌≡◌, refl, sym, ◌∙◌, ◌↔◌, String, Bool, Option, none, some, List, [], ◌∷◌, ◌++◌,
  arith, length, if◌then◌else◌, leb, Bool-cases, inl, inr, ◌==◌, text_equality, eq_iff,
}
use liop.Common.Dict
use liop.CallLimiter.{
  Server, Call, Gate, passed, tool_limited, global_limited, tool_not_found, Refusal, call_tool,
  after_tool, check_active, check_tool_call_rate_limit, check_global_rate_limit, tool_window, evict,
}
use liop.CallLimiter.Window.{
  Tracks, Tracks-empty, Tracks-later, Tracks-evict, Tracks-push, within, recent,
}

-- A server on which no call has been made.
abbrev pub fresh : ℕ → ℕ → ℕ → Server
fresh most w global_most = record {
  tool_call_windows = [];
  tool_call_max_per_window = most;
  tool_call_window_ms = w;
  global_call_window = [];
  global_call_max_per_window = global_most;
}

-- The times of the calls that the global limit lets through, and of the calls of a tool that are let
-- through altogether, the newest first.
abbrev pub global_times : Call → Gate → List ℕ → List ℕ
global_times c tool_not_found ts = ts
global_times c (global_limited r) ts = ts
global_times c (tool_limited r) ts = c.global_now ∷ ts
global_times c passed ts = c.global_now ∷ ts

abbrev pub tool_times : String → Call → Gate → List ℕ → List ℕ
tool_times name c passed ts = if c.name == name then c.tool_now ∷ ts else ts
tool_times name c _ ts = ts

-- The clock does not run back, between the checks of a call and from a call to the next.
abbrev pub InOrder : ℕ → List Call → Type 0
InOrder last [] = Unit
InOrder last (c ∷ cs) = (last ≤ c.global_now) × (c.global_now ≤ c.tool_now) × InOrder c.tool_now cs

module _ (registered : String → Bool) where
  -- The calls, from a state and the times so far.
  unfoldable pub global_history : Server → List Call → List ℕ → List ℕ
  global_history s [] ts = ts
  global_history s (c ∷ cs) ts =
      let r = call_tool registered s c in global_history r.0 cs (global_times c r.1 ts)

  unfoldable pub run : Server → List Call → Server
  run s [] = s
  run s (c ∷ cs) = run (call_tool registered s c).0 cs

  unfoldable pub tool_history : String → Server → List Call → List ℕ → List ℕ
  tool_history name s [] ts = ts
  tool_history name s (c ∷ cs) ts =
      let r = call_tool registered s c in tool_history name r.0 cs (tool_times name c r.1 ts)

unfoldable pub last_time : ℕ → List Call → ℕ
last_time last [] = last
last_time last (c ∷ cs) = last_time c.tool_now cs

-- The state knows the calls up to `last`.
record Knows (name : String) (last : ℕ) (global_ts tool_ts : List ℕ) (s : Server) : Type 0 where
  globally :
      Tracks s.tool_call_window_ms s.global_call_max_per_window last global_ts s.global_call_window
  by_tool :
      Tracks s.tool_call_window_ms s.tool_call_max_per_window last tool_ts (tool_window s name)

SameLimits : Server → Server → Type 0
SameLimits s s' =
    (s'.tool_call_window_ms ≡ s.tool_call_window_ms)
    × (s'.tool_call_max_per_window ≡ s.tool_call_max_per_window)
    × (s'.global_call_max_per_window ≡ s.global_call_max_per_window)

call_tool-SameLimits :
    (registered : String → Bool) (s : Server) (c : Call) → SameLimits s (call_tool registered s c).0
unfolding SameLimits call_tool check_active
call_tool-SameLimits registered s c = ground arith

-- What a tool's window is after a call of `j` was let through.
tool_window-set :
    (s : Server) (j name : String) (v : List ℕ)
    → tool_window (record s { tool_call_windows = Dict.set j v s.tool_call_windows }) name
      ≡ (if j == name then v else tool_window s name)
tool_window-set s j name v = ground (arith, Dict.get-set j name v s.tool_call_windows)

module _ {name : String} {s : Server} {last : ℕ} {gs ts : List ℕ}
    (k : Knows name last gs ts s) where
  -- A call of `j` that its tool's limit lets through.
  passed-Knows :
      (j : String) (now : ℕ)
      → last ≤ now
      → length (evict s.tool_call_window_ms now (tool_window s j)) < s.tool_call_max_per_window
      → Knows name now gs (if j == name then now ∷ ts else ts) (record s {
        tool_call_windows =
            Dict.set j
              (evict s.tool_call_window_ms now (tool_window s j) ++ now ∷ [])
              s.tool_call_windows;
      })
  passed-Knows j now h free =
      let window = evict s.tool_call_window_ms now (tool_window s j) ++ now ∷ [] in
      elim (Bool-cases (j == name)) [
        | inl same ↦
            let p = (eq_iff j name).0 same in
            rw same (record {
              globally = Tracks-later k.globally now h;
              by_tool =
                  rw (tool_window-set s j name window, same, p)
                    (Tracks-push k.by_tool now h (rw (sym p) free));
            })
        | inr other ↦ record {
          globally = Tracks-later k.globally now h;
          by_tool = rw (tool_window-set s j name window, other) (Tracks-later k.by_tool now h);
        }
      ]

  -- The check of the tool's limit.
  after_tool-Knows :
      (c : Call)
      → last ≤ c.tool_now
      → let r = after_tool (check_tool_call_rate_limit s c.name c.tool_now) in
        Knows name c.tool_now gs (tool_times name c r.1 ts) r.0
  unfolding check_active check_tool_call_rate_limit
  after_tool-Knows c h =
      let active = evict s.tool_call_window_ms c.tool_now (tool_window s c.name) in
      elim (Bool-cases (leb s.tool_call_max_per_window (length active))) [
        | inl full ↦ rw full (record {
          globally = Tracks-later k.globally c.tool_now h;
          by_tool = Tracks-later k.by_tool c.tool_now h;
        })
        | inr free ↦ rw free (passed-Knows c.name c.tool_now h (ground arith))
      ]

  -- A call that the global limit lets through.
  counted-Knows :
      (now : ℕ)
      → last ≤ now
      → length (evict s.tool_call_window_ms now s.global_call_window) < s.global_call_max_per_window
      → Knows name now (now ∷ gs) ts (record s {
        global_call_window = evict s.tool_call_window_ms now s.global_call_window ++ now ∷ [];
      })
  counted-Knows now h free = record {
    globally = Tracks-push k.globally now h free;
    by_tool = Tracks-later k.by_tool now h;
  }

  -- A call that it refuses.
  refused-Knows :
      (now later : ℕ)
      → last ≤ now
      → now ≤ later
      → Knows name later gs ts
          (record s { global_call_window = evict s.tool_call_window_ms now s.global_call_window })
  refused-Knows now later h h' = record {
    globally = Tracks-later (Tracks-evict k.globally now h) later h';
    by_tool = Tracks-later k.by_tool later (omega arith);
  }

  later-Knows : (now : ℕ) → last ≤ now → Knows name now gs ts s
  later-Knows now h = record {
    globally = Tracks-later k.globally now h;
    by_tool = Tracks-later k.by_tool now h;
  }

global_times-after_tool :
    (c : Call) (r : Server × Option Refusal) (gs : List ℕ)
    → global_times c (after_tool r).1 gs ≡ c.global_now ∷ gs
global_times-after_tool c (s, none) gs = refl
global_times-after_tool c (s, some e) gs = refl

-- A call keeps the state's knowledge.
call_tool-Knows :
    (registered : String → Bool) (name : String) (s : Server) (last : ℕ) (gs ts : List ℕ) (c : Call)
    → last ≤ c.global_now
    → c.global_now ≤ c.tool_now
    → Knows name last gs ts s
    → let r = call_tool registered s c in
      Knows name c.tool_now (global_times c r.1 gs) (tool_times name c r.1 ts) r.0
unfolding call_tool check_global_rate_limit
call_tool-Knows registered name s last gs ts c h h' k =
    let active = evict s.tool_call_window_ms c.global_now s.global_call_window in
    let next = record s { global_call_window = active ++ c.global_now ∷ [] } in
    let checked = check_tool_call_rate_limit next c.name c.tool_now in
    elim (Bool-cases (registered c.name)) [
      | inr absent ↦ rw absent (later-Knows k c.tool_now (omega arith))
      | inl present ↦ elim (Bool-cases (leb s.global_call_max_per_window (length active))) [
        | inl full ↦ rw (present, full) (refused-Knows k c.global_now c.tool_now h h')
        | inr free ↦
            rw (present, free, global_times-after_tool c checked gs)
              (after_tool-Knows (counted-Knows k c.global_now h (ground arith)) c h')
      ]
    ]

run-SameLimits :
    (registered : String → Bool) (s : Server) (cs : List Call) → SameLimits s (run registered s cs)
unfolding run SameLimits
run-SameLimits registered s [] = (refl, refl, refl)
run-SameLimits registered s (c ∷ cs) =
    let here = call_tool-SameLimits registered s c in
    let there = run-SameLimits registered (call_tool registered s c).0 cs in
    (there.0 ∙ here.0, there.1 ∙ here.1, there.2 ∙ here.2)

run-Knows :
    (registered : String → Bool) (name : String) (s : Server) (cs : List Call) (last : ℕ)
    (gs ts : List ℕ)
    → InOrder last cs
    → Knows name last gs ts s
    → Knows name
        (last_time last cs)
        (global_history registered s cs gs)
        (tool_history registered name s cs ts)
        (run registered s cs)
unfolding run last_time global_history tool_history
run-Knows registered name s [] last gs ts o k = k
run-Knows registered name s (c ∷ cs) last gs ts (h, h', o) k =
    let r = call_tool registered s c in
    run-Knows registered name r.0 cs c.tool_now (global_times c r.1 gs) (tool_times name c r.1 ts) o
      (call_tool-Knows registered name s last gs ts c h h' k)

fresh-Knows :
    (name : String) (most w global_most : ℕ) → Knows name 0 [] [] (fresh most w global_most)
unfolding Dict.get
fresh-Knows name most w global_most = record {
  globally = Tracks-empty w global_most;
  by_tool = Tracks-empty w most;
}

within-move :
    (a : ℕ) (ts : List ℕ) {w w' m m' : ℕ}
    → w' ≡ w
    → m' ≡ m
    → within w' a ts ≤ m'
    → within w a ts ≤ m
within-move a ts p q h = rw (sym p, sym q) h

module _ (registered : String → Bool) (name : String) (most w global_most : ℕ) (cs : List Call)
    (o : InOrder 0 cs) where
  known :
      Knows name
        (last_time 0 cs)
        (global_history registered (fresh most w global_most) cs [])
        (tool_history registered name (fresh most w global_most) cs [])
        (run registered (fresh most w global_most) cs)
  known =
      run-Knows registered name (fresh most w global_most) cs 0 [] [] o
        (fresh-Knows name most w global_most)

  limits : SameLimits (fresh most w global_most) (run registered (fresh most w global_most) cs)
  limits = run-SameLimits registered (fresh most w global_most) cs

  -- While the clock does not run back, no window of time of the configured length holds more calls of
  -- a tool that were let through than the tool's limit, and none more calls that passed the global
  -- check than the global limit.
  pub quota_sliding :
      ((a : ℕ) → within w a (tool_history registered name (fresh most w global_most) cs []) ≤ most)
      × ((a : ℕ)
          → within w a (global_history registered (fresh most w global_most) cs []) ≤ global_most)
  unfolding SameLimits
  quota_sliding = (
    λ a. within-move a _ limits.0 limits.1 (known.by_tool.sparse a),
    λ a. within-move a _ limits.0 limits.2 (known.globally.sparse a),
  )

  -- The next call of a tool, at no earlier time, passes the tool's check exactly when fewer calls of
  -- the tool than its limit were let through and are still active.
  pub check_tool_call_rate_limit_iff :
      (now : ℕ)
      → last_time 0 cs ≤ now
      → ((check_tool_call_rate_limit (run registered (fresh most w global_most) cs) name now).1
          ≡ none)
        ↔ (recent w now (tool_history registered name (fresh most w global_most) cs []) < most)
  unfolding SameLimits check_active check_tool_call_rate_limit
  check_tool_call_rate_limit_iff now h = ground (arith, limits, known.by_tool.keeps now h)
