-- ===== src/RoutingTable/Circuit.antt =====
-- The circuit breaker of a route.
use liop.Common.{
  ℕ, ◌+◌, String, ◌≡◌, refl, Option, none, some, List, [], ◌∷◌, arith, leb, text_equality, eq_iff,
  ◌≢◌,
}
use liop.Common.Dict
use liop.Common.Dict.{Dict}
use liop.RoutingTable.{
  ToolRoute, record_success, record_failure, update_route, resolve, max_failures, target_name,
}

-- What is recorded of the calls of a tool, in order.
pub data Call : Type 0 where
  succeeded : (latency now : ℕ) → Call
  failed : Call

-- The failures since the last success, where `n` were counted before.
abbrev pub streak : ℕ → List Call → ℕ
streak n [] = n
streak n (failed ∷ calls) = streak (n + 1) calls
streak n (succeeded latency now ∷ calls) = streak 0 calls

module _ {S : Type 0} where
  pub record_call : String → Call → Dict String (ToolRoute S) → Dict String (ToolRoute S)
  record_call name (succeeded latency now) routes = record_success name latency now routes
  record_call name failed routes = record_failure name routes

  pub record_calls : String → List Call → Dict String (ToolRoute S) → Dict String (ToolRoute S)
  record_calls name [] routes = routes
  record_calls name (c ∷ calls) routes = record_calls name calls (record_call name c routes)

  update_route-other :
      (name k : String) (f : ToolRoute S → ToolRoute S) (o : Option (ToolRoute S))
      (routes : Dict String (ToolRoute S))
      → name ≢ k
      → Dict.get k (update_route name f o routes) ≡ Dict.get k routes
  update_route-other name k f none routes h = refl
  update_route-other name k f (some r) routes h =
      ground (arith, Dict.get-set name k (f r) routes, eq_iff name k)

  -- A call leaves the other tools' routes alone.
  record_call-other :
      (name k : String) (c : Call) (routes : Dict String (ToolRoute S))
      → name ≢ k
      → Dict.get k (record_call name c routes) ≡ Dict.get k routes
  unfolding record_call record_success record_failure
  record_call-other name k (succeeded latency now) routes h =
      update_route-other name k _ (Dict.get name routes) routes h
  record_call-other name k failed routes h =
      update_route-other name k _ (Dict.get name routes) routes h

  -- After any calls the route counts exactly the failures since the last success, on top of those
  -- that it counted before if no call succeeded.
  pub record_calls-streak :
      (name : String) (calls : List Call) (routes : Dict String (ToolRoute S)) (r : ToolRoute S)
      → Dict.get name routes ≡ some r
      → (r' : ToolRoute S) × (Dict.get name (record_calls name calls routes) ≡ some r')
        × (r'.fail_count ≡ streak r.fail_count calls)
        × (r'.provider ≡ r.provider)
        × (r'.endpoint ≡ r.endpoint)
  unfolding record_calls record_call record_success record_failure
  record_calls-streak name [] routes r h = (r, h, refl, refl, refl)
  record_calls-streak name (failed ∷ calls) routes r h =
      let r' : ToolRoute S = record r { fail_count = r.fail_count + 1 } in
      record_calls-streak name calls (record_failure name routes) r'
        (rw (h, record_failure) (Dict.get-set_self name r' routes))
  record_calls-streak name (succeeded latency now ∷ calls) routes r h =
      let r' : ToolRoute S = record r {
        fail_count = 0;
        latency_ms = latency;
        last_success = now;
      } in
      record_calls-streak name calls (record_success name latency now routes) r'
        (rw (h, record_success) (Dict.get-set_self name r' routes))

  -- Resolution by a tool's own name still returns the route, over the transport and endpoint that it
  -- had, and warns exactly when five or more calls have failed since the last success.
  pub resolve-record_calls :
      (name : String) (calls : List Call) (routes : Dict String (ToolRoute S)) (r : ToolRoute S)
      → Dict.get name routes ≡ some r
      → target_name name ≡ name
      → (r' : ToolRoute S) × (resolve name (record_calls name calls routes)
          ≡ some (r', leb max_failures (streak r.fail_count calls)))
        × (r'.provider ≡ r.provider)
        × (r'.endpoint ≡ r.endpoint)
  unfolding resolve
  resolve-record_calls name calls routes r h own =
      let (r', found, count, provider, endpoint) = record_calls-streak name calls routes r h in
      (r', rw (own, found, count) refl, provider, endpoint)
