-- ===== src/Egress/Local.antt =====
-- The results of `executeInWorkerPool`.
use liop.Common.{
  ℕ, ◌≡◌, ◌≢◌, ◌↔◌, ◌⊎◌, inl, inr, [], ◌∷◌, none, coalesce, coalesce_to, sym, not, ◌&&◌, refl, ap,
  String, Bool, true, false, Option, some, List, arith, if◌then◌else◌,
}
use mathlib.Core.Path.{subst}
use liop.Common.Attempt.{Attempt, ok, fail}
use liop.Pii
use liop.Pii.{Scanned, clean, found, scan}
use liop.Pii.Sound
use liop.Value.{Value, forget, parse_unknown_json}
use liop.Aggregation.{
  Enforce, on, by_policy, unwrap_for_aggregation_policy_scan, off, Judged, aggregate, violation,
  out_of_fuel,
}
use liop.Aggregation.Small.{Small, Reached, violates-Small}
use liop.Sanitizer.{default_config, sanitize_output}
use liop.Egress.{
  by_schema, schema_issues, by_issues, is_error_result, check_aggregation, violates_unwrapped,
  Schema, ZkMode, no_zk, optimistic, required, ProofMode, legacy_hmac, zk_optimistic, zk_blocking,
  ProofType, hmac_legacy, groth16, groth16_pqc_hybrid, WorkerRequest, Server, LogicExecutionPolicy,
  WorkerResponse, Checked, passes, blocked, unfinished, of_judged, of_scanned,
  validate_output_policy, final_check, violates, enforced, pii_scanner, proof_missing,
  proof_unavailable, policy_mode, zk_mode, request, tell, CallToolResult, delivered, refused,
  Delivery, policy_of, answer_checked, deliver, answer_response, answer_run, execute_in_worker_pool,
}

checks_iff :
    (a : Scanned) (b : Judged)
    → (of_scanned a (of_judged b) ≡ passes) ↔ ((a ≡ clean) × (b ≡ aggregate))
checks_iff clean aggregate = ground arith
checks_iff clean violation = ground arith
checks_iff clean out_of_fuel = ground arith
checks_iff (found v) b = ground arith
checks_iff Pii.out_of_fuel b = ground arith

judged_iff : (b : Judged) → (of_judged b ≡ passes) ↔ (b ≡ aggregate)
judged_iff aggregate = ground arith
judged_iff violation = ground arith
judged_iff out_of_fuel = ground arith

issues_iff :
    (is : List String) (rest : Checked)
    → (by_issues is rest ≡ passes) ↔ ((is ≡ []) × (rest ≡ passes))
issues_iff [] rest = (λ h. (refl, h), λ h. h.1)
issues_iff (i ∷ is) rest = (λ h. cc, λ h. cc)

chosen_iff :
    (object catchall : Bool) (strict loose : List String)
    → ((if object && not catchall then strict else loose) ≡ []) ↔ (
        ((object ≡ true) × (catchall ≡ false) × (strict ≡ []))
        ⊎ (((object ≡ false) ⊎ (catchall ≡ true)) × (loose ≡ [])))
chosen_iff true true strict loose = ground arith
chosen_iff true false strict loose = ground arith
chosen_iff false true strict loose = ground arith
chosen_iff false false strict loose = ground arith

excused_iff :
    (excused : Bool) (rest : Checked)
    → ((if excused then passes else rest) ≡ passes) ↔ ((excused ≡ true) ⊎ (rest ≡ passes))
excused_iff true rest = (λ h. inl refl, λ h. refl)
excused_iff false rest = (λ h. inr h, λ h. elim h [ inl e ↦ cc | inr e ↦ e ])

-- The mode of a request for the mode of a policy.
abbrev pub ModeFor : ZkMode → ProofMode → Type 0
ModeFor no_zk mode = mode ≡ legacy_hmac
ModeFor optimistic mode = mode ≡ zk_optimistic
ModeFor required mode = mode ≡ zk_blocking

module _ {F N : Type 0} (s : Server F N) where
  answer_checked_iff :
      (c : Checked) (rest : CallToolResult F) (d : Delivery F)
      → (answer_checked s c rest ≡ delivered d) ↔ ((c ≡ passes) × (rest ≡ delivered d))
  answer_checked_iff passes rest d = ground arith
  answer_checked_iff (blocked r) rest d = ground arith
  answer_checked_iff unfinished rest d = ground arith

  final_check_iff :
      (output : Value F) (judged : Judged)
      → (final_check s output judged ≡ passes)
        ↔ ((scan (pii_scanner s) (forget output) ≡ clean) × (judged ≡ aggregate))
  unfolding final_check
  final_check_iff output judged = checks_iff (scan (pii_scanner s) (forget output)) judged

  -- The proof that a policy wants.
  abbrev pub Proved : ZkMode → ProofType → Type 0
  Proved required proof = (proof ≡ groth16) ⊎ (proof ≡ groth16_pqc_hybrid)
  Proved optimistic proof = Unit
  Proved no_zk proof = Unit

  proved_iff :
      (mode : ZkMode) (proof : ProofType)
      → (proof_missing (policy_mode mode) proof ≡ false) ↔ Proved mode proof
  proved_iff required hmac_legacy = (λ h. cc, λ h. elim h [ inl e ↦ cc | inr e ↦ cc ])
  proved_iff required groth16 = (λ h. inl refl, λ h. refl)
  proved_iff required groth16_pqc_hybrid = (λ h. inr refl, λ h. refl)
  proved_iff optimistic proof = (λ h. tt, λ h. refl)
  proved_iff no_zk proof = (λ h. tt, λ h. refl)

  -- A schema of an object without a catchall has no issue with the value in its strict form, another as
  -- it is.
  abbrev pub Fits : Option (Schema F) → Value F → Type 0
  Fits none v = Unit
  Fits (some x) v =
      ((x.is_object ≡ true) × (x.catchall ≡ false) × (x.strict_issues v ≡ []))
      ⊎ (((x.is_object ≡ false) ⊎ (x.catchall ≡ true)) × (x.issues v ≡ []))

  -- What the value unwraps to is an aggregate, where aggregates are enforced.
  abbrev pub Aggregates : Enforce → Value F → Type 0
  Aggregates policy v =
      (policy ≡ off)
      ⊎ ((u : Value F) × (unwrap_for_aggregation_policy_scan s.parse v ≡ some u)
          × (violates s policy u ≡ aggregate))

  unwrapped_iff :
      (policy : Enforce) (o : Option (Value F))
      → (violates_unwrapped s policy o ≡ passes)
        ↔ ((u : Value F) × (o ≡ some u) × (violates s policy u ≡ aggregate))
  unwrapped_iff policy none = (λ h. cc, λ (u, e, h). cc)
  unwrapped_iff policy (some v) = (
    λ h. (v, refl, (judged_iff (violates s policy v)).0 h),
    λ (u, e, h).
        (judged_iff (violates s policy v)).1
          (subst (λ x. violates s policy x ≡ aggregate) (sym (cc e)) h),
  )

  Aggregates-iff :
      (policy : Enforce) (v : Value F)
      → (check_aggregation s policy v ≡ passes) ↔ Aggregates policy v
  unfolding check_aggregation
  Aggregates-iff off v = (λ h. inl refl, λ h. refl)
  Aggregates-iff on v =
      let inner = unwrapped_iff on (unwrap_for_aggregation_policy_scan s.parse v) in
      (λ h. inr (inner.0 h), λ h. elim h [ inl e ↦ cc | inr u ↦ inner.1 u ])
  Aggregates-iff (by_policy p) v =
      let inner = unwrapped_iff (by_policy p) (unwrap_for_aggregation_policy_scan s.parse v) in
      (λ h. inr (inner.0 h), λ h. elim h [ inl e ↦ cc | inr u ↦ inner.1 u ])

  Fits-iff :
      (x : Option (Schema F)) (v : Value F) (rest : Checked)
      → (by_schema x v rest ≡ passes) ↔ (Fits x v × (rest ≡ passes))
  unfolding schema_issues
  Fits-iff none v rest = (λ h. (tt, h), λ h. h.1)
  Fits-iff (some x) v rest =
      let issues = issues_iff (schema_issues x v) rest in
      let chosen = chosen_iff x.is_object x.catchall (x.strict_issues v) (x.issues v) in
      (λ h. (chosen.0 (issues.0 h).0, (issues.0 h).1), λ (f, h). issues.1 (chosen.1 f, h))

  -- A value that says it is an error, or one that the schema and the limits let through.
  abbrev pub PolicyFits : Option (LogicExecutionPolicy F N) → Value F → Type 0
  PolicyFits none v = Unit
  PolicyFits (some p) v =
      (is_error_result v ≡ true)
      ⊎ (Fits p.output_schema v × Aggregates p.enforce_aggregation_first v)

  policy_iff :
      (policy : Option (LogicExecutionPolicy F N)) (output : Value F)
      → (validate_output_policy s output policy ≡ passes)
        ↔ PolicyFits policy (parse_unknown_json s.parse output)
  unfolding validate_output_policy
  policy_iff none output = (λ h. tt, λ h. refl)
  policy_iff (some p) output =
      let v = parse_unknown_json s.parse output in
      let checked = check_aggregation s p.enforce_aggregation_first v in
      let excused = excused_iff (is_error_result v) (by_schema p.output_schema v checked) in
      let fits = Fits-iff p.output_schema v checked in
      let sums = Aggregates-iff p.enforce_aggregation_first v in
      (
        λ h. elim (excused.0 h) [ inl e ↦ inl e | inr f ↦ inr ((fits.0 f).0, sums.0 (fits.0 f).1) ],
        λ h. elim h [
          | inl e ↦ excused.1 (inl e)
          | inr f ↦ excused.1 (inr (fits.1 (f.0, sums.1 f.1)))
        ],
      )

  -- The request for a policy.
  abbrev pub Asks : Option (LogicExecutionPolicy F N) → List ℕ → WorkerRequest N → Type 0
  Asks none payload q = q ≡ record {
    payload = payload;
    proof_mode = legacy_hmac;
    guest_image_id = s.guest_image_id;
    pqc_sign = false;
    dp_config = none;
  }
  Asks (some p) payload q =
      (mode : ProofMode) × ModeFor p.zk_mode mode
      × (q ≡ record {
        payload = payload;
        proof_mode = mode;
        guest_image_id = coalesce p.guest_image_id s.guest_image_id;
        pqc_sign = p.pqc_sign;
        dp_config = some (record {
          epsilon = coalesce_to p.dp_epsilon s.one;
          sensitivity = coalesce_to p.dp_sensitivity s.one;
          threshold = coalesce_to p.dp_threshold 50;
        });
      })

  mode_iff : (zk : ZkMode) (mode : ProofMode) → ModeFor zk mode ↔ (policy_mode zk ≡ mode)
  mode_iff no_zk mode = (λ h. sym h, λ h. sym h)
  mode_iff optimistic mode = (λ h. sym h, λ h. sym h)
  mode_iff required mode = (λ h. sym h, λ h. sym h)

  Asks-iff :
      (policy : Option (LogicExecutionPolicy F N)) (payload : List ℕ) (q : WorkerRequest N)
      → Asks policy payload q ↔ (q ≡ request s policy (policy_mode (zk_mode policy)) payload)
  Asks-iff none payload q = (λ h. h, λ h. h)
  Asks-iff (some p) payload q = (
    λ (mode, m, e).
        subst (λ x. q ≡ request s (some p) x payload) (sym ((mode_iff p.zk_mode mode).0 m)) e,
    λ h. (policy_mode p.zk_mode, (mode_iff p.zk_mode _).1 refl, h),
  )

  -- What a delivery holds of a response.
  abbrev pub Holds : WorkerResponse F → Delivery F → Type 0
  Holds r d =
      (d.computation_result ≡ sanitize_output s.decimals default_config r.output)
      × (d.image_id ≡ r.image_id)
      × (d.zk_receipt ≡ r.zk_receipt)
      × (d.proof_type ≡ r.proof_type)
      × (d.guest_image_id ≡ r.guest_image_id)

  Holds-iff : (r : WorkerResponse F) (d : Delivery F) → (deliver s r ≡ d) ↔ Holds r d
  Holds-iff r d = (
    λ h. (
      ap (λ x. x.computation_result) (sym h),
      ap (λ x. x.image_id) (sym h),
      ap (λ x. x.zk_receipt) (sym h),
      ap (λ x. x.proof_type) (sym h),
      ap (λ x. x.guest_image_id) (sym h),
    ),
    λ (a, b, c, e, f). sym (λ i. record {
      computation_result = a i;
      image_id = b i;
      zk_receipt = c i;
      proof_type = e i;
      guest_image_id = f i;
    }),
  )

  delivered_iff : (e d : Delivery F) → (CallToolResult.delivered e ≡ delivered d) ↔ (e ≡ d)
  delivered_iff e d = (λ h. cc, λ h. cc)

  proof_iff :
      (missing : Bool) (rest : CallToolResult F) (d : Delivery F)
      → ((if missing then refused (tell s.is_dev proof_unavailable) else rest) ≡ delivered d)
        ↔ ((missing ≡ false) × (rest ≡ delivered d))
  proof_iff true rest d = (λ h. cc, λ h. cc)
  proof_iff false rest d = (λ h. (refl, h), λ h. h.1)

  -- What a response, and the output that it is sanitized to, pass.
  abbrev pub Passed : Option (LogicExecutionPolicy F N) → WorkerResponse F → Value F → Type 0
  Passed policy r output =
      Proved (zk_mode policy) r.proof_type
      × PolicyFits policy (parse_unknown_json s.parse output)
      × (scan (pii_scanner s) (forget output) ≡ clean)
      × (violates s (enforced policy) output ≡ aggregate)

  response_iff :
      (policy : Option (LogicExecutionPolicy F N)) (r : WorkerResponse F) (d : Delivery F)
      → (answer_response s policy r ≡ delivered d)
        ↔ (Passed policy r (sanitize_output s.decimals default_config r.output) × Holds r d)
  unfolding answer_response
  response_iff policy r d =
      let output = sanitize_output s.decimals default_config r.output in
      let judged = violates s (enforced policy) output in
      let last = delivered (deliver s r) in
      let checks = final_check s output judged in
      let rest = answer_checked s checks last in
      let policed = validate_output_policy s output policy in
      let missing = proof_missing (policy_mode (zk_mode policy)) r.proof_type in
      ground (
        arith,
        proof_iff missing (answer_checked s policed rest) d,
        proved_iff (zk_mode policy) r.proof_type,
        answer_checked_iff policed rest d,
        policy_iff policy output,
        answer_checked_iff checks last d,
        final_check_iff output judged,
        delivered_iff (deliver s r) d,
        Holds-iff r d,
      )

  run_iff :
      (policy : Option (LogicExecutionPolicy F N))
      (o : Option (Attempt (List ℕ) (WorkerResponse F))) (d : Delivery F)
      → (answer_run s policy o ≡ delivered d)
        ↔ ((r : WorkerResponse F) × (o ≡ some (ok r)) × (answer_response s policy r ≡ delivered d))
  run_iff policy none d = (λ h. cc, λ (r, e, h). cc)
  run_iff policy (some (fail detail)) d = (λ h. cc, λ (r, e, h). cc)
  run_iff policy (some (ok r)) d = (
    λ h. (r, refl, h),
    λ (x, e, h). subst (λ y. answer_response s policy y ≡ delivered d) (sym (cc e)) h,
  )

  -- `executeInWorkerPool` delivers a result exactly when the pool answers the request that has the mode,
  -- the noise and the image of the tool's policy with a response; the response has a Groth16 proof where
  -- the policy requires one; the sanitized output, read as JSON where it is a text of JSON, says that it
  -- is an error or has no issue with the policy's schema and unwraps to an aggregate; and the sanitized
  -- output is clean for the scanner and within the limits as it stands. The result holds the sanitized
  -- output, and the image, the receipt and the proof's type of the response.
  pub execute_in_worker_pool_iff :
      (payload : List ℕ) (tool_name : Option String) (d : Delivery F)
      → (execute_in_worker_pool s payload tool_name ≡ delivered d) ↔ (
          (q : WorkerRequest N) × Asks (policy_of s tool_name) payload q
          × (r : WorkerResponse F) × (s.run q ≡ some (ok r))
          × Passed (policy_of s tool_name) r (sanitize_output s.decimals default_config r.output)
          × Holds r d)
  unfolding execute_in_worker_pool
  execute_in_worker_pool_iff payload tool_name d =
      let policy = policy_of s tool_name in
      let asked = request s policy (policy_mode (zk_mode policy)) payload in
      let ran = run_iff policy (s.run asked) d in
      (
        λ h.
            let (r, e, a) = ran.0 h in
            let (passed, held) = (response_iff policy r d).0 a in
            (asked, (Asks-iff policy payload asked).1 refl, r, e, passed, held),
        λ (q, asks, r, e, passed, held).
            let same = (Asks-iff policy payload q).0 asks in
            ran.1 (
              r,
              subst (λ x. s.run x ≡ some (ok r)) same e,
              (response_iff policy r d).1 (passed, held),
            ),
      )

  -- What a delivered result passed.
  delivered-checked :
      (payload : List ℕ) (tool_name : Option String) (d : Delivery F)
      → execute_in_worker_pool s payload tool_name ≡ delivered d
      → (scan (pii_scanner s) (forget d.computation_result) ≡ clean)
        × (violates s (enforced (policy_of s tool_name)) d.computation_result ≡ aggregate)
  delivered-checked payload tool_name d h =
      let (q, asks, r, e, (proved, fits, scanned, judged), held) =
        (execute_in_worker_pool_iff payload tool_name d).0 h in
      let same = sym held.0 in
      (
        subst (λ x. scan (pii_scanner s) (forget x) ≡ clean) same scanned,
        subst (λ x. violates s (enforced (policy_of s tool_name)) x ≡ aggregate) same judged,
      )

  -- In what `executeInWorkerPool` delivers for a tool with limits on its outputs, each value that the
  -- check of the limits reaches is small: it keeps to the rows and the arrays of primitives that the
  -- limits allow.
  pub delivered-Small :
      (payload : List ℕ) (tool_name : Option String) (d : Delivery F) (v : Value F)
      → execute_in_worker_pool s payload tool_name ≡ delivered d
      → enforced (policy_of s tool_name) ≢ off
      → Reached s.parse v d.computation_result
      → Small (enforced (policy_of s tool_name)) (some s.records_count) v
  delivered-Small payload tool_name d v h in_force reached =
      violates-Small s.parse (some s.records_count) (enforced (policy_of s tool_name)) v
        d.computation_result in_force reached (delivered-checked payload tool_name d h).1
