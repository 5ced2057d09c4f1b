-- ===== src/Topology/Mode.antt =====
-- Which gateway is found, and the mode that follows.
use liop.Common.{
  ℕ, ◌≡◌, inl, inr, refl, ap, ◌∙◌, Bool, true, false, not, Option, none, some, List, [], ◌∷◌,
  if◌then◌else◌, filter, coalesce, coalesce_to, Bool-cases, Option-cases,
}
use mathlib.Core.Path.{subst}
use liop.Common.Bytes.{contains, is_prefix}
use liop.Topology.{
  GatewayTopologyInfo, TopologyProbeOptions, Network, probe_gateway_url, probe_candidates,
  candidate_urls, decide_mode, probe_topology, explicit, local, decided,
}

module _ (net : Network) (options : TopologyProbeOptions) where
  -- The first of some gateways that is healthy.
  abbrev pub first_healthy : List (List ℕ) → Option GatewayTopologyInfo
  first_healthy [] = none
  first_healthy (url ∷ urls) = coalesce (probe_gateway_url net url options) (first_healthy urls)

  -- The candidates of which the text does not contain the port.
  abbrev pub other_than : List ℕ → List (List ℕ) → List (List ℕ)
  other_than port urls = filter (λ url. not (contains port url)) urls

  abbrev pub locals : List ℕ → Option GatewayTopologyInfo
  locals port =
      if coalesce_to options.auto_probe_local true
      then first_healthy (other_than port candidate_urls)
      else none

  candidates-port :
      (c : ℕ) (cs port : List ℕ) (urls : List (List ℕ))
      → options.blg_url ≡ some (c ∷ cs)
      → net.port (c ∷ cs) ≡ some port
      → probe_candidates net options urls ≡ some (first_healthy (other_than port urls))
  unfolding probe_candidates filter
  candidates-port c cs port [] given p = refl
  candidates-port c cs port (url ∷ urls) given p =
      let rest = candidates-port c cs port urls given p in
      elim (Bool-cases (contains port url)) [
        | inl skipped ↦ rw (given, p, skipped) rest
        | inr probed ↦ elim (Option-cases (probe_gateway_url net url options)) [
          | inl silent ↦ rw (given, p, probed, silent) rest
          | inr (g, healthy) ↦ rw (given, p, probed, healthy)
        ]
      ]

  decided_if :
      (b : Bool) (x : Option (Option GatewayTopologyInfo)) (y : Option GatewayTopologyInfo)
      → x ≡ some y
      → decided net options (if b then x else some none)
        ≡ some (decide_mode options (if b then y else none))
  decided_if true x y h = ap (decided net options) h
  decided_if false x y h = refl

  decided-local :
      (found : Option GatewayTopologyInfo) (port : List ℕ)
      → probe_candidates net options candidate_urls
        ≡ some (first_healthy (other_than port candidate_urls))
      → decided net options (local net options found)
        ≡ some (decide_mode options (coalesce found (locals port)))
  decided-local (some g) port h = refl
  decided-local none port h =
      decided_if (coalesce_to options.auto_probe_local true)
        (probe_candidates net options candidate_urls)
        (first_healthy (other_than port candidate_urls)) h

  -- With the URL of a gateway, of which the engine reads the port: the mode is decided by that gateway
  -- if it is healthy, and otherwise by the first healthy one of the local candidates of which the URL
  -- does not contain the port, if these are probed.
  pub probe_topology-port :
      (c : ℕ) (cs port : List ℕ)
      → options.blg_url ≡ some (c ∷ cs)
      → net.port (c ∷ cs) ≡ some port
      → probe_topology net options
        ≡ some
            (decide_mode options (coalesce (probe_gateway_url net (c ∷ cs) options) (locals port)))
  unfolding probe_topology
  probe_topology-port c cs port given p =
      ap (λ u. decided net options (local net options (explicit net options u))) given
      ∙ decided-local (probe_gateway_url net (c ∷ cs) options) port
          (candidates-port c cs port candidate_urls given p)

  no_candidate : other_than [] candidate_urls ≡ []
  unfolding filter contains is_prefix
  no_candidate = refl

  locals_skipped : locals [] ≡ none
  locals_skipped = elim (Bool-cases (coalesce_to options.auto_probe_local true)) [
    | inl auto ↦ rw (auto, no_candidate)
    | inr manual ↦ rw manual
  ]

  -- With the URL of a gateway that is not healthy and has no explicit port, no local gateway is probed:
  -- the mode is that of the mesh.
  pub probe_topology-default_port :
      (c : ℕ) (cs : List ℕ)
      → options.blg_url ≡ some (c ∷ cs)
      → net.port (c ∷ cs) ≡ some []
      → probe_gateway_url net (c ∷ cs) options ≡ none
      → probe_topology net options ≡ some (decide_mode options none)
  probe_topology-default_port c cs given p silent =
      subst (λ found. probe_topology net options ≡ some (decide_mode options found))
        (ap (λ o. coalesce o (locals [])) silent ∙ locals_skipped)
        (probe_topology-port c cs [] given p)
