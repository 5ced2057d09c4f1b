-- ===== src/Topology.antt =====
-- The choice between a gateway, the mesh and both (sdks/typescript/src/runtime/topology-probe.ts).
-- Texts are lists of characters. What a server answers and the engine's `URL` are parameters.
pub mod Mode
mod Tests
use liop.Common.{
  ℕ, ◌≡◌, String, Bool, true, false, not, ◌&&◌, ◌||◌, Option, none, some, List, [], ◌∷◌, ◌++◌,
  if◌then◌else◌, ltb, length, eqb, coalesce_to,
}
use liop.Common.Bytes.{bytes_eq, contains, is_prefix}
use liop.Common.Text.{codes, words}
use liop.Validators.{reverse_onto, ends_with}

pub record GatewayTopologyInfo : Type 0 where
  pub base_url : List ℕ
  pub mcp_endpoint : List ℕ
  pub health_endpoint : List ℕ
  pub token_endpoint : List ℕ
  pub issuer : List ℕ
  pub audience : List ℕ
  pub scopes : List (List ℕ)
  pub tools : List (List ℕ)
  pub tier : ℕ

pub record MeshTopologyInfo : Type 0 where
  pub bootstrap_nodes : List (List ℕ)
  pub identity_path : Option (List ℕ)

-- The modes, with what a result of each holds.
pub data TopologyProbeResult : Type 0 where
  hybrid : GatewayTopologyInfo → MeshTopologyInfo → TopologyProbeResult
  gateway : GatewayTopologyInfo → TopologyProbeResult
  mesh : MeshTopologyInfo → TopologyProbeResult

-- The fields that the probe reads.
pub record TopologyProbeOptions : Type 0 where
  pub blg_url : Option (List ℕ)
  pub nexus_url : Option (List ℕ)
  pub audience : Option (List ℕ)
  pub bootstrap_nodes : Option (List (List ℕ))
  pub identity_path : Option (List ℕ)
  pub auto_probe_local : Option Bool

pub record HealthData : Type 0 where
  pub status : Option (List ℕ)
  pub tools : Option (List (List ℕ))
  pub issuer : Option (List ℕ)
  pub token_endpoint : Option (List ℕ)
  pub tier : Option ℕ

pub record PrmData : Type 0 where
  pub resource : Option (List ℕ)
  pub authorization_servers : List (List ℕ)
  pub scopes_supported : List (List ℕ)

-- `health` and `prm` are the data of an answer that is ok within its time, and none otherwise.
-- `new URL(url)` has a port, a host and a name of the host, or throws; `set_host` is its text with another host.
pub record Network : Type 0 where
  pub health : List ℕ → Option HealthData
  pub prm : List ℕ → Option PrmData
  pub port : List ℕ → Option (List ℕ)
  pub host : List ℕ → Option (List ℕ)
  pub hostname : List ℕ → Option (List ℕ)
  pub set_host : (host url : List ℕ) → List ℕ

-- `url.replace(/\/+$/, "")`
abbrev drop_slashes : List ℕ → List ℕ
drop_slashes [] = []
drop_slashes (c ∷ cs) = if eqb c b'/' then drop_slashes cs else c ∷ cs

unfoldable pub trim_url : List ℕ → List ℕ
trim_url url = reverse_onto [] (drop_slashes (reverse_onto [] url))

-- `a || ""`, and `if (a) b = a`
abbrev pub or_text : Option (List ℕ) → List ℕ → List ℕ
or_text none d = d
or_text (some []) d = d
or_text (some (c ∷ cs)) d = c ∷ cs

abbrev first_or : List (List ℕ) → List ℕ → List ℕ
first_or [] d = d
first_or (t ∷ ts) d = t

abbrev list_or : List (List ℕ) → List (List ℕ) → List (List ℕ)
list_or [] d = d
list_or (t ∷ ts) d = t ∷ ts

abbrev default_scopes : List (List ℕ)
default_scopes = words (
    "liop:tools:list" ∷ "liop:tools:call" ∷ "liop:resources:read" ∷ "liop:schema:read"
    ∷ "liop:mesh:query" ∷ [])

-- The variables that the metadata change.
pub record OAuth : Type 0 where
  pub issuer : List ℕ
  pub audience : List ℕ
  pub scopes : List (List ℕ)

unfoldable pub with_prm : Option PrmData → OAuth → OAuth
with_prm none o = o
with_prm (some d) o = record {
  issuer = first_or d.authorization_servers o.issuer;
  audience = or_text d.resource o.audience;
  scopes = list_or d.scopes_supported o.scopes;
}

-- From the issuer, where no endpoint is given.
unfoldable pub resolve_token_endpoint : List ℕ → List ℕ → List ℕ
resolve_token_endpoint (c ∷ cs) issuer = c ∷ cs
resolve_token_endpoint [] [] = []
resolve_token_endpoint [] (c ∷ cs) =
    (if ends_with (codes "/oidc") (c ∷ cs) then c ∷ cs else (c ∷ cs) ++ codes "/oidc")
    ++ codes "/token"

abbrev pub candidate_urls : List (List ℕ)
candidate_urls =
    words ("http://127.0.0.1:15018" ∷ "http://127.0.0.1:15000" ∷ "http://127.0.0.1:13000" ∷ [])

abbrev pub decide_mode : TopologyProbeOptions → Option GatewayTopologyInfo → TopologyProbeResult
decide_mode options none = mesh (record {
  bootstrap_nodes = coalesce_to options.bootstrap_nodes [];
  identity_path = options.identity_path;
})
decide_mode options (some g) =
    if ltb 0 (length (coalesce_to options.bootstrap_nodes []))
    then hybrid g (record {
      bootstrap_nodes = coalesce_to options.bootstrap_nodes [];
      identity_path = options.identity_path;
    })
    else gateway g

module _ (net : Network) where
  abbrev by_nexus : Option (List ℕ) → List ℕ → List ℕ
  by_nexus none endpoint = endpoint
  by_nexus (some host) endpoint = net.set_host host endpoint

  abbrev is_container : List ℕ → Bool
  is_container name =
      bytes_eq name (codes "nexus")
      || bytes_eq name (codes "nexus-prod")
      || is_prefix (codes "172.") name

  abbrev by_hostname : List ℕ → List ℕ → Option (List ℕ) → Option (List ℕ) → List ℕ
  by_hostname base endpoint nexus none = endpoint
  by_hostname base endpoint (some (c ∷ cs)) (some name) =
      by_nexus (net.host (trim_url (c ∷ cs))) endpoint
  by_hostname base endpoint _ (some name) =
      if is_container name && contains (codes "127.0.0.1") base
      then net.set_host (codes "127.0.0.1:15000") endpoint
      else endpoint

  -- For containers that the host reaches under another name.
  unfoldable pub normalize_token_endpoint : List ℕ → Option (List ℕ) → List ℕ → List ℕ
  unfolding trim_url
  normalize_token_endpoint base nexus [] = []
  normalize_token_endpoint base nexus (c ∷ cs) =
      by_hostname base (c ∷ cs) nexus (net.hostname (c ∷ cs))

  abbrev is_healthy : Option (List ℕ) → Bool
  is_healthy none = false
  is_healthy (some status) = bytes_eq status (codes "healthy")

  abbrev verified : TopologyProbeOptions → List ℕ → HealthData → OAuth → GatewayTopologyInfo
  verified options base h o = record {
    base_url = base;
    mcp_endpoint = base ++ codes "/mcp";
    health_endpoint = base ++ codes "/health";
    token_endpoint =
        normalize_token_endpoint base options.nexus_url
          (resolve_token_endpoint (or_text h.token_endpoint []) o.issuer);
    issuer = o.issuer;
    audience = o.audience;
    scopes = o.scopes;
    tools = coalesce_to h.tools [];
    tier = coalesce_to h.tier 2;
  }

  abbrev by_health : TopologyProbeOptions → List ℕ → Option HealthData → Option GatewayTopologyInfo
  by_health options base none = none
  by_health options base (some h) =
      if is_healthy h.status
      then some (
          verified options base h (
            with_prm (net.prm (base ++ codes "/.well-known/oauth-protected-resource")) (record {
              issuer = or_text h.issuer [];
              audience = or_text options.audience (codes "urn:liop:mesh:api");
              scopes = default_scopes;
            })))
      else none

  unfoldable pub probe_gateway_url : List ℕ → TopologyProbeOptions → Option GatewayTopologyInfo
  unfolding trim_url with_prm resolve_token_endpoint normalize_token_endpoint
  probe_gateway_url candidate options =
      by_health options (trim_url candidate) (net.health (trim_url candidate ++ codes "/health"))

  -- The loop over the candidates: `none` is an error of `new URL`, which ends the probe.
  abbrev or_next :
      Option GatewayTopologyInfo
      → Option (Option GatewayTopologyInfo)
      → Option (Option GatewayTopologyInfo)
  or_next none next = next
  or_next (some g) next = some (some g)

  abbrev skip_or :
      List ℕ
      → Option (List ℕ)
      → Option (Option GatewayTopologyInfo)
      → Option (Option GatewayTopologyInfo)
      → Option (Option GatewayTopologyInfo)
  skip_or url none next probed = none
  skip_or url (some port) next probed = if contains port url then next else probed

  abbrev unless_probed :
      List ℕ
      → Option (List ℕ)
      → Option (Option GatewayTopologyInfo)
      → Option (Option GatewayTopologyInfo)
      → Option (Option GatewayTopologyInfo)
  unless_probed url (some (c ∷ cs)) next probed = skip_or url (net.port (c ∷ cs)) next probed
  unless_probed url _ next probed = probed

  unfoldable pub probe_candidates :
      TopologyProbeOptions → List (List ℕ) → Option (Option GatewayTopologyInfo)
  unfolding probe_gateway_url
  probe_candidates options [] = some none
  probe_candidates options (url ∷ urls) =
      let rest = probe_candidates options urls in
      unless_probed url options.blg_url rest (or_next (probe_gateway_url url options) rest)

  abbrev pub explicit : TopologyProbeOptions → Option (List ℕ) → Option GatewayTopologyInfo
  explicit options (some (c ∷ cs)) = probe_gateway_url (c ∷ cs) options
  explicit options _ = none

  abbrev pub local :
      TopologyProbeOptions → Option GatewayTopologyInfo → Option (Option GatewayTopologyInfo)
  local options (some g) = some (some g)
  local options none =
      if coalesce_to options.auto_probe_local true
      then probe_candidates options candidate_urls
      else some none

  abbrev pub decided :
      TopologyProbeOptions → Option (Option GatewayTopologyInfo) → Option TopologyProbeResult
  decided options none = none
  decided options (some found) = some (decide_mode options found)

  unfoldable pub probe_topology : TopologyProbeOptions → Option TopologyProbeResult
  unfolding probe_candidates probe_gateway_url
  probe_topology options = decided options (local options (explicit options options.blg_url))
