-- ===== src/Topology/Tests.antt =====
-- One gateway on the second local port, or none elsewhere.
use liop.Common.{ℕ, ◌≡◌, refl, none, some, List, [], if◌then◌else◌}
use liop.Common.Bytes.{bytes_eq}
use liop.Common.Text.{codes}
use liop.Topology.{
  Network, HealthData, TopologyProbeOptions, probe_gateway_url, trim_url, resolve_token_endpoint,
}

abbrev healthy : HealthData
healthy = record {
  status = some (codes "healthy");
  tools = none;
  issuer = none;
  token_endpoint = none;
  tier = none;
}

abbrev network : List ℕ → Network
network port = record {
  health =
      λ url. if bytes_eq url (codes "http://127.0.0.1:15000/health") then some healthy else none;
  prm = λ url. none;
  port = λ url. some port;
  host = λ url. none;
  hostname = λ url. none;
  set_host = λ host url. url;
}

abbrev options : TopologyProbeOptions
options = record {
  blg_url = some (codes "https://gw.org");
  nexus_url = none;
  audience = none;
  bootstrap_nodes = none;
  identity_path = none;
  auto_probe_local = none;
}

endpoint : resolve_token_endpoint [] (codes "https://id.org") ≡ codes "https://id.org/oidc/token"
unfolding resolve_token_endpoint bytes_eq
endpoint = refl

silent : probe_gateway_url (network []) (codes "https://gw.org") options ≡ none
unfolding probe_gateway_url trim_url bytes_eq
silent = refl
