-- ===== src/RoutingTable/Register.antt =====
-- What a registration leaves in the table.
use liop.Common.{
  ℕ, String, ◌≡◌, refl, ◌⊎◌, inl, inr, Bool, true, false, not, Option, some, List, [], ◌∷◌, arith,
  ◌&&◌, if◌then◌else◌, ◌==◌, text_equality, map, includes, eq_iff, Bool-cases,
}
use liop.Common.Dict
use liop.Common.Dict.{Dict}
use liop.RoutingTable.{
  TransportProvider, ToolDefinition, ToolRoute, http_gateway, p2p_grpc, remote_route,
  register_gateway_tools, register_mesh_tool, register_mesh_tools, is_healthy_gateway,
}

module _ {S : Type 0} where
  abbrev pub names : List (ToolDefinition S) → List String
  names tools = map (λ t. t.name) tools

  mesh_tool-get :
      (tool : ToolDefinition S) (target : String) (auth : Bool) (now : ℕ)
      (routes : Dict String (ToolRoute S)) (k : String)
      → Dict.get k (register_mesh_tool tool target auth now routes) ≡ (
          if tool.name == k && not (is_healthy_gateway (Dict.get k routes))
          then some (remote_route p2p_grpc target auth now tool (Dict.get k routes))
          else Dict.get k routes)
  unfolding register_mesh_tool
  mesh_tool-get tool target auth now routes k =
      let r : ToolRoute S =
        remote_route p2p_grpc target auth now tool (Dict.get tool.name routes) in
      ground (arith, eq_iff tool.name k, Dict.get-set tool.name k r routes)

  -- A healthy route over the gateway outlives every registration over the mesh.
  healthy_stays :
      (tools : List (ToolDefinition S)) (target : String) (auth : Bool) (now : ℕ)
      (routes : Dict String (ToolRoute S)) (k : String)
      → is_healthy_gateway (Dict.get k routes) ≡ true
      → Dict.get k (register_mesh_tools tools target auth now routes) ≡ Dict.get k routes
  unfolding register_mesh_tools
  healthy_stays [] target auth now routes k h = refl
  healthy_stays (tool ∷ tools) target auth now routes k h =
      let routes' : Dict String (ToolRoute S) = register_mesh_tool tool target auth now routes in
      ground (
        arith,
        mesh_tool-get tool target auth now routes k,
        healthy_stays tools target auth now routes' k,
      )

  -- A route that a registration has just written: its transport, endpoint and authentication, and a
  -- circuit with no failure.
  pub record IsFresh (provider : TransportProvider) (endpoint : String) (auth : Bool)
      (o : Option (ToolRoute S)) : Type 0 where
    pub route : ToolRoute S
    pub found : o ≡ some route
    pub over : route.provider ≡ provider
    pub at : route.endpoint ≡ endpoint
    pub authenticated : route.auth_required ≡ auth
    pub closed : route.fail_count ≡ 0

  remote_route-IsFresh :
      (p : TransportProvider) (endpoint : String) (auth : Bool) (now : ℕ) (tool : ToolDefinition S)
      (old : Option (ToolRoute S))
      → IsFresh p endpoint auth (some (remote_route p endpoint auth now tool old))
  unfolding remote_route
  remote_route-IsFresh p endpoint auth now tool old = record {
    route = remote_route p endpoint auth now tool old;
    found = refl;
    over = refl;
    at = refl;
    authenticated = refl;
    closed = refl;
  }

  fresh-not_healthy :
      {target : String} {auth : Bool} {o : Option (ToolRoute S)}
      → IsFresh p2p_grpc target auth o
      → is_healthy_gateway o ≡ false
  fresh-not_healthy f = ground (arith, f.found, f.over)

  IsFresh-if :
      (b : Bool) {p : TransportProvider} {endpoint : String} {auth : Bool}
      {x y : Option (ToolRoute S)}
      → IsFresh p endpoint auth x
      → IsFresh p endpoint auth y
      → IsFresh p endpoint auth (if b then x else y)
  IsFresh-if true f g = f
  IsFresh-if false f g = g

  -- A mesh route that was just written stays one while the other tools are registered.
  IsFresh-stays :
      (tools : List (ToolDefinition S)) (target : String) (auth : Bool) (now : ℕ)
      (routes : Dict String (ToolRoute S)) (k : String)
      → IsFresh p2p_grpc target auth (Dict.get k routes)
      → IsFresh p2p_grpc target auth (Dict.get k (register_mesh_tools tools target auth now routes))
  unfolding register_mesh_tools
  IsFresh-stays [] target auth now routes k f = f
  IsFresh-stays (tool ∷ tools) target auth now routes k f =
      IsFresh-stays tools target auth now (register_mesh_tool tool target auth now routes) k (
        rw (mesh_tool-get tool target auth now routes k)
          (IsFresh-if _ (remote_route-IsFresh p2p_grpc target auth now tool _) f))

  -- A tool that a registration over the mesh names, and that has no healthy route over the gateway,
  -- has a fresh mesh route afterwards.
  pub register_mesh_tools-IsFresh :
      (tools : List (ToolDefinition S)) (target : String) (auth : Bool) (now : ℕ)
      (routes : Dict String (ToolRoute S)) (k : String)
      → includes (names tools) k ≡ true
      → is_healthy_gateway (Dict.get k routes) ≡ false
      → IsFresh p2p_grpc target auth (Dict.get k (register_mesh_tools tools target auth now routes))
  unfolding register_mesh_tools
  register_mesh_tools-IsFresh [] target auth now routes k h u = cc
  register_mesh_tools-IsFresh (tool ∷ tools) target auth now routes k h u =
      elim (Bool-cases (tool.name == k)) [
        | inl same ↦
            IsFresh-stays tools target auth now (register_mesh_tool tool target auth now routes) k (
              rw (mesh_tool-get tool target auth now routes k, same, u)
                (remote_route-IsFresh p2p_grpc target auth now tool _))
        | inr other ↦
            register_mesh_tools-IsFresh tools target auth now
              (register_mesh_tool tool target auth now routes) k (ground arith)
              (rw (mesh_tool-get tool target auth now routes k, other) u)
      ]

  mesh_unnamed :
      (tools : List (ToolDefinition S)) (target : String) (auth : Bool) (now : ℕ)
      (routes : Dict String (ToolRoute S)) (k : String)
      → includes (names tools) k ≡ false
      → Dict.get k (register_mesh_tools tools target auth now routes) ≡ Dict.get k routes
  unfolding register_mesh_tools
  mesh_unnamed [] target auth now routes k h = refl
  mesh_unnamed (tool ∷ tools) target auth now routes k h =
      let routes' : Dict String (ToolRoute S) = register_mesh_tool tool target auth now routes in
      ground (
        arith,
        mesh_tool-get tool target auth now routes k,
        mesh_unnamed tools target auth now routes' k,
      )

  -- A registration over the mesh keeps a healthy route over the gateway, and a route that it does
  -- not name.
  pub register_mesh_tools_keeps :
      (tools : List (ToolDefinition S)) (target : String) (auth : Bool) (now : ℕ)
      (routes : Dict String (ToolRoute S)) (k : String)
      → (is_healthy_gateway (Dict.get k routes) ≡ true) ⊎ (includes (names tools) k ≡ false)
      → Dict.get k (register_mesh_tools tools target auth now routes) ≡ Dict.get k routes
  register_mesh_tools_keeps tools target auth now routes k (inl h) =
      healthy_stays tools target auth now routes k h
  register_mesh_tools_keeps tools target auth now routes k (inr h) =
      mesh_unnamed tools target auth now routes k h

  gateway_stays :
      (tools : List (ToolDefinition S)) (endpoint : String) (auth : Bool) (now : ℕ)
      (routes : Dict String (ToolRoute S)) (k : String)
      → IsFresh http_gateway endpoint auth (Dict.get k routes)
      → IsFresh http_gateway endpoint auth
          (Dict.get k (register_gateway_tools tools endpoint auth now routes))
  unfolding register_gateway_tools
  gateway_stays [] endpoint auth now routes k f = f
  gateway_stays (tool ∷ tools) endpoint auth now routes k f =
      let r : ToolRoute S =
        remote_route http_gateway endpoint auth now tool (Dict.get tool.name routes) in
      gateway_stays tools endpoint auth now (Dict.set tool.name r routes) k (
        rw (Dict.get-set tool.name k r routes)
          (IsFresh-if _ (remote_route-IsFresh http_gateway endpoint auth now tool _) f))

  -- A tool that a registration over the gateway names has a fresh gateway route afterwards, whatever
  -- route it had.
  pub register_gateway_tools-IsFresh :
      (tools : List (ToolDefinition S)) (endpoint : String) (auth : Bool) (now : ℕ)
      (routes : Dict String (ToolRoute S)) (k : String)
      → includes (names tools) k ≡ true
      → IsFresh http_gateway endpoint auth
          (Dict.get k (register_gateway_tools tools endpoint auth now routes))
  unfolding register_gateway_tools
  register_gateway_tools-IsFresh [] endpoint auth now routes k h = cc
  register_gateway_tools-IsFresh (tool ∷ tools) endpoint auth now routes k h =
      let r : ToolRoute S =
        remote_route http_gateway endpoint auth now tool (Dict.get tool.name routes) in
      elim (Bool-cases (tool.name == k)) [
        | inl same ↦ gateway_stays tools endpoint auth now (Dict.set tool.name r routes) k (
            rw (Dict.get-set tool.name k r routes, same)
              (remote_route-IsFresh http_gateway endpoint auth now tool _))
        | inr other ↦
            register_gateway_tools-IsFresh tools endpoint auth now (Dict.set tool.name r routes) k
              (ground arith)
      ]
