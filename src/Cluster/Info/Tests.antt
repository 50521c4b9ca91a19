-- ===== src/Cluster/Info/Tests.antt =====
-- A cluster with one node, and the answer that is kept.
use subctl.Base.{◌≡◌, refl, true, [], ◌∷◌, none, some}
use subctl.Base.Effect.{ok, err, new_error, ask, pure, ◌>>=◌, on_error, or_wrap, call, list, node}
use subctl.Cluster.Info.{InfoApi, ClusterInfo, has_single_node, count_nodes}

abbrev site : InfoApi
site = record {
  get_submariner = λ log. err (new_error "refused");
  get_service_discovery = λ log. err (new_error "refused");
  list_gateways = λ log. ok [];
  list_route_agents = λ log. ok [];
  list_nodes = λ log. ok ("worker" ∷ []);
  list_endpoints = λ log. ok [];
}

abbrev fresh : ClusterInfo
fresh = record {
  cluster_name = "east";
  api = site;
  submariner_cr = none;
  discovery_cr = none;
  node_count = none;
}

asked :
    has_single_node fresh []
    ≡ (ok (true, record fresh { node_count = some 1 }), call list node "" "" ∷ [])
unfolding has_single_node count_nodes ◌>>=◌ or_wrap on_error ask pure
asked = refl
