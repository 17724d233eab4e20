-- ===== src/Api/Routes.antt =====
-- api.go: the routes beside those of the keys, and which handler answers which request.
pub mod Laws
use cave.Base.{
  ℕ, Bool, true, false, ◌&&◌, ◌||◌, Option, none, some, List, [], ◌∷◌, ◌++◌, map, Bytes, codes, eqb,
  if◌then◌else◌, Dict, lookup, Err, Outcome, ret, fail, panic, ◌>>?◌, take, length, drop,
}
use cave.Path.{split, slash, trim_path}
use cave.Types.{Mode, dev, prod}
use cave.Cluster.{Cluster, Peer}
use cave.Boot.{Config}

-- The handlers that NewAPI registers; the user interface and the metrics are library handlers.
pub data Handler : Type 0 where
  user_interface plugin_handler kv_handler route_login route_cluster_nodes : Handler
  multi_query_handler route_logs metrics_handler route_dashboard : Handler
  route_system_config route_system_info : Handler

abbrev pub starts_with : Bytes → Bytes → Bool
starts_with prefix path = eqb (take (length prefix) path) prefix

-- A route of echo: a method, where Any is `none`, and a path, which ends in `*` or not.
pub record RouteOf : Type 0 where
  pub method : Option Bytes
  pub path : Bytes
  pub open_end : Bool
  pub handler : Handler

abbrev exact : Bytes → Bytes → Handler → RouteOf
exact m p h = record { method = some m; path = p; open_end = false; handler = h }

-- The calls of NewAPI in their order.
abbrev pub routes : List RouteOf
routes =
    exact (codes "GET") (codes "/") user_interface
    ∷ record {
      method = some (codes "GET");
      path = codes "/ui/";
      open_end = true;
      handler = user_interface;
    }
    ∷ record {
      method = none;
      path = codes "/api/v1/plugin/";
      open_end = true;
      handler = plugin_handler;
    }
    ∷ record { method = none; path = codes "/api/v1/kv/"; open_end = false; handler = kv_handler }
    ∷ record { method = none; path = codes "/api/v1/kv/"; open_end = true; handler = kv_handler }
    ∷ exact (codes "POST") (codes "/api/v1/login") route_login
    ∷ exact (codes "GET") (codes "/api/v1/cluster/nodes") route_cluster_nodes
    ∷ exact (codes "POST") (codes "/api/v1/query") multi_query_handler
    ∷ exact (codes "GET") (codes "/api/v1/perf/logs") route_logs
    ∷ exact (codes "GET") (codes "/api/v1/perf/metrics") metrics_handler
    ∷ exact (codes "GET") (codes "/api/v1/perf/dashboard") route_dashboard
    ∷ exact (codes "GET") (codes "/api/v1/system/config") route_system_config
    ∷ exact (codes "GET") (codes "/api/v1/system/info") route_system_info
    ∷ []

-- Whether echo may give a request to the route.
unfoldable pub matches : RouteOf → Bytes → Bytes → Bool
matches r method path =
    elim (r.method) [ none ↦ true | some m ↦ eqb m method ]
    && (if r.open_end then starts_with r.path path else eqb r.path path)

-- What routeClusterNodes puts under "mode" and "nodes": in dev mode the address of the node with an
-- empty key, in a cluster the peers and the node itself.
pub data Nodes : Type 0 where
  alone : Bytes → Nodes
  cluster : List Peer → Nodes

-- `self` is what the noise node's ID gives, a panic where there is no node.
unfoldable pub cluster_nodes : Mode → Outcome Peer → Cluster → Outcome Nodes
cluster_nodes dev self c = ret (alone c.advertise_host)
cluster_nodes prod self c = self >>? λ p. ret (cluster (c.peers ++ p ∷ []))

-- The request that a plugin gets: the body is read into a nil slice, which holds nothing.
pub record ApiRequest (Parts : Type 0) : Type 0 where
  pub parts : Parts
  pub body : Bytes

-- `fmt.Sprintf("api:%s:http_%s", name, strings.ToLower(method))`
abbrev pub plugin_urn : (Bytes → Bytes) → Bytes → Bytes → Bytes
plugin_urn to_lower name method = codes "api:" ++ (name ++ (codes ":http_" ++ to_lower method))

abbrev pub head_or_empty : List Bytes → Bytes
head_or_empty [] = []
head_or_empty (p ∷ ps) = p

-- c.JSON(500, ... err.Error): the method itself, which does not encode, so that the handler fails.
abbrev pub unencodable : {A : Type 0} → Err → Outcome A → Outcome A
unencodable e (ret a) = ret a
unencodable e (fail x) = fail e
unencodable e panic = panic

-- PluginHandler: the status and the answer of the plugin, if one of the type "api" has the name.
-- `procs` are the processes of that type, `call` is the manager's Call, `unsupported` the error of
-- an answer that does not encode; reading into the nil slice succeeds.
unfoldable pub plugin_answer :
    {Parts Result Proc : Type 0}
    → Dict Proc
    → (Bytes → Bytes)
    → (Bytes → ApiRequest Parts → Outcome Result)
    → Err
    → Bytes
    → Bytes
    → Parts
    → Outcome (ℕ × Option Result)
plugin_answer procs to_lower call unsupported method url parts =
    trim_path url (codes "/api/v1/plugin/") >>? λ path.
    let name = head_or_empty (split slash path) in
    elim (lookup name procs) [
      | none ↦ ret (404, none)
      | some p ↦
          unencodable unsupported
            (call (plugin_urn to_lower name method) (record { parts = parts; body = [] }))
          >>? λ r. ret (200, some r)
    ]
