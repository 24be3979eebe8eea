-- ===== src/Prometheus/Server.antt =====
-- The Prometheus sink's HTTP server: `auth`, `Connect` and `Init` (prometheus.go).
pub mod Guard
pub mod Discovery
use Prim.Native.String.{◌++◌}
use mathlib.Core.Bool.{not}
use goppstats.Prelude.{
  ℕ, String, List, [], ◌∷◌, ◌&&◌, ◌||◌, Option, none, some, ◌==◌, string_eq, if◌then◌else◌,
}
use goppstats.Prelude.Int.{pos}
use goppstats.Prelude.Format.{itoa}
use goppstats.Prelude.Result.{Result, ok, err, message, wrapped}
use goppstats.Config.{TomlConfig, ClusterConf}
use goppstats.Backend.Exports.{new_export_map}
use goppstats.Prometheus.{PrometheusSink}

-- `PrometheusClient`, less the server and the registry.
pub record PrometheusClient : Type 0 where
  pub listen_port : ℕ
  pub tls_cert : String
  pub tls_key : String
  pub basic_username : String
  pub basic_password : String

-- What the handlers read of a request: its path, and `r.BasicAuth()`.
pub record HttpRequest : Type 0 where
  pub path : String
  pub basic_auth : Option (String × String)

abbrev pub Headers : Type 0
Headers = List (String × String)

abbrev pub realm : Headers
realm = ("WWW-Authenticate", "Basic realm=\"Restricted\"") ∷ []

abbrev description : String
description =
    "<html>\n<body>\n<h1>Dell PowerScale OpenMetrics Exporter</h1>\n"
    ++ "<p>Partitioned-performance metrics for this cluster may be found at "
    ++ "<a href=\"/metrics\">/metrics</a></p>\n</body>\n</html>"

-- What `fmt.Fprintf` answers with is a parameter.
unfoldable homepage :
    {Answer : Type 0} → (Headers → String → Answer) → Headers → HttpRequest → Answer
homepage print headers r = print headers description

-- A handler gets the headers that are already set; `http.Error` is a parameter.
module _ {Answer : Type 0} (error : Headers → String → ℕ → Answer)
    (h : Headers → HttpRequest → Answer) where
  unfoldable pub auth : PrometheusClient → HttpRequest → Answer
  auth p r =
      if not (p.basic_username == "") && not (p.basic_password == "")
      then elim r.basic_auth [
        | none ↦ error realm "Not authorized" 401
        | some (username, password) ↦
            if not (username == p.basic_username) || not (password == p.basic_password)
            then error realm "Not authorized" 401
            else h realm r
      ]
      else h [] r

  -- The routes of `Connect`: the guarded metrics, and the home page at every other path. A path stands
  -- as the multiplexer has cleaned it.
  unfoldable handle : (Headers → String → Answer) → PrometheusClient → HttpRequest → Answer
  unfolding auth homepage
  handle print p r = if r.path == "/metrics" then auth p r else homepage print [] r

-- How the goroutine serves: with TLS if both files are given.
pub data Serving : Type 0 where
  plain : Serving
  tls : String → String → Serving

unfoldable pub serving_of : PrometheusClient → Serving
serving_of p =
    if not (p.tls_cert == "") && not (p.tls_key == "") then tls p.tls_cert p.tls_key else plain

-- The client of a configuration and a port.
unfoldable pub client_of : TomlConfig → ℕ → PrometheusClient
client_of config port = record {
  listen_port = port;
  tls_cert = config.prometheus.tls_cert;
  tls_key = config.prometheus.tls_key;
  basic_username = if config.prometheus.authenticated then config.prometheus.username else "";
  basic_password = if config.prometheus.authenticated then config.prometheus.password else "";
}

-- A new sink, with the name of its cluster.
unfoldable pub new_sink : {Float64 : Type 0} → String → TomlConfig → PrometheusSink Float64
new_sink cluster_name config = record {
  cluster_name = cluster_name;
  instance_label_name = elim config.prometheus.instance_label_name [ none ↦ "" | some n ↦ n ];
  exports = new_export_map config.global.lookup_export_ids;
  dsm = none;
  fam = [];
}

-- The registry and the sockets of the host are parameters.
module _ {W : Type 0} (register : W → Result Unit × W)
    (create_listener : String → W → Result Unit × W) where
  unfoldable pub connect : PrometheusClient → W → Result Serving × W
  unfolding serving_of
  connect p w =
      let (r, w') = create_listener (":" ++ itoa (pos p.listen_port)) w in
      elim r [
        | err e ↦ (err (wrapped "error creating listener for Prometheus client" e), w')
        | ok _ ↦ (ok (serving_of p), w')
      ]

  -- `Init` of a new sink, for a cluster's configuration, with the name of the cluster, which is also what
  -- `%v` prints of it; after an error the sink is not used.
  unfoldable pub init :
      {Float64 : Type 0}
      → String
      → TomlConfig
      → ClusterConf
      → W
      → Result (PrometheusSink Float64 × PrometheusClient × Serving) × W
  unfolding new_sink client_of connect
  init cluster_name config cl w = elim cl.prometheus_port [
    | none ↦ (
      err (
          message (
            "prometheus plugin initialization failed - missing port definition for cluster "
            ++ cluster_name)),
      w,
    )
    | some port ↦
        let (registered, w₁) = register w in
        elim registered [
          | err e ↦ (err (wrapped "failed to register Prometheus collector" e), w₁)
          | ok _ ↦
              let (connected, w₂) = connect (client_of config port) w₁ in
              elim connected [
                | err e ↦ (err e, w₂)
                | ok serving ↦
                    (ok (new_sink cluster_name config, client_of config port, serving), w₂)
              ]
        ]
  ]
