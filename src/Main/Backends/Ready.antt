-- ===== src/Main/Backends/Ready.antt =====
-- The back end with which the loop is entered.
use goppstats.Prelude.{
  String, Bool, Option, ◌≡◌, ap, sym, ◌∙◌, arith, ◌==◌, string_eq, inl, inr, Bool-cases,
}
use goppstats.Prelude.Result.{Result, ok, Result-cases}
use goppstats.Api.Client.{Cluster, Net}
use goppstats.Api.Client.Queries.{connect}
use goppstats.Config.{TomlConfig, ClusterConf}
use goppstats.Influx.{InfluxSink}
use goppstats.Influx.V1
use goppstats.Influx.V1.{HttpConfig, BatchPointsConfig}
use goppstats.Influx.V2
use goppstats.Prometheus.Server
use goppstats.Prometheus.Server.{new_sink}
use goppstats.Prometheus.Server.Guard.{init-made}
use goppstats.Main.Backends.{Libraries, AnySink, discard, influx_db, influx_db_v2, prometheus, init}
use goppstats.Main.Cluster.{new_cluster}
use goppstats.Main.Writer.{
  Writer, discard_sink, influx_db_sink, influx_db_v2_sink, prometheus_sink, get_db_writer,
  discard_init, start_collection,
}

-- The name of a back end in the configuration.
abbrev plugin : Writer → String
plugin discard_sink = "discard"
plugin influx_db_sink = "influxdb"
plugin influx_db_v2_sink = "influxdbv2"
plugin prometheus_sink = "prometheus"

get_db_writer-plugin :
    (quoted : String → String) (sp : String) (writer : Writer)
    → get_db_writer quoted sp ≡ ok writer
    → plugin writer ≡ sp
unfolding get_db_writer
get_db_writer-plugin quoted sp writer e = elim (Bool-cases (sp == "discard")) [
  | inl a ↦ ground (arith, a, e, string_eq.beq_iff sp "discard")
  | inr a ↦ elim (Bool-cases (sp == "influxdb")) [
    | inl b ↦ ground (arith, a, b, e, string_eq.beq_iff sp "influxdb")
    | inr b ↦ elim (Bool-cases (sp == "influxdbv2")) [
      | inl c ↦ ground (arith, a, b, c, e, string_eq.beq_iff sp "influxdbv2")
      | inr c ↦ elim (Bool-cases (sp == "prometheus")) [
        | inl d ↦ ground (arith, a, b, c, d, e, string_eq.beq_iff sp "prometheus")
        | inr d ↦ let no : ⊥ = ground (arith, a, b, c, d, e) in elim no [ ]
      ]
    ]
  ]
]

module _ {Client W : Type 0} (new_http_client : HttpConfig → Result Client)
    (ping : Client → W → Result Unit × W) where
  v1_init-name :
      (lookup_env : String → Option String) (name : String) (config : TomlConfig) (w : W)
      (s : InfluxSink) (bp : BatchPointsConfig) (client : Client)
      → (V1.init new_http_client ping lookup_env name config w).0 ≡ ok (s, bp, client)
      → s.cluster_name ≡ name
  unfolding V1.init
  v1_init-name lookup_env name config w s bp client e = ground (arith, e)

module _ {Client WriteApi W : Type 0} (new_client : String → String → Client)
    (ping : Client → W → Result Bool × W) (write_api : Client → String → String → WriteApi) where
  v2_init-name :
      (lookup_env : String → Option String) (name : String) (config : TomlConfig) (w : W)
      (s : InfluxSink) (api : WriteApi)
      → (V2.init new_client ping write_api lookup_env name config w).0 ≡ ok (s, api)
      → s.cluster_name ≡ name
  unfolding V2.init
  v2_init-name lookup_env name config w s api e = ground (arith, e)

module _ {Float64 W DbClient DbPoint V2Client WriteApi Point : Type 0}
    (libs : Libraries Float64 W DbClient DbPoint V2Client WriteApi Point) where
  -- The back end that a sink belongs to, and the name of its cluster.
  abbrev pub plugin_of : AnySink libs → String
  plugin_of (discard s) = "discard"
  plugin_of (influx_db s bp client) = "influxdb"
  plugin_of (influx_db_v2 s api) = "influxdbv2"
  plugin_of (prometheus s) = "prometheus"

  abbrev pub cluster_of : AnySink libs → String
  cluster_of (discard s) = s.cluster_name
  cluster_of (influx_db s bp client) = s.cluster_name
  cluster_of (influx_db_v2 s api) = s.cluster_name
  cluster_of (prometheus s) = s.cluster_name

  init-plugin :
      (config : TomlConfig) (cl : ClusterConf) (writer : Writer) (c : Cluster) (w : W)
      (s : AnySink libs)
      → (init libs config cl writer c w).0 ≡ ok s
      → (plugin_of s ≡ plugin writer) × (cluster_of s ≡ c.cluster_name)
  unfolding init discard_init new_sink
  init-plugin config cl discard_sink c w s e = (ground (arith, e), ground (arith, e))
  init-plugin config cl influx_db_sink c w s e =
      elim (Result-cases
        (V1.init libs.new_http_client libs.ping libs.lookup_env c.cluster_name config w).0) [
          | inr (x, q) ↦ let no : ⊥ = ground (arith, q, e) in elim no [ ]
          | inl ((sink, bp, client), q) ↦
              let named =
                v1_init-name libs.new_http_client libs.ping libs.lookup_env c.cluster_name config w
                  sink bp client q in
              (ground (arith, q, e), ground (arith, q, e, named))
        ]
  init-plugin config cl influx_db_v2_sink c w s e =
      elim (Result-cases
        (V2.init libs.new_client libs.ping_v2 libs.write_api libs.lookup_env c.cluster_name config
          w).0) [
            | inr (x, q) ↦ let no : ⊥ = ground (arith, q, e) in elim no [ ]
            | inl ((sink, api), q) ↦
                let named =
                  v2_init-name libs.new_client libs.ping_v2 libs.write_api libs.lookup_env
                    c.cluster_name config w sink api q in
                (ground (arith, q, e), ground (arith, q, e, named))
          ]
  init-plugin config cl prometheus_sink c w s e =
      let made =
        Server.init libs.register libs.create_listener {Float64 = Float64} c.cluster_name config cl
          w in
      elim (Result-cases made.0) [
        | inr (x, q) ↦ let no : ⊥ = ground (arith, q, e) in elim no [ ]
        | inl ((sink, client, serving), q) ↦
            let (same, port, p) =
              init-made libs.register libs.create_listener c.cluster_name config cl w made.1 sink
                client serving (ap (λ r. (r, made.1)) q) in
            (ground (arith, q, e), ground (arith, q, e, same))
      ]

  module _ (net : Net Float64 W) (quoted : String → String) where
    -- The loop is entered only with the client that was made of the cluster's configuration and that has
    -- connected, and with the back end that the processor of the configuration names, under the name of
    -- the connected cluster. With any other processor it is not entered.
    pub start_collection-ready :
        (config : TomlConfig) (cl : ClusterConf) (c : Cluster) (s : AnySink libs) (w w' : W)
        → start_collection net quoted (init libs config cl) libs.lookup_env config.global cl w
          ≡ (ok (c, s), w')
        → (plugin_of s ≡ config.global.processor)
          × (cluster_of s ≡ c.cluster_name)
          × ((c₀ : Cluster) × (new_cluster libs.lookup_env config.global cl ≡ ok c₀)
              × ((connect net c₀ w).0 ≡ ok tt)
              × ((connect net c₀ w).1 ≡ c))
    unfolding start_collection
    start_collection-ready config cl c s w w' e =
        elim (Result-cases (new_cluster libs.lookup_env config.global cl)) [
          | inr (x, p) ↦ let no : ⊥ = ground (arith, p, e) in elim no [ ]
          | inl (c₀, p) ↦
              let (r, c₁, w₁) = connect net c₀ w in
              elim (Result-cases r) [
                | inr (x, q) ↦ let no : ⊥ = ground (arith, p, q, e) in elim no [ ]
                | inl (_, q) ↦ elim (Result-cases (get_db_writer quoted config.global.processor)) [
                  | inr (x, g) ↦ let no : ⊥ = ground (arith, p, q, g, e) in elim no [ ]
                  | inl (writer, g) ↦
                      let plugged = get_db_writer-plugin quoted config.global.processor writer g in
                      elim (Result-cases (init libs config cl writer c₁ w₁).0) [
                        | inr (x, i) ↦ let no : ⊥ = ground (arith, p, q, g, i, e) in elim no [ ]
                        | inl (sink, i) ↦
                            let (a, b) = init-plugin config cl writer c₁ w₁ sink i in
                            let same : sink ≡ s = ground (arith, p, q, g, i, e) in
                            let client : c₁ ≡ c = ground (arith, p, q, g, i, e) in
                            (
                              ap plugin_of (sym same) ∙ a ∙ plugged,
                              ap cluster_of (sym same) ∙ b ∙ ap (λ x. x.cluster_name) client,
                              (c₀, p, q, client),
                            )
                      ]
                ]
              ]
        ]
