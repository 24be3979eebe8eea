-- ===== src/Prometheus/Server/Discovery.antt =====
-- The service discovery of Prometheus: `startPromSdListener` and `ServeHTTP` of `httpSdConf`.
pub mod Targets
use Prim.Native.String.{◌++◌}
use goppstats.Prelude.{ℕ, String, List, [], ◌∷◌, none, some, ◌==◌, string_eq, if◌then◌else◌, map}
use goppstats.Prelude.Int.{pos}
use goppstats.Prelude.Format.{itoa}
use goppstats.Prelude.Result.{Result, ok, err, wrapped}
use goppstats.Config.{TomlConfig, ClusterConf}

pub record HttpSdConf : Type 0 where
  pub listen_ip : String
  pub listen_ports : List ℕ

pub record HttpSdTarget : Type 0 where
  pub targets : List String
  pub labels : List (String × String)

-- The loop over the configured clusters.
unfoldable pub prom_ports : List ClusterConf → List ℕ
prom_ports [] = []
prom_ports (cl ∷ rest) =
    let later = prom_ports rest in
    elim cl.prometheus_port [ none ↦ later | some port ↦ port ∷ later ]

abbrev pub target : String → ℕ → String
target ip port = ip ++ ":" ++ itoa (pos port)

unfoldable pub target_of : HttpSdConf → HttpSdTarget
target_of h = record {
  targets = map (target h.listen_ip) h.listen_ports;
  labels = ("__meta_prometheus_job", "isilon_ppstats") ∷ [];
}

-- `json.Marshal` and what is sent of it or of an error are parameters.
unfoldable serve_http :
    {Answer : Type 0}
    → (List HttpSdTarget → Result String)
    → (List (String × String) → String → Answer)
    → (List (String × String) → String → ℕ → Answer)
    → HttpSdConf
    → Answer
unfolding target_of
serve_http marshal write error h =
    let headers : List (String × String) = ("Content-Type", "application/json") ∷ [] in
    elim (marshal (target_of h ∷ [])) [
      | err e ↦ error headers "error encoding JSON response" 500
      | ok text ↦ write headers text
    ]

-- The handler that is served, or the error with which none is; the host's addresses are
-- `findExternalAddr()`.
unfoldable pub start_prom_sd_listener :
    {W : Type 0}
    → Result String
    → (String → W → Result Unit × W)
    → TomlConfig
    → W
    → Result HttpSdConf × W
unfolding prom_ports
start_prom_sd_listener external create_listener conf w =
    elim (if conf.prom_sd.listen_addr == "" then external else ok conf.prom_sd.listen_addr) [
      | err e ↦ (err e, w)
      | ok listen_addr ↦
          let (r, w') = create_listener (":" ++ itoa (pos conf.prom_sd.sd_port)) w in
          elim r [
            | err e ↦ (err (wrapped "error creating listener for Prometheus HTTP SD" e), w')
            | ok _ ↦ (
              ok (record { listen_ip = listen_addr; listen_ports = prom_ports conf.clusters }),
              w',
            )
          ]
    ]
