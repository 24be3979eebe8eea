-- ===== src/Examples/Server.antt =====
-- The HTTP server and the service discovery of Prometheus, on a host that lets everything be listened to.
use goppstats.Prelude.{ℕ, ◌+◌, String, [], ◌∷◌, some, ◌≡◌, ◌↔◌, refl, string_eq, In}
use goppstats.Prelude.Result.{Result, ok, err, message}
use goppstats.Prometheus.Server.{
  HttpRequest, auth, plain, client_of, new_sink, init, connect, serving_of,
}
use goppstats.Prometheus.Server.Guard.{init-auth, credentials_of, admits}
use goppstats.Prometheus.Server.Discovery.{target_of, start_prom_sd_listener, prom_ports}
use goppstats.Prometheus.Server.Discovery.Targets.{IsConfigured, start_prom_sd_listener-targets}
use goppstats.Examples.Program.{toml, cluster_conf}

abbrev free : String → ℕ → Result Unit × ℕ
free addr opened = (ok tt, opened + 1)

abbrev request : HttpRequest
request = record { path = "/metrics"; basic_auth = some ("scraper", "guess") }

-- An answer is its status.
init-auth_example :
    auth {Answer = ℕ}
      (λ headers text status. status)
      (λ headers r. 200)
      (client_of toml 9090)
      request
    ≡ 401
unfolding init connect serving_of credentials_of admits
init-auth_example =
    init-auth (λ w. (ok tt, w)) free (λ headers text status. status) (λ headers r. 200) "isi" toml
      cluster_conf 0 1 (new_sink {Float64 = ℕ} "isi" toml) (client_of toml 9090) plain request refl

-- The port of the disabled cluster is a target.
start_prom_sd_listener-targets_example :
    In "10.0.0.1:9091"
      (target_of (record { listen_ip = "10.0.0.1"; listen_ports = 9091 ∷ 9090 ∷ [] })).targets
    ↔ IsConfigured toml "10.0.0.1" "10.0.0.1:9091"
unfolding start_prom_sd_listener prom_ports
start_prom_sd_listener-targets_example =
    start_prom_sd_listener-targets (err (message "no address")) free toml 0 1
      (record { listen_ip = "10.0.0.1"; listen_ports = 9091 ∷ 9090 ∷ [] }) "10.0.0.1:9091" refl
