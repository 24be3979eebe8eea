-- ===== src/Prometheus/Server/Guard.antt =====
-- Who is served the metrics.
use mathlib.Core.Bool.{not}
use goppstats.Prelude.{
  ℕ, String, [], Bool, true, false, ◌&&◌, Option, none, some, ◌==◌, string_eq, if◌then◌else◌, ◌≡◌,
  arith, Bool-cases, inl, inr, Option-cases,
}
use goppstats.Prelude.Result.{Result, ok, Result-cases}
use goppstats.Config.{TomlConfig, PrometheusConfig, ClusterConf}
use goppstats.Prometheus.{PrometheusSink}
use goppstats.Prometheus.Server.{
  PrometheusClient, HttpRequest, Headers, realm, auth, Serving, client_of, new_sink, connect, init,
}

-- The credentials that a configuration asks for: none without `authenticated`, and none with it either
-- if the user name or the password is empty.
unfoldable pub credentials_of : PrometheusConfig → Option (String × String)
credentials_of c =
    if c.authenticated && not (c.username == "") && not (c.password == "")
    then some (c.username, c.password)
    else none

-- Whether what a request brings is what is asked for.
unfoldable pub admits : Option (String × String) → Option (String × String) → Bool
admits none brought = true
admits (some asked) none = false
admits (some (username, password)) (some (u, p)) = u == username && p == password

abbrev headers_for : Option (String × String) → Headers
headers_for none = []
headers_for (some _) = realm

module _ {Answer : Type 0} (error : Headers → String → ℕ → Answer)
    (h : Headers → HttpRequest → Answer) where
  auth-client_of :
      (config : TomlConfig) (port : ℕ) (r : HttpRequest)
      → auth error h (client_of config port) r ≡ (
          if admits (credentials_of config.prometheus) r.basic_auth
          then h (headers_for (credentials_of config.prometheus)) r
          else error realm "Not authorized" 401)
  unfolding auth client_of credentials_of admits
  auth-client_of config port r = elim (Bool-cases config.prometheus.authenticated) [
    | inl e ↦
        let c = client_of config port in
        let u : c.basic_username ≡ config.prometheus.username = ground (arith, e) in
        let p : c.basic_password ≡ config.prometheus.password = ground (arith, e) in
        ground (arith, e, u, p)
    | inr e ↦
        let c = client_of config port in
        let u : c.basic_username ≡ "" = ground (arith, e) in
        ground (arith, e, u, string_eq.beq_iff c.basic_username "")
  ]

module _ {Float64 W : Type 0} (register : W → Result Unit × W)
    (create_listener : String → W → Result Unit × W) where
  -- What `Init` leaves, if it reports no error.
  pub init-made :
      (cluster_name : String) (config : TomlConfig) (cl : ClusterConf) (w w' : W)
      (s : PrometheusSink Float64) (p : PrometheusClient) (serving : Serving)
      → init register create_listener cluster_name config cl w ≡ (ok (s, p, serving), w')
      → (s ≡ new_sink cluster_name config) × (port : ℕ) × (p ≡ client_of config port)
  unfolding init
  init-made cluster_name config cl w w' s p serving e = elim (Option-cases cl.prometheus_port) [
    | inl q ↦ let no : ⊥ = ground (arith, q, e) in elim no [ ]
    | inr (port, q) ↦ elim (Result-cases (register w).0) [
      | inr (x, a) ↦ let no : ⊥ = ground (arith, q, a, e) in elim no [ ]
      | inl (_, a) ↦
          elim (Result-cases
            (connect register create_listener (client_of config port) (register w).1).0) [
              | inr (x, b) ↦ let no : ⊥ = ground (arith, q, a, b, e) in elim no [ ]
              | inl (_, b) ↦ (ground (arith, q, a, b, e), port, ground (arith, q, a, b, e))
            ]
    ]
  ]

module _ {Float64 W Answer : Type 0} (register : W → Result Unit × W)
    (create_listener : String → W → Result Unit × W) (error : Headers → String → ℕ → Answer)
    (h : Headers → HttpRequest → Answer) where
  -- After `Init`, a request to the metrics is served exactly if it brings the credentials that the
  -- configuration asks for, and is refused with status 401 else. Everyone is served if it asks for none.
  pub init-auth :
      (cluster_name : String) (config : TomlConfig) (cl : ClusterConf) (w w' : W)
      (s : PrometheusSink Float64) (p : PrometheusClient) (serving : Serving) (r : HttpRequest)
      → init register create_listener cluster_name config cl w ≡ (ok (s, p, serving), w')
      → auth error h p r ≡ (
          if admits (credentials_of config.prometheus) r.basic_auth
          then h (headers_for (credentials_of config.prometheus)) r
          else error realm "Not authorized" 401)
  init-auth cluster_name config cl w w' s p serving r e =
      let (made, port, same) =
        init-made register create_listener cluster_name config cl w w' s p serving e in
      rw same (auth-client_of error h config port r)
