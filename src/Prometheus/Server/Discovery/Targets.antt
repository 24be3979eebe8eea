-- ===== src/Prometheus/Server/Discovery/Targets.antt =====
-- The targets that are discovered.
use Prim.Native.String.{◌++◌}
use goppstats.Prelude.{
  ℕ, String, List, [], ◌∷◌, none, some, ◌==◌, string_eq, if◌then◌else◌, map, In, ◌≡◌, refl, sym, ap,
  ◌∙◌, inl, inr, arith, Option-cases, subst, ◌↔◌,
}
use goppstats.Prelude.Int.{pos}
use goppstats.Prelude.Format.{itoa}
use goppstats.Prelude.Result.{Result, ok, Result-cases}
use goppstats.Config.{TomlConfig, ClusterConf}
use goppstats.Prometheus.Server.Discovery.{
  HttpSdConf, prom_ports, target, target_of, start_prom_sd_listener,
}

-- A configured cluster, disabled or not, has the port of this target.
abbrev pub IsConfigured : TomlConfig → String → String → Type 0
IsConfigured conf ip text =
    (cl : ClusterConf) × (port : ℕ) × In cl conf.clusters
    × (cl.prometheus_port ≡ some port)
    × (text ≡ target ip port)

In-map :
    {A B : Type 0} (f : A → B) (b : B) (xs : List A)
    → In b (map f xs)
    → (a : A) × In a xs × (b ≡ f a)
In-map f b [] m = elim m [ ]
In-map f b (x ∷ xs) (inl e) = (x, inl refl, e)
In-map f b (x ∷ xs) (inr m) = let (a, i, e) = In-map f b xs m in (a, inr i, e)

map-In : {A B : Type 0} (f : A → B) (a : A) (xs : List A) → In a xs → In (f a) (map f xs)
map-In f a [] m = elim m [ ]
map-In f a (x ∷ xs) (inl e) = inl (ap f e)
map-In f a (x ∷ xs) (inr m) = inr (map-In f a xs m)

prom_ports-none :
    (cl : ClusterConf) (rest : List ClusterConf)
    → cl.prometheus_port ≡ none
    → prom_ports (cl ∷ rest) ≡ prom_ports rest
unfolding prom_ports
prom_ports-none cl rest e = rw (e, prom_ports)

prom_ports-some :
    (cl : ClusterConf) (rest : List ClusterConf) (port : ℕ)
    → cl.prometheus_port ≡ some port
    → prom_ports (cl ∷ rest) ≡ port ∷ prom_ports rest
unfolding prom_ports
prom_ports-some cl rest port e = rw (e, prom_ports)

In-prom_ports :
    (port : ℕ) (cls : List ClusterConf)
    → In port (prom_ports cls)
    → (cl : ClusterConf) × In cl cls × (cl.prometheus_port ≡ some port)
In-prom_ports port [] m = unfold prom_ports in elim m [ ]
In-prom_ports port (cl ∷ rest) m = elim (Option-cases cl.prometheus_port) [
  | inl e ↦
      let (c, i, q) = In-prom_ports port rest (subst (In port) (prom_ports-none cl rest e) m) in
      (c, inr i, q)
  | inr (p, e) ↦ elim (subst (In port) (prom_ports-some cl rest p e) m) [
    | inl q ↦ (cl, inl refl, e ∙ ap some (sym q))
    | inr n ↦ let (c, i, q) = In-prom_ports port rest n in (c, inr i, q)
  ]
]

prom_ports-In :
    (port : ℕ) (cl : ClusterConf) (cls : List ClusterConf)
    → In cl cls
    → cl.prometheus_port ≡ some port
    → In port (prom_ports cls)
prom_ports-In port cl [] m e = elim m [ ]
prom_ports-In port cl (c ∷ rest) (inl q) e =
    subst (In port) (sym (prom_ports-some c rest port (ap (λ x. x.prometheus_port) (sym q) ∙ e)))
      (inl refl)
prom_ports-In port cl (c ∷ rest) (inr m) e = elim (Option-cases c.prometheus_port) [
  | inl q ↦ subst (In port) (sym (prom_ports-none c rest q)) (prom_ports-In port cl rest m e)
  | inr (p, q) ↦
      subst (In port) (sym (prom_ports-some c rest p q)) (inr (prom_ports-In port cl rest m e))
]

started_ports :
    {W : Type 0} (external : Result String) (create_listener : String → W → Result Unit × W)
    (conf : TomlConfig) (w w' : W) (h : HttpSdConf)
    → start_prom_sd_listener external create_listener conf w ≡ (ok h, w')
    → h.listen_ports ≡ prom_ports conf.clusters
unfolding start_prom_sd_listener
started_ports external create_listener conf w w' h e =
    elim (Result-cases
      (if conf.prom_sd.listen_addr == "" then external else ok conf.prom_sd.listen_addr)) [
        | inr (x, q) ↦ let no : ⊥ = ground (arith, q, e) in elim no [ ]
        | inl (addr, q) ↦
            elim (Result-cases (create_listener (":" ++ itoa (pos conf.prom_sd.sd_port)) w).0) [
              | inr (x, p) ↦ let no : ⊥ = ground (arith, q, p, e) in elim no [ ]
              | inl (_, p) ↦ ground (arith, q, p, e)
            ]
      ]

-- Once the discovery has started, its targets are those of the configured clusters that have a port,
-- at the address of the handler. A disabled cluster is one of them.
pub start_prom_sd_listener-targets :
    {W : Type 0} (external : Result String) (create_listener : String → W → Result Unit × W)
    (conf : TomlConfig) (w w' : W) (h : HttpSdConf) (text : String)
    → start_prom_sd_listener external create_listener conf w ≡ (ok h, w')
    → In text (target_of h).targets ↔ IsConfigured conf h.listen_ip text
unfolding target_of
start_prom_sd_listener-targets external create_listener conf w w' h text e =
    let ports = started_ports external create_listener conf w w' h e in
    (
      λ m.
          let (port, i, t) = In-map (target h.listen_ip) text h.listen_ports m in
          let (cl, j, p) = In-prom_ports port conf.clusters (subst (In port) ports i) in
          (cl, port, j, p, t),
      λ (cl, port, j, p, t).
          subst (λ x. In x (map (target h.listen_ip) h.listen_ports)) (sym t)
            (map-In (target h.listen_ip) port h.listen_ports
              (subst (In port) (sym ports) (prom_ports-In port cl conf.clusters j p))),
    )
