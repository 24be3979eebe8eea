-- ===== src/Api/Client/Queries/Connected.antt =====
-- What a client is after `Connect`.
use Prim.Native.String.{◌++◌}
use goppstats.Prelude.{
  String, some, false, ◌≡◌, sym, ap, ◌∙◌, subst, arith, ◌==◌, string_eq, if◌then◌else◌, inl, inr,
  Option-cases,
}
use goppstats.Prelude.Format.{itoa}
use goppstats.Prelude.Result.{ok, Result-cases, ◌>>=◌}
use goppstats.Api.Json.{Json, str, obj, Fields, get, as_object, as_string}
use goppstats.Api.Client.{Cluster, Net, config_path, authtype_session}
use goppstats.Api.Client.Session.{initialize, authenticate}
use goppstats.Api.Client.Get.{rest_get}
use goppstats.Api.Client.Get.Frame.{identity, identity-rest_get, identity-authenticate}
use goppstats.Api.Client.Get.Answers.{IsAnswered, rest_get-IsAnswer}
use goppstats.Api.Client.Queries.{
  apply_config, get_cluster_config, open_session, wrap_error, connect,
}
use goppstats.Api.Client.Queries.Laws.{as_object-some, as_string-some, bind-ok}

-- The client with a version and a name.
abbrev pub with_config : (String → String) → String → String → Cluster → Cluster
with_config to_lower version name c = record c {
  os_version = version;
  cluster_name = if c.preserve_case then name else to_lower name;
}

module _ {Float64 : Type 0} where
  -- The JSON of a cluster's configuration has this version and this name.
  abbrev pub HasConfig : Json Float64 → String → String → Type 0
  HasConfig v version name =
      (m : Fields Float64) × (release : Fields Float64) × (v ≡ obj m)
      × (get "onefs_version" m ≡ some (obj release))
      × (get "version" release ≡ some (str version))
      × (get "name" m ≡ some (str name))

  apply_config-ok :
      (to_lower : String → String) (c c' : Cluster) (v : Json Float64)
      → apply_config to_lower c v ≡ (ok tt, c')
      → (version : String) × (name : String) × HasConfig v version name
        × (c' ≡ with_config to_lower version name c)
  unfolding apply_config
  apply_config-ok to_lower c c' v e = elim (Option-cases (as_object (some v))) [
    | inl q ↦ let no : ⊥ = ground (arith, q, e) in elim no [ ]
    | inr (m, q) ↦ elim (Option-cases (as_object (get "onefs_version" m))) [
      | inl r ↦ let no : ⊥ = ground (arith, q, r, e) in elim no [ ]
      | inr (release, r) ↦ elim (Option-cases (as_string (get "version" release))) [
        | inl s ↦ let no : ⊥ = ground (arith, q, r, s, e) in elim no [ ]
        | inr (version, s) ↦ elim (Option-cases (as_string (get "name" m))) [
          | inl t ↦ let no : ⊥ = ground (arith, q, r, s, t, e) in elim no [ ]
          | inr (name, t) ↦ (
            version,
            name,
            (
              m,
              release,
              ground (arith, as_object-some (some v) m q),
              as_object-some (get "onefs_version" m) release r,
              as_string-some (get "version" release) version s,
              as_string-some (get "name" m) name t,
            ),
            ground (arith, q, r, s, t, e),
          )
        ]
      ]
    ]
  ]

-- A new client that is set up has its host's address.
initialize-ok :
    (c : Cluster)
    → c.connected ≡ false
    → (initialize c).0 ≡ ok tt
    → ((initialize c).1.base_url ≡ "https://" ++ c.hostname ++ ":" ++ itoa (initialize c).1.port)
      × ((c.username == "") ≡ false)
      × ((c.password == "") ≡ false)
      × ((c.hostname == "") ≡ false)
      × ((initialize c).1.auth_type ≡ c.auth_type)
unfolding initialize
initialize-ok c n p =
    let u : (c.username == "") ≡ false = ground (arith, n, p) in
    let s : (c.password == "") ≡ false = ground (arith, n, p) in
    let h : (c.hostname == "") ≡ false = ground (arith, n, p) in
    (ground (arith, n, u, s, h), u, s, h, ground arith)

module _ {Float64 W : Type 0} (net : Net Float64 W) where
  IsAnswered-identity :
      (c o : Cluster) (endpoint body : String)
      → identity c ≡ identity o
      → IsAnswered net c endpoint body
      → IsAnswered net o endpoint body
  IsAnswered-identity c o endpoint body same (url, resp, p, (req, w, (d, i, q), s), status, b) = (
    url,
    resp,
    subst (λ base. net.parse_url (base ++ endpoint) ≡ ok url) (ap (λ x. x.base_url) same) p,
    (req, w, (d, i ∙ same, q), s),
    status,
    b,
  )

  -- The cluster's configuration was answered, and the client has the version and the name of it.
  abbrev pub IsConfigured : Cluster → Cluster → Type 0
  IsConfigured c c' =
      (body : String) × (v : Json Float64) × (version : String) × (name : String) × IsAnswered net c
        config_path body
      × (net.unmarshal body ≡ ok v)
      × HasConfig v version name
      × (identity c' ≡ with_config net.to_lower version name (identity c))

  get_cluster_config-ok :
      (c c' : Cluster) (w w' : W) → get_cluster_config net c w ≡ (ok tt, c', w') → IsConfigured c c'
  unfolding get_cluster_config
  get_cluster_config-ok c c' w w' e =
      let (r, c₁, w₁) = rest_get net c config_path w in
      elim (Result-cases (r >>= net.unmarshal)) [
        | inr (x, q) ↦ let no : ⊥ = ground (arith, q, e) in elim no [ ]
        | inl (v, q) ↦
            let (body, b, u) = bind-ok r net.unmarshal v q in
            let applied : apply_config net.to_lower c₁ v ≡ (ok tt, c') = ground (arith, q, e) in
            let (version, name, has, made) = apply_config-ok net.to_lower c₁ c' v applied in
            (
              body,
              v,
              version,
              name,
              rest_get-IsAnswer net c config_path w body b,
              u,
              has,
              ap identity made
                  ∙ ap (with_config net.to_lower version name)
                      (identity-rest_get net c config_path w),
            )
      ]

  identity-open_session : (c : Cluster) (w : W) → identity (open_session net c w).1 ≡ identity c
  unfolding open_session
  identity-open_session c w = ground (arith, identity-authenticate net c w)

  open_session-authenticate :
      (c : Cluster) (w : W)
      → c.auth_type ≡ authtype_session
      → open_session net c w ≡ authenticate net c w
  unfolding open_session
  open_session-authenticate c w k = ground (arith, string_eq.beq_iff c.auth_type authtype_session)

  IsConfigured-open_session :
      (c c' : Cluster) (w : W) → IsConfigured (open_session net c w).1 c' → IsConfigured c c'
  IsConfigured-open_session c c' w (body, v, version, name, answered, u, has, same) =
      let i = identity-open_session c w in
      (
        body,
        v,
        version,
        name,
        IsAnswered-identity (open_session net c w).1 c config_path body i answered,
        u,
        has,
        same ∙ ap (with_config net.to_lower version name) i,
      )

  pub connect-IsConfigured :
      (c c' : Cluster) (w w' : W)
      → c.connected ≡ false
      → connect net c w ≡ (ok tt, c', w')
      → let c₁ = (initialize c).1 in
        IsConfigured c₁ c'
        × (c₁.base_url ≡ "https://" ++ c.hostname ++ ":" ++ itoa c₁.port)
        × ((c.username == "") ≡ false)
        × ((c.password == "") ≡ false)
        × ((c.hostname == "") ≡ false)
        × (c.auth_type ≡ authtype_session → (authenticate net c₁ w).0 ≡ ok tt)
  unfolding connect initialize open_session wrap_error
  connect-IsConfigured c c' w w' n e =
      let (i, c₁) = initialize c in
      let (a, c₂, w₂) = open_session net c₁ w in
      let (g, c₃, w₃) = get_cluster_config net c₂ w₂ in
      elim (Result-cases i) [
        | inr (x, p) ↦ let no : ⊥ = ground (arith, p, e) in elim no [ ]
        | inl (_, p) ↦ elim (Result-cases a) [
          | inr (x, q) ↦ let no : ⊥ = ground (arith, p, q, e) in elim no [ ]
          | inl (_, q) ↦ elim (Result-cases g) [
            | inr (x, r) ↦ let no : ⊥ = ground (arith, p, q, r, e) in elim no [ ]
            | inl (_, r) ↦
                let answered : get_cluster_config net c₂ w₂ ≡ (ok tt, c', w') =
                  ground (arith, p, q, r, e) in
                let (base, u, s, h, t) = initialize-ok c n p in
                (
                  IsConfigured-open_session c₁ c' w (get_cluster_config-ok c₂ c' w₂ w' answered),
                  base,
                  u,
                  s,
                  h,
                  λ k. sym (ap (λ x. x.0) (open_session-authenticate c₁ w (t ∙ k))) ∙ q,
                )
          ]
        ]
      ]
