-- ===== src/Main/Cluster.antt =====
-- What `statsloop` makes of a cluster's configuration: the client that it connects.
use goppstats.Prelude.{
  String, Bool, false, ◌||◌, Option, none, some, ◌≡◌, ◌⊎◌, inl, inr, ◌==◌, string_eq, if◌then◌else◌,
  arith, Bool-cases,
}
use goppstats.Prelude.Int.{pos}
use goppstats.Prelude.Result.{Result, ok, err, Error, message, Result-cases}
use goppstats.Config.{GlobalConfig, ClusterConf}
use goppstats.Config.Read.{secret_from_env}
use goppstats.Api.Client.{Cluster, authtype_basic, authtype_session}
use goppstats.Api.Client.Session.{initialize}

-- The cluster's own setting, or the global one.
unfoldable preserve_case_of : Option Bool → Bool → Bool
preserve_case_of none global = global
preserve_case_of (some own) global = own

-- A missing or unknown type is the session's.
unfoldable auth_type_of : String → String
auth_type_of auth_type =
    if auth_type == authtype_session
    then authtype_session
    else if auth_type == authtype_basic
    then authtype_basic
    else authtype_session

-- The client, or the error with which the cluster is left out.
unfoldable pub new_cluster : (String → Option String) → GlobalConfig → ClusterConf → Result Cluster
unfolding auth_type_of preserve_case_of
new_cluster lookup_env gc cc =
    if cc.username == "" || cc.password == ""
    then err (message "Username and password for cluster must not be null")
    else elim (secret_from_env lookup_env cc.password) [
      | err e ↦ err e
      | ok password ↦ ok (record {
        username = cc.username;
        password = password;
        auth_type = auth_type_of cc.auth_type;
        hostname = cc.hostname;
        port = pos 8080;
        verify_ssl = cc.ssl_check;
        os_version = "";
        cluster_name = "";
        base_url = "";
        connected = false;
        csrf_token = "";
        reauth_time = pos 0;
        max_retries = gc.max_retries;
        preserve_case = preserve_case_of cc.preserve_case gc.preserve_case;
      })
    ]

-- Setting up a client that was made fails only for an empty password or an empty host name, as a
-- variable of the environment may be empty.
initialize-new_cluster :
    (lookup_env : String → Option String) (gc : GlobalConfig) (cc : ClusterConf) (c : Cluster)
    (e : Error)
    → new_cluster lookup_env gc cc ≡ ok c
    → (initialize c).0 ≡ err e
    → ((c.password ≡ "") × (secret_from_env lookup_env cc.password ≡ ok "")) ⊎ (cc.hostname ≡ "")
unfolding new_cluster initialize
initialize-new_cluster lookup_env gc cc c e h i =
    elim (Bool-cases (cc.username == "" || cc.password == "")) [
      | inl q ↦ let no : ⊥ = ground (arith, q, h) in elim no [ ]
      | inr q ↦ elim (Result-cases (secret_from_env lookup_env cc.password)) [
        | inr (x, p) ↦ let no : ⊥ = ground (arith, q, p, h) in elim no [ ]
        | inl (password, p) ↦ elim (Bool-cases (password == "")) [
          | inl r ↦ inl (
            ground (arith, q, p, r, h, string_eq.beq_iff password ""),
            ground (arith, p, r, string_eq.beq_iff password ""),
          )
          | inr r ↦ inr (
              ground (
                arith,
                q,
                p,
                r,
                h,
                i,
                string_eq.beq_iff cc.username "",
                string_eq.beq_iff cc.hostname "",
              ))
        ]
      ]
    ]

-- The client of a cluster authenticates in one of the two known ways.
new_cluster-auth_type :
    (lookup_env : String → Option String) (gc : GlobalConfig) (cc : ClusterConf) (c : Cluster)
    → new_cluster lookup_env gc cc ≡ ok c
    → (c.auth_type ≡ authtype_session) ⊎ (c.auth_type ≡ authtype_basic)
unfolding new_cluster auth_type_of
new_cluster-auth_type lookup_env gc cc c h =
    let is : c.auth_type ≡ auth_type_of cc.auth_type =
      elim (Result-cases (secret_from_env lookup_env cc.password)) [
        | inl (password, p) ↦ ground (arith, p, h)
        | inr (x, p) ↦ let no : ⊥ = ground (arith, p, h) in elim no [ ]
      ] in
    elim (Bool-cases (cc.auth_type == authtype_session)) [
      | inl q ↦ inl (ground (arith, is, q))
      | inr q ↦ elim (Bool-cases (cc.auth_type == authtype_basic)) [
        | inl r ↦ inr (ground (arith, is, q, r))
        | inr r ↦ inl (ground (arith, is, q, r))
      ]
    ]
