-- ===== src/Api/Client.antt =====
-- The client's state, its requests, and what it needs of the network (isilon_api.go).
pub mod Session
pub mod Get
pub mod Queries
pub mod Cancelled
use goppstats.Prelude.{ℕ, String, List, Bool, Option}
use goppstats.Prelude.Int.{ℤ}
use goppstats.Prelude.Result.{Result, Error}
use goppstats.Api.Json.{Json}

-- `Cluster`; `connected` is `client != nil`, and the time of the next authentication is in seconds.
pub record Cluster : Type 0 where
  pub username : String
  pub password : String
  pub auth_type : String
  pub hostname : String
  pub port : ℤ
  pub verify_ssl : Bool
  pub os_version : String
  pub cluster_name : String
  pub base_url : String
  pub connected : Bool
  pub csrf_token : String
  pub reauth_time : ℤ
  pub max_retries : ℤ
  pub preserve_case : Bool

-- What `Authenticate` sends as JSON.
pub record AuthMessage : Type 0 where
  pub username : String
  pub password : String
  pub services : List String

-- A request, with its JSON body if it has one.
pub record Request : Type 0 where
  pub method : String
  pub url : String
  pub headers : List (String × String)
  pub basic_auth : Option (String × String)
  pub body : Option AuthMessage

-- A response, with what reading its body to the end gives.
pub record Response : Type 0 where
  pub status_code : ℕ
  pub status : String
  pub body : Result String

-- What is not the program's own: Go's HTTP client with its cookies, the network and the cluster, the
-- clock, the context, and JSON decoding, over a state of theirs.
pub record Net (Float64 W : Type 0) : Type 0 where
  -- `client.Do(req)`
  pub send : Request → W → Result Response × W
  -- `select` on `time.After(n seconds)` and `ctx.Done()`: whether the time has passed first
  pub wait : ℕ → W → Bool × W
  -- `ctx.Err()`, after `ctx.Done()`
  pub context_error : W → Error
  -- `time.Now()`, in seconds
  pub now : W → ℤ
  -- `client.Jar.Cookies(u)`, names and values
  pub cookies : String → W → List (String × String)
  -- `url.Parse(s)` and back to text
  pub parse_url : String → Result String
  -- the check of `http.NewRequestWithContext`
  pub check_url : String → Result Unit
  pub unmarshal : String → Result (Json Float64)
  -- `json.NewDecoder(body).Decode`, which leaves what follows a value
  pub decode : String → Result (Json Float64)
  -- `int(f)`
  pub to_int : Float64 → ℤ
  -- `strings.ToLower`
  pub to_lower : String → String

-- `String`
abbrev pub to_string : Cluster → String
to_string c = c.cluster_name

abbrev pub authtype_basic : String
authtype_basic = "basic-auth"

abbrev pub authtype_session : String
authtype_session = "session"

abbrev pub user_agent : String
user_agent = "goppstats/0.32"

abbrev pub session_path : String
session_path = "/session/1/session"

abbrev pub config_path : String
config_path = "/platform/1/cluster/config"

abbrev pub ds_path : String
ds_path = "/platform/10/performance/datasets"

abbrev pub pp_workload_path : String
pp_workload_path = "/platform/10/statistics/summary/workload"

abbrev pub export_path : String
export_path = "/platform/1/protocols/nfs/exports"

-- The retry timeout is clamped to 30 minutes.
abbrev pub max_timeout_secs : ℕ
max_timeout_secs = 1800
