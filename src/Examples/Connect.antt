-- ===== src/Examples/Connect.antt =====
-- A new client connects to a cluster that answers with its version and its name.
use Prim.Native.String.{◌++◌}
use goppstats.Prelude.{ℕ, false, ◌≡◌, refl, ◌==◌, string_eq, nat_eq}
use goppstats.Prelude.Int.{pos}
use goppstats.Prelude.Format.{itoa}
use goppstats.Prelude.Result.{ok}
use goppstats.Api.Json.{Json, str, obj, field, end, get, as_object, as_string}
use goppstats.Api.Client.{Cluster, Net, authtype_session}
use goppstats.Api.Client.Session.{initialize, authenticate}
use goppstats.Api.Client.Get.{rest_get, get_fresh, get_loop, needs_auth, new_get_request, end_get}
use goppstats.Api.Client.Queries.{connect, open_session, get_cluster_config, apply_config}
use goppstats.Api.Client.Queries.Connected.{IsConfigured, connect-IsConfigured}
use goppstats.Examples.Network.{net_with, cluster, answer_200}

abbrev config_json : Json ℕ
config_json = obj (
    field "name" (str "isi")
      (field "onefs_version" (obj (field "version" (str "9.7.0.0") end)) end))

abbrev pub net : Net ℕ ℕ
net = record (net_with (ok answer_200)) { unmarshal = λ s. ok config_json }

abbrev new : Cluster
new = record cluster { connected = false; base_url = ""; port = pos 0; cluster_name = "" }

abbrev pub connected : Cluster
connected = record cluster { os_version = "9.7.0.0"; cluster_name = "isi" }

connect-IsConfigured_example :
    IsConfigured net (initialize new).1 connected
    × ((initialize new).1.base_url
        ≡ "https://" ++ new.hostname ++ ":" ++ itoa (initialize new).1.port)
    × ((new.username == "") ≡ false)
    × ((new.password == "") ≡ false)
    × ((new.hostname == "") ≡ false)
    × (new.auth_type ≡ authtype_session → (authenticate net (initialize new).1 0).0 ≡ ok tt)
unfolding connect initialize open_session get_cluster_config apply_config rest_get get_fresh
    get_loop needs_auth new_get_request end_get get as_object as_string itoa
connect-IsConfigured_example = connect-IsConfigured net new connected 0 1 refl refl
