-- ===== src/Examples/Network.antt =====
-- The client against small networks; the network's state is the seconds passed, and each request
-- takes one.
use goppstats.Prelude.{
  ℕ, suc, ◌+◌, String, [], ◌∷◌, ◌≡◌, ◌↔◌, refl, none, some, true, false, string_eq,
}
use goppstats.Prelude.Int.{pos}
use goppstats.Prelude.Result.{Result, ok, err, message, refused, is_connection_refused}
use goppstats.Prelude.Dict.{Dict, lookup, insert}
use goppstats.Api.Json.{Json, str, arr, obj, Items, cons, nil, field, end}
use goppstats.Api.Client.{Cluster, Request, Response, Net, config_path}
use goppstats.Api.Client.Get.{rest_get, get_fresh, get_loop, needs_auth, new_get_request}
use goppstats.Api.Client.Get.Answers.{IsAnswered, rest_get-IsAnswer}
use goppstats.Api.Client.Get.Refused.{after_attempts, rest_get-refused}
use goppstats.Api.Client.Queries.{path_of_export}
use goppstats.Api.Client.Queries.Laws.{HasPath, path_of_export_lem}
use goppstats.Prometheus.Write.{stat_labels, dataset_labels, is_overflow, is_pinned}
use goppstats.Prometheus.Write.Labels.{lookup-stat_labels}

abbrev pub net_with : Result Response → Net ℕ ℕ
net_with answer = record {
  send = λ req w. (answer, suc w);
  wait = λ secs w. (true, w + secs);
  context_error = λ w. message "context canceled";
  now = λ w. pos w;
  cookies = λ url w. ("isicsrf", "token") ∷ [];
  parse_url = λ s. ok s;
  check_url = λ s. ok tt;
  unmarshal = λ s. ok (str s);
  decode = λ s. ok (str s);
  to_int = λ n. pos n;
  to_lower = λ s. s;
}

abbrev pub cluster : Cluster
cluster = record {
  username = "user";
  password = "password";
  auth_type = "basic-auth";
  hostname = "cluster";
  port = pos 8080;
  verify_ssl = true;
  os_version = "";
  cluster_name = "cluster";
  base_url = "https://cluster:8080";
  connected = true;
  csrf_token = "";
  reauth_time = pos 0;
  max_retries = pos 3;
  preserve_case = false;
}

abbrev pub answer_200 : Response
answer_200 = record { status_code = 200; status = "200 OK"; body = ok "body" }

abbrev request : Request
request = record {
  method = "GET";
  url = "https://cluster:8080/platform/1/cluster/config";
  headers = ("User-Agent", "goppstats/0.32") ∷ ("Content-Type", "application/json") ∷ [];
  basic_auth = some ("user", "password");
  body = none;
}

rest_get_run : rest_get (net_with (ok answer_200)) cluster config_path 0 ≡ (ok "body", cluster, 1)
unfolding rest_get get_fresh get_loop needs_auth new_get_request
rest_get_run = refl

rest_get-IsAnswer_example : IsAnswered (net_with (ok answer_200)) cluster config_path "body"
unfolding rest_get get_fresh get_loop needs_auth new_get_request
rest_get-IsAnswer_example =
    rest_get-IsAnswer (net_with (ok answer_200)) cluster config_path 0 "body" refl

-- Three requests, and the waits of one, two and four seconds.
rest_get-refused_example :
    rest_get (net_with (err refused)) cluster config_path 0 ≡ (err refused, cluster, 10)
unfolding needs_auth new_get_request after_attempts is_connection_refused
rest_get-refused_example =
    rest_get-refused (net_with (err refused)) 2 config_path
      "https://cluster:8080/platform/1/cluster/config" request refused cluster 0 refl refl refl refl
      ((λ w. refl), refl) (λ secs w. refl)

abbrev exports : Items ℕ
exports = cons (obj (field "paths" (arr (cons (str "/ifs/data") nil)) end)) nil

abbrev export_fields : Json ℕ
export_fields = obj (field "exports" (arr exports) end)

path_of_export_lem_example :
    (path_of_export (pos 2) export_fields ≡ ok "/ifs/data") ↔ HasPath export_fields "/ifs/data"
path_of_export_lem_example = path_of_export_lem (pos 2) export_fields "/ifs/data"

abbrev tags : Dict String String
tags = insert "username" "alice" []

abbrev labels : Dict String String
labels = insert "node" "1" []

lookup-stat_labels_example :
    lookup "username" (insert "pinned" "false" (insert "username" "alice" labels)) ≡ some "alice"
unfolding lookup insert stat_labels dataset_labels is_overflow is_pinned
lookup-stat_labels_example = lookup-stat_labels none ("username" ∷ []) tags labels "username" refl
